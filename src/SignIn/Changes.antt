-- ===== src/SignIn/Changes.antt =====
-- What editProfile and changeProfilePassword may make of the account of a user, and their tests.
use auction_platform_backend.Prelude.{
  Bool-cases, ℕ, ◌<◌, ◌≡◌, ◌≢◌, ◌∙◌, ◌⊎◌, inl, inr, Bool, true, Option, none, some, ◌==◌, arith,
}
use auction_platform_backend.Outcome.{
  Outcome, done, failed, thrown, M, and_then, attempted, give_up, Error, otp_expired_ask_again,
  otp_blocked_ask_again, wrong_otp, invalid_otp,
}
use auction_platform_backend.Outcome.Post.{Post}
use auction_platform_backend.Outcome.World.{after-and_then}
use auction_platform_backend.Users.{UserAccount, local}
use auction_platform_backend.Otp.{
  Otp, OtpPurpose, change_profile_password, edit_profile, is_otp_blocked, is_otp_expired,
}
use auction_platform_backend.Subscription.{UserSubscription}
use auction_platform_backend.SignIn.{SignInPlatform, describe}
use auction_platform_backend.SignIn.Profile.{
  ProfileEdit, PasswordEdit, edited, accept_edit_code, edit_profile_of, accept_password_code,
  change_profile_password_of,
}

pub data ProfileCall : Type 0 where
  edit_it : ProfileEdit → ProfileCall
  change_it : PasswordEdit → ProfileCall

module _ {W : Type 0} (d : SignInPlatform W) where
  unfoldable pub run : ProfileCall → W → W
  run (edit_it e) w = (edit_profile_of d e w).1
  run (change_it c) w = (change_profile_password_of d c w).1

-- `view` is the stored account of user `u`, `matches` compares a password with a hash, and `Held`
-- says which codes the table may give for a user and a purpose.
module _ {W : Type 0} (d : SignInPlatform W) (view : W → UserAccount) (u : ℕ)
    (matches : ℕ → ℕ → Bool) (Held : ℕ → OtpPurpose → Otp → Type 0) where
  open d use {now, read_email, compare_password, hash_password, accounts, otps, subscriptions}

  abbrev pub Finds : {A : Type 0} → (A → UserAccount → Type 0) → M W A → Type 0
  Finds Q m =
      (v : UserAccount) (w : W)
      → view w ≡ v
      → Post (λ a w'. (view w' ≡ v) × Q a v) (λ w'. view w' ≡ v) (m w)

  -- What is found under an identifier, and for an identifier and a purpose.
  abbrev pub Stored : ℕ → UserAccount → UserAccount → Type 0
  Stored i a v = (a.id ≡ i) × (i ≡ u → a ≡ v)

  abbrev pub Rows : ℕ → OtpPurpose → Option Otp → UserAccount → Type 0
  Rows i p row v = (o : Otp) → row ≡ some o → Held i p o

  pub record ProfileLaws : Type 0 where
    pub account_law : (i : ℕ) → Finds (Stored i) (accounts.find_by_id i)
    pub otp_law : (i : ℕ) (p : OtpPurpose) → Finds (Rows i p) (otps.find_recent i p)
    pub compare_law : (p h : ℕ) → Finds (λ b v. b ≡ matches p h) (compare_password p h)
    pub hash_law : (p : ℕ) → Finds (λ h v. matches p h ≡ true) (hash_password p)
    pub update_keeps : (i : ℕ) (o : Otp) (w : W) → view (otps.update i o w).1 ≡ view w
    pub current_keeps :
        (i : ℕ) (w : W) → view (subscriptions.subs.find_current_active_by_user_id i w).1 ≡ view w
    pub plan_keeps : (i : ℕ) (w : W) → view (subscriptions.plans.find_by_id i w).1 ≡ view w
    pub save_law :
        (a : UserAccount) (w : W)
        → (view (accounts.save a w).1 ≡ view w) ⊎ ((a.id ≡ u) × (view (accounts.save a w).1 ≡ a))

  -- The request gives the code of a row of the user, guessed wrong less than three times.
  abbrev pub GivesCode : OtpPurpose → ℕ → Type 0
  GivesCode purpose code = (o : Otp) × Held u purpose o × (o.otp ≡ code) × (o.attempts < 3)

  -- What a call may make of an account.
  abbrev pub Makes : ProfileCall → UserAccount → UserAccount → Type 0
  Makes (edit_it e) v v' =
      (e.user_id ≡ u)
      × GivesCode edit_profile e.otp
      × ((x : ℕ) × (read_email e.email ≡ some x) × (v' ≡ edited e x v))
  Makes (change_it c) v v' =
      (c.user_id ≡ u)
      × GivesCode change_profile_password c.otp
      × (c.old_password ≢ c.new_password)
      × ((h h' : ℕ) × (v.auth_provider ≡ local h)
          × (matches c.old_password h ≡ true)
          × (matches c.new_password h' ≡ true)
          × (v' ≡ record v { auth_provider = local h' }))

  module _ (laws : ProfileLaws) (c : ProfileCall) (v : UserAccount) where
    abbrev pub Fine : W → Type 0
    Fine w = (view w ≡ v) ⊎ Makes c v (view w)

    pub after-found :
        {A B : Type 0} (Q : A → UserAccount → Type 0) (r : Outcome A × W) (f : A → M W B)
        → Post (λ a w'. (view w' ≡ v) × Q a v) (λ w'. view w' ≡ v) r
        → ((a : A) (w : W) → view w ≡ v → Q a v → Fine (f a w).1)
        → Fine (and_then r f).1
    after-found Q (done a, w) f (e, q) k = k a w e q
    after-found Q (failed x, w) f e k = inl e
    after-found Q (thrown, w) f e k = inl e

    pub kept : {A : Type 0} (m : M W A) (w : W) → view (m w).1 ≡ view w → Fine w → Fine (m w).1
    kept m w e h = rw e h

    -- A test of a code, which leaves the accounts alone.
    abbrev pub Passes : Type 0 → Outcome (Unit {0}) × W → Type 0
    Passes Q r = Post (λ x w'. (view w' ≡ v) × Q) (λ w'. view w' ≡ v) r

    refused :
        (Q : Type 0) (r : Outcome Otp × W) (x : Error)
        → view r.1 ≡ v
        → Passes Q (and_then (attempted r) (λ y. give_up x))
    refused Q (done o, w) x e = e
    refused Q (failed y, w) x e = e
    refused Q (thrown, w) x e = e

    written :
        (Q : Type 0) (i : ℕ) (o : Otp) (x : Error) (w : W)
        → view w ≡ v
        → Passes Q (and_then (attempted (otps.update i o w)) (λ y. give_up x))
    written Q i o x w e = refused Q (otps.update i o w) x (laws.update_keeps i o w ∙ e)

    pub edit_code-Passes :
        (o : Otp) (code : ℕ) (w : W)
        → view w ≡ v
        → Passes (o.otp ≡ code) (accept_edit_code d o code w)
    unfolding accept_edit_code
    edit_code-Passes o code w e = elim (Bool-cases (o.otp == code)) [
      | inl same ↦ rw same (e, ground arith)
      | inr other ↦ rw other (written (o.otp ≡ code) o.id _ invalid_otp w e)
    ]

    pub password_code-Passes :
        (o : Otp) (code : ℕ) (w : W)
        → view w ≡ v
        → Passes ((o.otp ≡ code) × (o.attempts < 3)) (accept_password_code d o code w)
    unfolding accept_password_code
    password_code-Passes o code w e = elim (Bool-cases (is_otp_expired (now w) o)) [
      | inl late ↦ rw late (written _ o.id _ otp_expired_ask_again w e)
      | inr early ↦ elim (Bool-cases (is_otp_blocked o)) [
        | inl often ↦ rw (early, often) (written _ o.id _ otp_blocked_ask_again w e)
        | inr few ↦ elim (Bool-cases (o.otp == code)) [
          | inl same ↦ rw (early, few, same) (e, (ground arith, ground arith))
          | inr other ↦ rw (early, few, other) (written _ o.id _ wrong_otp w e)
        ]
      ]
    ]

    pub saved :
        (a : UserAccount) (w : W)
        → view w ≡ v
        → (a.id ≡ u → Makes c v a)
        → Fine (accounts.save a w).1
    saved a w e may = elim (laws.save_law a w) [
      | inl same ↦ inl (same ∙ e)
      | inr (i, q) ↦ inr (rw q (may i))
    ]

    pub described-Fine : (s : Option UserSubscription) (w : W) → Fine w → Fine (describe d s w).1
    unfolding describe
    described-Fine none w h = h
    described-Fine (some s) w h =
        after-and_then Fine (subscriptions.plans.find_by_id s.subscription_plan_id w) _
          (kept (subscriptions.plans.find_by_id s.subscription_plan_id) w
            (laws.plan_keeps s.subscription_plan_id w) h)
          (λ p w1 k. k)
