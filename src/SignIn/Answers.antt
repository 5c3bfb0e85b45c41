-- ===== src/SignIn/Answers.antt =====
-- Services that answer, and the session that they give for the right password.
use auction_platform_backend.Prelude.{
  ℕ, ◌+◌, ◌≤◌, ◌≡◌, refl, sym, Bool, true, false, Option, none, some, not,
}
use auction_platform_backend.Outcome.{
  Error, M, Result, ok, Outcome, done, failed, thrown, and_then, attempted, fail_if, require,
  settle, ◌>>=◌, gives,
}
use auction_platform_backend.Outcome.Post.{Post, Post-and_then, Post-caught}
use auction_platform_backend.Users.{UserAccount, active, local}
use auction_platform_backend.Otp.{Otp, reset_password}
use auction_platform_backend.Subscription.{UserSubscription, SubscriptionPlan}
use auction_platform_backend.Subscriptions.{
  assign_default_subscription_to_user, assign_missing, assign_plan,
}
use auction_platform_backend.SignIn.{
  SignInPlatform, Session, is_local, password_hash, refuse_inactive, describe, session,
}
use auction_platform_backend.SignIn.Entry.{try_login, login}

-- Calls that are done.
module _ {W : Type 0} where
  abbrev pub Never : W → Type 0
  Never w = ⊥

  module _ {B : Type 0} (R : B → W → Type 0) where
    pub after-passed :
        (c : Bool) (e : Error) (w : W) (f : Unit {0} → M W B)
        → c ≡ false
        → Post R Never (f tt w)
        → Post R Never (and_then (fail_if c e w) f)
    after-passed c e w f q h = rw q h

    pub after-ok :
        {A : Type 0} (r : Result A) (a : A) (w : W) (f : A → M W B)
        → r ≡ ok a
        → Post R Never (f a w)
        → Post R Never (and_then (settle r w) f)
    after-ok r a w f q h = rw q h

    pub after-present :
        {A : Type 0} (o : Option A) (a : A) (e : Error) (w : W) (f : A → M W B)
        → o ≡ some a
        → Post R Never (f a w)
        → Post R Never (and_then (require o e w) f)
    after-present o a e w f q h = rw q h

    pub after-written :
        {A : Type 0} (Q : W → Type 0) (r : Outcome A × W) (f : Result A → M W B)
        → Post (λ x v. Q v) Never r
        → ((y : Result A) (v : W) → Q v → Post R Never (f y v))
        → Post R Never (and_then (attempted r) f)
    after-written Q (done a, w) f h k = k (ok a) w h
    after-written Q (failed e, w) f h k = absurd h
    after-written Q (thrown, w) f h k = absurd h

-- Services that answer: `account` is the row of user `k`, `row` the latest one of the user for a new
-- password, `Fits` says which passwords a hash fits and `IsValid` which tokens name the user; a token is
-- read within `delay`.
module _ {W : Type 0} (d : SignInPlatform W) (k delay : ℕ) (account : W → Option UserAccount)
    (row : W → Option Otp) (Fits : ℕ → ℕ → Type 0) (IsValid : ℕ → W → Type 0) where
  abbrev pub Same : W → W → Type 0
  Same w v = (account v ≡ account w) × (row v ≡ row w)

  abbrev pub Answer : {A : Type 0} → (A → W → Type 0) → Outcome A × W → Type 0
  Answer Q r = Post Q Never r

  pub record Answers : Type 0 where
    pub token_law :
        (t : ℕ) (w : W)
        → IsValid t w
        → Answer (λ o v. (o ≡ some k) × Same w v × (d.now v ≤ d.now w + delay)) (d.verify_token t w)
    pub row_law :
        (o : Otp) (w : W)
        → row w ≡ some o
        → d.now w ≤ o.expires_at
        → Answer (λ x v. (x ≡ some o) × Same w v) (d.otps.find_recent k reset_password w)
    pub id_law :
        (a : UserAccount) (w : W)
        → account w ≡ some a
        → Answer (λ x v. (x ≡ a) × Same w v) (d.accounts.find_by_id k w)
    pub email_law :
        (a : UserAccount) (w : W)
        → account w ≡ some a
        → Answer (λ x v. (x ≡ a) × Same w v) (d.accounts.find_by_email a.email w)
    pub hash_law : (p : ℕ) (w : W) → Answer (λ h v. Fits p h × Same w v) (d.hash_password p w)
    pub compare_law :
        (p h : ℕ) (w : W) → Fits p h → Answer (λ b v. b ≡ true) (d.compare_password p h w)
    pub update_law :
        (o o' : Otp) (w : W)
        → row w ≡ some o
        → o'.id ≡ o.id
        → Answer (λ x v. account v ≡ account w) (d.otps.update o'.id o' w)
    pub save_law :
        (a a' : UserAccount) (w : W)
        → account w ≡ some a
        → a'.id ≡ a.id
        → Answer (λ x v. account v ≡ some a') (d.accounts.save a' w)
    pub current_law :
        (i : ℕ) (w : W)
        → Answer (λ c v. Unit {0}) (d.subscriptions.subs.find_current_active_by_user_id i w)
    pub default_law :
        (w : W) → Answer (λ c v. Unit {0}) (d.subscriptions.plans.find_active_default w)
    pub save_plan_law :
        (s : UserSubscription) (w : W) → Answer (λ c v. Unit {0}) (d.subscriptions.subs.save s w)
    pub plan_law : (i : ℕ) (w : W) → Answer (λ p v. Unit {0}) (d.subscriptions.plans.find_by_id i w)

  module _ (laws : Answers) where
    abbrev pub For : UserAccount → Session → W → Type 0
    For a s v = s.user ≡ a

    pub after-active :
        {B : Type 0} (R : B → W → Type 0) (a : UserAccount) (w : W) (f : Unit {0} → M W B)
        → a.status ≡ active
        → Post R Never (f tt w)
        → Post R Never (and_then (refuse_inactive d a w) f)
    unfolding refuse_inactive
    after-active R a w f live h = rw live h

    session-For :
        (a : UserAccount) (access refresh : ℕ) (c : Option UserSubscription) (w : W)
        → Post (For a) Never (session d a access refresh c w)
    unfolding session describe
    session-For a access refresh none w = refl
    session-For a access refresh (some s) w =
        Post-and_then (λ p v. Unit {0}) (For a) Never _ _
          (Post-and_then (λ p v. Unit {0}) (λ p v. Unit {0}) Never
            (d.subscriptions.plans.find_by_id s.subscription_plan_id w) _
            (laws.plan_law s.subscription_plan_id w) (λ p v h. tt))
          (λ p v h. refl)

    plan-Answers :
        (i : ℕ) (o : Option SubscriptionPlan) (w : W)
        → Answer (λ c v. Unit {0}) (assign_plan d.subscriptions i o w)
    unfolding assign_plan
    plan-Answers i none w = tt
    plan-Answers i (some plan) w =
        Post-and_then (λ c v. Unit {0}) (λ c v. Unit {0}) Never _ _
          (laws.save_plan_law _ (d.subscriptions.platform.runtime.generate_id w).1) (λ c w1 x. tt)

    missing-Answers :
        (i : ℕ) (o : Option UserSubscription) (w : W)
        → Answer (λ c v. Unit {0}) (assign_missing d.subscriptions i o w)
    unfolding assign_missing
    missing-Answers i (some s) w = tt
    missing-Answers i none w =
        Post-and_then (λ c v. Unit {0}) (λ c v. Unit {0}) Never
          (d.subscriptions.plans.find_active_default w) _ (laws.default_law w)
          (λ found w1 x. plan-Answers i found w1)

    -- The default plan is assigned, if there is one and the user has none.
    assigned-Answers :
        (i : ℕ) (w : W)
        → Answer (λ c v. Unit {0}) (assign_default_subscription_to_user d.subscriptions i w)
    unfolding assign_default_subscription_to_user
    assigned-Answers i w =
        Post-and_then (λ c v. Unit {0}) (λ c v. Unit {0}) Never
          (d.subscriptions.subs.find_current_active_by_user_id i w) _ (laws.current_law i w)
          (λ c w1 x. missing-Answers i c w1)

    pub login-For :
        (email password h : ℕ) (a : UserAccount) (w : W)
        → account w ≡ some a
        → d.read_email email ≡ some a.email
        → a.status ≡ active
        → a.auth_provider ≡ local h
        → Fits password h
        → Post (For a) Never (login d email password w)
    unfolding login try_login
    login-For email password h a0 w stored read live own fits =
        Post-caught (For a0) Never (try_login d email password w) _ (
          after-present (For a0) (d.read_email email) a0.email _ w _ read (
            Post-and_then (λ a v. (a ≡ a0) × Same w v) (For a0) Never
              (d.accounts.find_by_email a0.email w) _ (laws.email_law a0 w stored)
              (λ a v (same, still). rw (sym same) (
                after-passed (For a) (not (is_local a.auth_provider)) _ v _ (rw (same, own) refl) (
                  after-ok (For a) (password_hash a.auth_provider) h v _ (rw (same, own) refl) (
                    Post-and_then (λ b v1. b ≡ true) (For a) Never (d.compare_password password h v)
                      _ (laws.compare_law password h v fits)
                      (λ b v1 right.
                        after-passed (For a) (not b) _ v1 _ (rw right refl)
                          (after-active (For a) a v1 _ (rw same live) (entered a v1)))))))))
      where
        entered :
            (a : UserAccount) (v1 : W)
            → Post (For a) Never (
                (gives (d.access_token a.id) >>= λ access.
                gives (d.refresh_token a.id) >>= λ refresh.
                d.subscriptions.subs.find_current_active_by_user_id a.id >>= λ current.
                assign_default_subscription_to_user d.subscriptions a.id >>= λ assigned.
                session d a access refresh current)
                  v1)
        entered a v1 =
            let (access, v2) = d.access_token a.id v1 in
            let (refresh, v3) = d.refresh_token a.id v2 in
            Post-and_then (λ c v. Unit {0}) (For a) Never
              (d.subscriptions.subs.find_current_active_by_user_id a.id v3) _
              (laws.current_law a.id v3)
              (λ current v4 x.
                Post-and_then (λ c v. Unit {0}) (For a) Never
                  (assign_default_subscription_to_user d.subscriptions a.id v4) _
                  (assigned-Answers a.id v4)
                  (λ assigned v5 y. session-For a access refresh current v5))
