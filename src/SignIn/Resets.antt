-- ===== src/SignIn/Resets.antt =====
-- A row that lets a user set a new password is used at most once.
use auction_platform_backend.Prelude.{
  ℕ, ◌+◌, ◌≤◌, ◌≡◌, ◌∙◌, refl, Bool, true, false, Option, none, some, List, [], ◌∷◌, not, ◌==◌,
  arith, if◌then◌else◌,
}
use auction_platform_backend.Outcome.{
  Result, ok, fail, M, Outcome, done, failed, thrown, and_then, attempt, attempted, give_up, ◌>>=◌,
  invalid_token, fail_if, account_blocked, account_suspended,
}
use auction_platform_backend.Outcome.Post.{Post, Post-guarded, Post-required}
use auction_platform_backend.Users.{UserAccount, is_blocked, is_suspended}
use auction_platform_backend.Otp.{
  Otp, OtpStatus, is_otp_blocked, is_pending, reset_password, increment_attempts, set_otp_status,
}
use auction_platform_backend.SignIn.{SignInPlatform, refuse_inactive}
use auction_platform_backend.SignIn.Accounts.{use_reset, change_password}

-- 1 while the row may be used.
abbrev pub pending_count : OtpStatus → ℕ
pending_count OtpStatus.pending = 1
pending_count _ = 0

abbrev pub open_resets : Option Otp → ℕ
open_resets none = 0
open_resets (some o) = pending_count o.status

abbrev pub changes_of : {A W : Type 0} → Outcome A × W → ℕ
changes_of (done a, w) = 1
changes_of (failed e, w) = 0
changes_of (thrown, w) = 0

pending_one : (s : OtpStatus) → not (is_pending s) ≡ false → pending_count s ≡ 1
pending_one OtpStatus.pending e = refl
pending_one OtpStatus.verified e = absurd (cc e)
pending_one OtpStatus.expired e = absurd (cc e)
pending_one OtpStatus.blocked e = absurd (cc e)

module _ {W : Type 0} (d : SignInPlatform W) where
  -- Calls of `changePassword`, each with a token and a password: how many are done, and the world
  -- after them.
  unfoldable pub change_all : List (ℕ × ℕ) → W → ℕ × W
  change_all [] w = (0, w)
  change_all ((token, password) ∷ rest) w =
      let r = change_password d token password w in
      let (n, w') = change_all rest r.1 in (changes_of r + n, w')

-- `view` is the latest row of user `u` for a new password, and `owner` says whom a token names.
module _ {W : Type 0} (d : SignInPlatform W) (view : W → Option Otp) (u : ℕ) (owner : ℕ → ℕ) where
  abbrev pub Finds : {A : Type 0} → (A → Option Otp → Type 0) → M W A → Type 0
  Finds Q m =
      (v : Option Otp) (w : W)
      → view w ≡ v
      → Post (λ a w'. (view w' ≡ v) × Q a v) (λ w'. view w' ≡ v) (m w)

  -- The table of passwords takes every update.
  pub record ResetLaws : Type 0 where
    pub token_law : (t : ℕ) → Finds (λ o v. (i : ℕ) → o ≡ some i → i ≡ owner t) (d.verify_token t)
    pub find_law :
        Finds (λ row v. (x : Otp) → row ≡ some x → v ≡ some x) (d.otps.find_recent u reset_password)
    pub account_law : (i : ℕ) → Finds (λ a v. Unit {0}) (d.accounts.find_by_id i)
    pub hash_law : (p : ℕ) → Finds (λ a v. Unit {0}) (d.hash_password p)
    pub save_keeps : (a : UserAccount) (w : W) → view (d.accounts.save a w).1 ≡ view w
    pub update_law :
        (o x : Otp) (w : W)
        → view w ≡ some o
        → x.id ≡ o.id
        → view (d.otps.update x.id x w).1 ≡ some x

  abbrev pub Owned : List (ℕ × ℕ) → Type 0
  Owned [] = Unit {0}
  Owned ((token, password) ∷ rest) = (owner token ≡ u) × Owned rest

  module _ (laws : ResetLaws) (v : Option Otp) where
    -- The row is used up by a call that is done, and no call makes it usable.
    abbrev Uses : {A : Type 0} → A → W → Type 0
    Uses x w = (open_resets v ≡ 1) × (open_resets (view w) ≡ 0)

    abbrev Spends : W → Type 0
    Spends w = open_resets (view w) ≤ open_resets v

    same_view : (w : W) → view w ≡ v → Spends w
    same_view w e = rw e (omega arith)

    after-found :
        {A B : Type 0} (Q : A → Option Otp → Type 0) (r : Outcome A × W) (f : A → M W B)
        → Post (λ a w'. (view w' ≡ v) × Q a v) (λ w'. view w' ≡ v) r
        → ((a : A) (w : W) → view w ≡ v → Q a v → Post Uses Spends (f a w))
        → Post Uses Spends (and_then r f)
    after-found Q (done a, w) f (e, q) k = k a w e q
    after-found Q (failed x, w) f e k = same_view w e
    after-found Q (thrown, w) f e k = same_view w e

    after-written :
        {A B : Type 0} (x : Otp) (r : Outcome A × W) (f : Result A → M W B)
        → view r.1 ≡ some x
        → open_resets (some x) ≤ open_resets v
        → ((y : Result A) (w : W) → view w ≡ some x → Post Uses Spends (f y w))
        → Post Uses Spends (and_then (attempted r) f)
    after-written x (done a, w) f e less k = k (ok a) w e
    after-written x (failed y, w) f e less k = k (fail y) w e
    after-written x (thrown, w) f e less k = rw e less

    after-refused :
        {B : Type 0} (a : UserAccount) (w : W) (f : Unit {0} → M W B)
        → view w ≡ v
        → Post Uses Spends (f tt w)
        → Post Uses Spends (and_then (refuse_inactive d a w) f)
    unfolding refuse_inactive
    after-refused a w f e h = go (is_blocked a.status) (is_suspended a.status)
      where
        go :
            (b c : Bool)
            → Post Uses Spends (
                and_then
                  (and_then (fail_if b account_blocked w) (λ x. fail_if c account_suspended))
                  f)
        go true c = same_view w e
        go false true = same_view w e
        go false false = h

    use_reset-Uses :
        (o : Otp) (i password : ℕ) (w : W)
        → v ≡ some o
        → pending_count o.status ≡ 1
        → view w ≡ v
        → Post Uses Spends (use_reset d o i password w)
    unfolding use_reset set_otp_status
    use_reset-Uses o i password w q waits e =
        after-found (λ a v'. Unit {0}) (d.accounts.find_by_id i w) _ (laws.account_law i v w e)
          (λ a w1 e1 y. after-refused a w1 _ e1 (
            after-found (λ h v'. Unit {0}) (d.hash_password password w1) _
              (laws.hash_law password v w1 e1)
              (λ h w2 e2 y'.
                let x = set_otp_status OtpStatus.verified o in
                after-written x (d.otps.update o.id x w2) _ (laws.update_law o x w2 (e2 ∙ q) refl)
                  (omega arith)
                  (λ z w3 e3.
                    after-written x (d.accounts.save _ w3) _ (laws.save_keeps _ w3 ∙ e3)
                      (omega arith) (λ z' w4 e4. (rw q waits, rw e4 refl))))))

    change_password-Uses :
        (token password : ℕ) (w : W)
        → owner token ≡ u
        → view w ≡ v
        → Post Uses Spends (change_password d token password w)
    unfolding change_password increment_attempts
    change_password-Uses token password w mine e =
        after-found (λ o v'. (i : ℕ) → o ≡ some i → i ≡ owner token) (d.verify_token token w) _
          (laws.token_law token v w e)
          (λ named w1 e1 whose. Post-required Uses Spends named _ w1 _ (same_view w1 e1) (λ i q.
            after-found (λ row v'. (x : Otp) → row ≡ some x → v' ≡ some x)
              (d.otps.find_recent i reset_password w1) _
              (rw (whose i q, mine) (laws.find_law v w1 e1))
              (λ row w2 e2 stored. Post-required Uses Spends row _ w2 _ (same_view w2 e2) (λ o k.
                Post-guarded Uses Spends (is_otp_blocked o) _ w2 _ (same_view w2 e2) (λ few.
                  Post-guarded Uses Spends (not (is_pending o.status)) _ w2 _ (same_view w2 e2)
                    (λ waits.
                      try_token i o w2 (stored o k) (pending_one o.status waits) e2
                        (o.otp == token)))))))
      where
        try_token :
            (i : ℕ) (o : Otp) (w2 : W)
            → v ≡ some o
            → pending_count o.status ≡ 1
            → view w2 ≡ v
            → (b : Bool)
            → Post Uses Spends (
                (if not b
                    then (attempt (d.otps.update o.id (increment_attempts o)) >>= λ counted.
                        give_up invalid_token)
                    else use_reset d o i password)
                  w2)
        try_token i o w2 q waits e2 true = use_reset-Uses o i password w2 q waits e2
        try_token i o w2 q waits e2 false =
            let x = increment_attempts o in
            after-written x (d.otps.update o.id x w2) _ (laws.update_law o x w2 (e2 ∙ q) refl)
              (rw q (omega arith)) (λ y w3 e3. rw (e3, q) (omega arith))

  module _ (laws : ResetLaws) where
    counted :
        (v : Option Otp) (r : Outcome (Unit {0}) × W)
        → Post (Uses laws v) (Spends laws v) r
        → changes_of r + open_resets (view r.1) ≤ open_resets v
    counted v (done x, w) (a, b) = omega (arith, a, b)
    counted v (failed x, w) h = omega (arith, h)
    counted v (thrown, w) h = omega (arith, h)

    -- If the table of passwords takes every update, then of any sequence of calls of changePassword,
    -- with whatever tokens of a user, at most one is done until a new row is stored for that user,
    -- and none if the latest row is not pending.
    pub change_all-AtMostOne :
        (calls : List (ℕ × ℕ)) (w : W)
        → Owned calls
        → (change_all d calls w).0 ≤ open_resets (view w)
    unfolding change_all
    change_all-AtMostOne [] w h = omega arith
    change_all-AtMostOne ((token, password) ∷ rest) w (mine, others) =
        let r = change_password d token password w in
        omega (
          arith,
          counted (view w) r (change_password-Uses laws (view w) token password w mine refl),
          change_all-AtMostOne rest r.1 others,
        )
