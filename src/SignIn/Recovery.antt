-- ===== src/SignIn/Recovery.antt =====
-- From a forgotten password to a session with the new one.
use auction_platform_backend.Prelude.{
  ℕ, ◌+◌, ◌≤◌, ◌<◌, ◌≡◌, ◌∙◌, ap, refl, sym, true, false, Option, some, not, ◌==◌, arith,
}
use auction_platform_backend.Outcome.Post.{Post, Post-and_then, Post-weaken}
use auction_platform_backend.Users.{UserAccount, active, local}
use auction_platform_backend.Otp.{
  Otp, OtpStatus, reset_password, set_otp_status, is_otp_blocked, is_pending,
}
use auction_platform_backend.SignIn.{SignInPlatform}
use auction_platform_backend.SignIn.Entry.{login}
use auction_platform_backend.SignIn.Accounts.{use_reset, change_password}
use auction_platform_backend.SignIn.Answers.{
  Never, Answers, For, after-passed, after-present, after-written, after-active, login-For,
}

module _ {W : Type 0} (d : SignInPlatform W) (k delay : ℕ) (account : W → Option UserAccount)
    (row : W → Option Otp) (Fits : ℕ → ℕ → Type 0) (IsValid : ℕ → W → Type 0)
    (laws : Answers d k delay account row Fits IsValid) where
  abbrev Still : W → W → Type 0
  Still w v = (account v ≡ account w) × (row v ≡ row w)

  -- What the change of a password leaves.
  abbrev Changed : UserAccount → ℕ → Unit {0} → W → Type 0
  Changed a password x v =
      (h : ℕ) × Fits password h × (account v ≡ some (record a { auth_provider = local h }))

  use_reset-Changed :
      (password : ℕ) (a : UserAccount) (o : Otp) (w : W)
      → account w ≡ some a
      → row w ≡ some o
      → a.status ≡ active
      → Post (Changed a password) Never (use_reset d o k password w)
  unfolding use_reset set_otp_status
  use_reset-Changed password a o w stored latest live =
      let C = Changed a password in
      Post-and_then (λ x v. (x ≡ a) × Still w v) C Never (d.accounts.find_by_id k w) _
        (laws.id_law a w stored)
        (λ x v (same, (acc, r)). rw (sym same) (
          after-active d k delay account row Fits IsValid laws (Changed x password) x v _
            (rw same live)
            (Post-and_then (λ h v1. Fits password h × Still v v1) (Changed x password) Never
              (d.hash_password password v) _ (laws.hash_law password v)
              (λ h v1 (fits, (acc1, r1)).
                after-written (Changed x password) (λ v2. account v2 ≡ account v1)
                  (d.otps.update o.id (set_otp_status OtpStatus.verified o) v1) _
                  (laws.update_law o (set_otp_status OtpStatus.verified o) v1 (r1 ∙ (r ∙ latest))
                    refl)
                  (λ y v2 kept.
                    after-written (Changed x password)
                      (λ v3. account v3 ≡ some (record x { auth_provider = local h }))
                      (d.accounts.save (record x { auth_provider = local h }) v2) _
                      (laws.save_law a (record x { auth_provider = local h }) v2
                        (kept ∙ (acc1 ∙ (acc ∙ stored))) (ap (λ (b : UserAccount). b.id) same))
                      (λ z v3 done_so. (h, fits, done_so)))))))

  change_password-Changed :
      (password : ℕ) (a : UserAccount) (o : Otp) (w : W)
      → account w ≡ some a
      → row w ≡ some o
      → a.status ≡ active
      → IsValid o.otp w
      → d.now w + delay ≤ o.expires_at
      → is_pending o.status ≡ true
      → is_otp_blocked o ≡ false
      → Post (Changed a password) Never (change_password d o.otp password w)
  unfolding change_password
  change_password-Changed password a o w stored latest live valid soon waits few =
      let C = Changed a password in
      Post-and_then (λ x v. (x ≡ some k) × Still w v × (d.now v ≤ d.now w + delay)) C Never
        (d.verify_token o.otp w) _ (laws.token_law o.otp w valid)
        (λ x v (named, (acc, r), clock). after-present C x k _ v _ named (
          Post-and_then (λ y v1. (y ≡ some o) × Still v v1) C Never
            (d.otps.find_recent k reset_password v) _
            (laws.row_law o v (r ∙ latest) (omega (arith, clock, soon)))
            (λ y v1 (found, (acc1, r1)). after-present C y o _ v1 _ found (
              after-passed C (is_otp_blocked o) _ v1 _ few (
                after-passed C (not (is_pending o.status)) _ v1 _ (rw waits refl) (
                  rw (same_code o.otp) (
                    use_reset-Changed password a o v1 (acc1 ∙ (acc ∙ stored)) (r1 ∙ (r ∙ latest))
                      live)))))))
    where
      same_code : (n : ℕ) → (n == n) ≡ true
      same_code n = ground arith

  -- If every service answers, then a user whose account is active and whose latest row for a new
  -- password is pending, has fewer than three wrong tokens and does not expire while its token,
  -- which is valid, is read sets the new password with the token of that row; and the password
  -- then gives a session of the account of that user.
  pub change_password-login :
      (email password : ℕ) (a : UserAccount) (o : Otp) (w : W)
      → account w ≡ some a
      → row w ≡ some o
      → d.read_email email ≡ some a.email
      → a.status ≡ active
      → IsValid o.otp w
      → d.now w + delay ≤ o.expires_at
      → o.status ≡ OtpStatus.pending
      → o.attempts < 3
      → Post
          (λ x v.
            Post
              (λ s v'. (some s.user ≡ account v) × (s.user.id ≡ a.id))
              Never
              (login d email password v))
          Never
          (change_password d o.otp password w)
  change_password-login email password a o w stored latest read live valid soon waits few =
      Post-weaken (Changed a password) Never
        (λ x v.
          Post (λ s v'. (some s.user ≡ account v) × (s.user.id ≡ a.id)) Never
            (login d email password v))
        Never (change_password d o.otp password w)
        (change_password-Changed password a o w stored latest live valid soon (rw waits refl)
          (ground arith))
        (λ x v (h, fits, now).
          Post-weaken
            (For d k delay account row Fits IsValid laws (record a { auth_provider = local h }))
            Never (λ s v'. (some s.user ≡ account v) × (s.user.id ≡ a.id)) Never
            (login d email password v)
            (login-For d k delay account row Fits IsValid laws email password h
              (record a { auth_provider = local h }) v now read live refl fits)
            (λ s v' same. (ap some same ∙ sym now, ap (λ (b : UserAccount). b.id) same))
            (λ v' q. q))
        (λ v q. q)
