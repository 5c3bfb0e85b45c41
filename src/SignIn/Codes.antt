-- ===== src/SignIn/Codes.antt =====
-- Who gets in by a code.
use auction_platform_backend.Prelude.{
  ℕ, ◌<◌, ◌≡◌, refl, Bool, true, false, some, not, ◌==◌, arith, if◌then◌else◌,
}
use auction_platform_backend.Outcome.Verdict.{
  Verdict, Verdict-and_then, Verdict-required, Verdict-guarded, Verdict-settled_as,
  Verdict-attempted, Verdict-ignored, Verdict-any,
}
use auction_platform_backend.Users.{UserAccount, active}
use auction_platform_backend.Outcome.{fail_if}
use auction_platform_backend.Otp.{Otp, OtpPurpose, OtpStatus, is_pending}
use auction_platform_backend.SignIn.{
  SignInPlatform, Session, GoogleUser, create_user, is_local, password_hash, refuse_inactive,
  describe, session,
}
use auction_platform_backend.SignIn.Entry.{accept_code, try_verify_credentials}
use auction_platform_backend.Outcome.{
  attempt, gives, return, give_up, invalid_otp, otp_already_verified, ◌>>=◌, ◌>>◌,
}
use auction_platform_backend.Otp.{increment_attempts, set_otp_status, is_otp_blocked}
use auction_platform_backend.SignIn.Admission.{
  session-Admits, active_only, Door, by_password, by_code, by_google, Any, enter, SessionLaws,
  Shows,
}

pending_status : (s : OtpStatus) → not (is_pending s) ≡ false → s ≡ OtpStatus.pending
pending_status OtpStatus.pending e = refl
pending_status OtpStatus.verified e = absurd (cc e)
pending_status OtpStatus.expired e = absurd (cc e)
pending_status OtpStatus.blocked e = absurd (cc e)

module _ {W : Type 0} (d : SignInPlatform W) (owner_of : ℕ → ℕ) (matches : ℕ → ℕ → Bool)
    (Held : ℕ → OtpPurpose → Otp → Type 0) (laws : SessionLaws d owner_of matches Held) where
  abbrev Admits : Door → Session → Type 0
  Admits = auction_platform_backend.SignIn.Admission.Admits d owner_of matches Held

  accept_code-Shows :
      (o : Otp) (code : ℕ) (w : W)
      → Verdict (λ x. (o.otp ≡ code) × (o.status ≡ OtpStatus.pending)) Any (accept_code d o code w)
  unfolding accept_code
  accept_code-Shows o code w = go (o.otp == code) refl
    where
      Shown : Unit {0} → Type 0
      Shown x = (o.otp ≡ code) × (o.status ≡ OtpStatus.pending)

      go :
          (b : Bool)
          → (o.otp == code) ≡ b
          → Verdict Shown Any (
              (if not b
                  then (attempt (d.otps.update o.id (increment_attempts o)) >>= λ x.
                      give_up invalid_otp)
                  else (fail_if (not (is_pending o.status)) otp_already_verified
                      >> (attempt (d.otps.update o.id (set_otp_status OtpStatus.verified o))
                          >>= λ x. return tt)))
                w)
      go false e =
          Verdict-ignored Shown Any (d.otps.update o.id (increment_attempts o) w) _ (λ x w1. tt)
      go true e =
          Verdict-guarded Shown Any (not (is_pending o.status)) _ w _ (λ z. tt)
            (λ z.
              Verdict-ignored Shown Any (d.otps.update o.id (set_otp_status OtpStatus.verified o) w)
                _ (λ x w1. (ground arith, pending_status o.status z)))

  pub try_verify_credentials-Admits :
      (email code : ℕ) (purpose : OtpPurpose) (w : W)
      → Verdict
          (Admits (by_code email code purpose))
          Any
          (try_verify_credentials d email code purpose w)
  unfolding try_verify_credentials
  try_verify_credentials-Admits email code purpose w =
      let door = by_code email code purpose in
      Verdict-required (Admits door) Any (d.read_email email) _ w _ tt (λ address read.
        Verdict-attempted (Admits door) Any (λ a. a.email ≡ address)
          (d.accounts.find_by_email address w) _ (laws.email_law address w)
          (λ found w1 known. Verdict-settled_as (Admits door) Any _ found w1 _ tt (λ a q.
            active_only d owner_of matches Held laws (Admits door) a w1 _ (λ live.
              Verdict-and_then (Admits door) Any
                (λ row. (o : Otp) → row ≡ some o → Held a.id purpose o)
                (d.otps.find_recent a.id purpose w1) _ (laws.otp_law a.id purpose w1)
                (λ row w2 held. Verdict-required (Admits door) Any row _ w2 _ tt (λ o k.
                  Verdict-guarded (Admits door) Any (is_otp_blocked o) _ w2 _ (λ z. tt)
                    (λ few.
                      Verdict-and_then (Admits door) Any
                        (λ x. (o.otp ≡ code) × (o.status ≡ OtpStatus.pending))
                        (accept_code d o code w2) _ (accept_code-Shows o code w2)
                        (λ x w3 shown.
                          entered email code purpose a o w3 live (rw (known a q) read) (held o k)
                            shown (ground arith)))))))))
    where
      entered :
          (email code : ℕ) (purpose : OtpPurpose) (a : UserAccount) (o : Otp) (w3 : W)
          → a.status ≡ active
          → d.read_email email ≡ some a.email
          → Held a.id purpose o
          → (o.otp ≡ code) × (o.status ≡ OtpStatus.pending)
          → o.attempts < 3
          → Verdict (Admits (by_code email code purpose)) Any (
              (attempt (d.accounts.save (record a { is_verified = true })) >>= λ saved.
              gives (d.access_token a.id) >>= λ access. gives (d.refresh_token a.id) >>= λ refresh.
              d.subscriptions.subs.find_current_active_by_user_id a.id >>= λ current.
              session d (record a { is_verified = true }) access refresh current)
                w3)
      entered email code purpose a o w3 live read held (same, waits) few =
          let door = by_code email code purpose in
          Verdict-ignored (Admits door) Any (d.accounts.save (record a { is_verified = true }) w3) _
            (λ saved w4.
              let (access, w5) = d.access_token a.id w4 in
              let (refresh, w6) = d.refresh_token a.id w5 in
              Verdict-and_then (Admits door) Any (λ x. Unit {0})
                (d.subscriptions.subs.find_current_active_by_user_id a.id w6) _ (Verdict-any _)
                (λ current w7 y.
                  session-Admits d owner_of matches Held laws door (record a { is_verified = true })
                    access refresh current w7 live (laws.access_law a.id w4)
                    (laws.refresh_law a.id w5) (read, refl, (o, held, same, waits, few))))
