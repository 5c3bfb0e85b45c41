-- ===== src/SignIn/Sessions.antt =====
-- Who gets in: the three use cases that give a session.
use auction_platform_backend.Prelude.{ℕ, Bool}
use auction_platform_backend.Outcome.Verdict.{Verdict, Verdict-caught}
use auction_platform_backend.Otp.{Otp, OtpPurpose}
use auction_platform_backend.SignIn.{SignInPlatform}
use auction_platform_backend.SignIn.Entry.{
  try_login, login, try_verify_credentials, verify_credentials,
}
use auction_platform_backend.SignIn.Admission.{
  Admits, Door, by_password, by_code, by_google, Any, enter, SessionLaws,
}
use auction_platform_backend.SignIn.Passwords.{try_login-Admits}
use auction_platform_backend.SignIn.Google.{google_auth-Admits}
use auction_platform_backend.SignIn.Codes.{try_verify_credentials-Admits}

module _ {W : Type 0} (d : SignInPlatform W) (owner_of : ℕ → ℕ) (matches : ℕ → ℕ → Bool)
    (Held : ℕ → OtpPurpose → Otp → Type 0) (laws : SessionLaws d owner_of matches Held) where
  -- Whoever gets a session by a password, a code or Google has an account that is neither blocked nor
  -- suspended, under the e-mail address given, and the tokens are for that account; by a password,
  -- the account is a local one and the password matches its hash; by a code, the account is verified,
  -- and the code is that of a row that was pending and had had fewer than three wrong guesses.
  pub enter-Admits :
      (door : Door) (w : W) → Verdict (Admits d owner_of matches Held door) Any (enter d door w)
  unfolding enter login verify_credentials
  enter-Admits (by_password email password) w =
      Verdict-caught (Admits d owner_of matches Held (by_password email password)) Any
        (try_login d email password w) _ tt
        (try_login-Admits d owner_of matches Held laws email password w)
  enter-Admits (by_code email code purpose) w =
      Verdict-caught (Admits d owner_of matches Held (by_code email code purpose)) Any
        (try_verify_credentials d email code purpose w) _ tt
        (try_verify_credentials-Admits d owner_of matches Held laws email code purpose w)
  enter-Admits (by_google g) w = google_auth-Admits d owner_of matches Held laws g w
