-- ===== src/SignIn/Entry.antt =====
-- Getting a session: login, verifyCredentials and googleAuth of src/application/usecases/auth.
use auction_platform_backend.Prelude.{ℕ, true, none, not, ◌==◌, if◌then◌else◌}
use auction_platform_backend.Outcome.{
  Result, ok, fail, M, return, give_up, settle, settle_as, attempt, gives, require, fail_if,
  or_catch, ◌>>=◌, ◌>>◌, invalid_email, invalid_email_format, invalid_auth_provider,
  invalid_password, otp_not_found, otp_blocked, invalid_otp, otp_already_verified, user_not_found,
  unexpected_error,
}
use auction_platform_backend.Users.{UserAccount, google}
use auction_platform_backend.Otp.{
  Otp, OtpPurpose, OtpStatus, increment_attempts, set_otp_status, is_otp_blocked, is_pending,
}
use auction_platform_backend.Subscriptions.{assign_default_subscription_to_user}
use auction_platform_backend.SignIn.{
  SignInPlatform, Session, GoogleUser, create_user, is_local, password_hash, refuse_inactive,
  session,
}

module _ {W : Type 0} (d : SignInPlatform W) where
  open d use {
    now, generate_id, generate_otp, read_email, compare_password, hash_password, generate_token,
    verify_token, send_otp_email, accounts, otps, subscriptions,
  }

  unfoldable pub try_login : ℕ → ℕ → M W Session
  try_login email password = do
    address ← require (read_email email) invalid_email
    a ← accounts.find_by_email address
    fail_if (not (is_local a.auth_provider)) invalid_auth_provider
    hash ← settle (password_hash a.auth_provider)
    matches ← compare_password password hash
    fail_if (not matches) invalid_password
    refuse_inactive d a
    access ← gives (d.access_token a.id)
    refresh ← gives (d.refresh_token a.id)
    current ← subscriptions.subs.find_current_active_by_user_id a.id
    assigned ← assign_default_subscription_to_user subscriptions a.id
    session d a access refresh current

  -- `LoginUserUseCase.execute`.
  unfoldable pub login : ℕ → ℕ → M W Session
  login email password = or_catch (try_login email password) unexpected_error

  -- The test of the code in `verifyCredentials`, which counts a wrong one.
  unfoldable pub accept_code : Otp → ℕ → M W (Unit {0})
  accept_code o code =
      if not (o.otp == code)
      then (do counted ← attempt (otps.update o.id (increment_attempts o)); give_up invalid_otp)
      else do
        fail_if (not (is_pending o.status)) otp_already_verified
        stored ← attempt (otps.update o.id (set_otp_status OtpStatus.verified o))
        return tt

  unfoldable pub try_verify_credentials : ℕ → ℕ → OtpPurpose → M W Session
  try_verify_credentials email code purpose = do
    address ← require (read_email email) invalid_email
    found ← attempt (accounts.find_by_email address)
    a ← settle_as user_not_found found
    refuse_inactive d a
    row ← otps.find_recent a.id purpose
    o ← require row otp_not_found
    fail_if (is_otp_blocked o) otp_blocked
    accept_code o code
    saved ← attempt (accounts.save (record a { is_verified = true }))
    access ← gives (d.access_token a.id)
    refresh ← gives (d.refresh_token a.id)
    current ← subscriptions.subs.find_current_active_by_user_id a.id
    session d (record a { is_verified = true }) access refresh current

  -- `VerifyCredentialsUseCase.execute`.
  unfoldable pub verify_credentials : ℕ → ℕ → OtpPurpose → M W Session
  verify_credentials email code purpose =
      or_catch (try_verify_credentials email code purpose) unexpected_error

  -- The rest of `googleAuth` for a user that has an account.
  unfoldable pub google_known : UserAccount → M W Session
  google_known a = do
    refuse_inactive d a
    access ← gives (d.access_token a.id)
    refresh ← gives (d.refresh_token a.id)
    assigned ← assign_default_subscription_to_user subscriptions a.id
    current ← subscriptions.subs.find_current_active_by_user_id a.id
    session d a access refresh current

  -- The rest of `googleAuth` for one that has none.
  unfoldable pub google_new : GoogleUser → ℕ → M W Session
  google_new g address = do
    id ← gives generate_id
    a ← settle (create_user id g.name address none none (google g.google_id) true)
    saved ← attempt (accounts.save a)
    assigned ← assign_default_subscription_to_user subscriptions id
    access ← gives (d.access_token a.id)
    refresh ← gives (d.refresh_token a.id)
    current ← subscriptions.subs.find_current_active_by_user_id a.id
    session d a access refresh current

  unfoldable pub google_either : GoogleUser → ℕ → Result UserAccount → M W Session
  google_either g address (ok a) = google_known a
  google_either g address (fail e) = google_new g address

  -- `GoogleAuthUsecase.execute`.
  unfoldable pub google_auth : GoogleUser → M W Session
  google_auth g = do
    address ← require (read_email g.email) invalid_email_format
    found ← attempt (accounts.find_by_email address)
    google_either g address found
