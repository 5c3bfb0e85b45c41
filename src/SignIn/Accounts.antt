-- ===== src/SignIn/Accounts.antt =====
-- Accounts and their passwords: of src/application/usecases/auth register, completeProfile,
-- sendVerificationCode, forgotPassword and changePassword.
use auction_platform_backend.Prelude.{
  ℕ, false, Option, some, not, leb, length, ◌==◌, ◌||◌, if◌then◌else◌,
}
use auction_platform_backend.Outcome.{
  M, return, give_up, settle, value_of, attempt, gives, gets, require, fail_if, or_catch, ◌>>=◌,
  ◌>>◌, invalid_email, invalid_email_format, too_many_otps, invalid_token, token_blocked,
  token_already_verified, only_local_reset, email_or_phone_exists, unexpected_error,
}
use auction_platform_backend.Users.{UserAccount, local}
use auction_platform_backend.Otp.{
  Otp, OtpStatus, verify_email, reset_password, create_otp, increment_attempts, set_otp_status,
  is_otp_blocked, is_pending,
}
use auction_platform_backend.Subscription.{UserSubscription, SubscriptionPlan}
use auction_platform_backend.Subscriptions.{assign_default_subscription_to_user}
use auction_platform_backend.SignIn.{
  SignInPlatform, Registration, create_user, is_local, is_ok, mailed_otp, pending_otps,
  refuse_inactive, describe,
}

module _ {W : Type 0} (d : SignInPlatform W) where
  open d use {
    now, generate_id, generate_otp, read_email, hash_password, generate_token, verify_token,
    send_otp_email, accounts, otps, subscriptions,
  }

  unfoldable pub try_register : Registration → M W ℕ
  try_register r = do
    address ← require (read_email r.email) invalid_email_format
    email_user ← attempt (accounts.find_by_email address)
    phone_user ← attempt (accounts.find_by_phone r.phone)
    fail_if (is_ok email_user || is_ok phone_user) email_or_phone_exists
    hash ← hash_password r.password
    id ← gives generate_id
    a ← settle (create_user id r.name address (some r.phone) r.address (local hash) false)
    otp ← gives generate_otp
    row ← gives generate_id
    at ← gets now
    o ← settle (create_otp at (mailed_otp row id verify_email otp at))
    saved ← attempt (accounts.save a)
    created ← attempt (otps.create o)
    send_otp_email address otp verify_email
    assigned ← assign_default_subscription_to_user subscriptions id
    return a.id

  -- `RegisterUserUseCase.execute`.
  unfoldable pub register : Registration → M W ℕ
  register r = or_catch (try_register r) unexpected_error

  -- `CompleteProfileUsecase.execute`.
  unfoldable pub complete_profile :
      ℕ → ℕ → ℕ → M W (UserAccount × Option (UserSubscription × SubscriptionPlan))
  complete_profile id phone address = do
    a ← accounts.find_by_id id
    saved ← attempt (accounts.save (record a { phone = some phone; address = some address }))
    current ← subscriptions.subs.find_current_active_by_user_id a.id
    described ← describe d current
    return (record a { phone = some phone; address = some address }, described)

  unfoldable pub try_send_verification_code : ℕ → M W (Unit {0})
  try_send_verification_code email = do
    address ← require (read_email email) invalid_email
    a ← accounts.find_by_email address
    refuse_inactive d a
    recents ← otps.find_recents a.id verify_email
    at ← gets now
    fail_if (leb 3 (length (pending_otps at recents))) too_many_otps
    otp ← gives generate_otp
    row ← gives generate_id
    o ← value_of (create_otp at (mailed_otp row a.id verify_email otp at))
    created ← attempt (otps.create o)
    send_otp_email address otp verify_email

  -- `SendVerificationCodeUsecase.execute`.
  unfoldable pub send_verification_code : ℕ → M W (Unit {0})
  send_verification_code email = or_catch (try_send_verification_code email) unexpected_error

  -- `ForgotPasswordUseCase.execute`.
  unfoldable pub forgot_password : ℕ → M W (Unit {0})
  forgot_password email = do
    address ← require (read_email email) invalid_email_format
    a ← accounts.find_by_email address
    fail_if (not (is_local a.auth_provider)) only_local_reset
    refuse_inactive d a
    token ← gives (generate_token a.id)
    row ← gives generate_id
    at ← gets now
    o ← settle (create_otp at (mailed_otp row a.id reset_password token at))
    created ← attempt (otps.create o)
    send_otp_email address token reset_password

  -- The rest of `changePassword`, for a row that may be used.
  unfoldable pub use_reset : Otp → ℕ → ℕ → M W (Unit {0})
  use_reset o id password = do
    a ← accounts.find_by_id id
    refuse_inactive d a
    hash ← hash_password password
    stored ← attempt (otps.update o.id (set_otp_status OtpStatus.verified o))
    saved ← attempt (accounts.save (record a { auth_provider = local hash }))
    return tt

  -- `ChangePasswordUseCase.execute`.
  unfoldable pub change_password : ℕ → ℕ → M W (Unit {0})
  change_password token password = do
    owner ← verify_token token
    id ← require owner invalid_token
    row ← otps.find_recent id reset_password
    o ← require row invalid_token
    fail_if (is_otp_blocked o) token_blocked
    fail_if (not (is_pending o.status)) token_already_verified
    if not (o.otp == token)
        then (do counted ← attempt (otps.update o.id (increment_attempts o)); give_up invalid_token)
        else use_reset o id password
