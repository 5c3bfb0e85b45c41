-- ===== src/SignIn/Profile.antt =====
-- Profiles and their codes: of src/application/usecases/user editProfile, changeProfilePassword and
-- sendProfileChangePassword, and src/application/usecases/otp/send-otp.usecase.ts. A hash is never
-- empty, and the templates of the e-mails are left out.
use auction_platform_backend.Prelude.{ℕ, Option, some, not, ◌==◌, ◌||◌, if◌then◌else◌}
use Prim.Native.String.{String}
use auction_platform_backend.Outcome.{
  M, return, give_up, settle, attempt, gives, gets, require, fail_if, or_catch, ◌>>=◌, ◌>>◌,
  invalid_email_format, invalid_otp, unexpected_error, no_otp_found, otp_expired,
  otp_expired_ask_again, otp_blocked_ask_again, wrong_otp, invalid_old_password, same_password,
  too_many_otps_sent,
}
use auction_platform_backend.Users.{UserAccount, local}
use auction_platform_backend.Otp.{
  Otp, OtpStatus, OtpPurpose, OtpChannel, change_profile_password, edit_profile, create_otp,
  increment_attempts, set_otp_status, is_otp_blocked, is_otp_expired, can_generate_otp,
}
use auction_platform_backend.Subscription.{UserSubscription, SubscriptionPlan}
use auction_platform_backend.SignIn.{
  SignInPlatform, mailed_otp, password_hash, refuse_inactive, describe,
}

pub record ProfileEdit : Type 0 where
  pub user_id : ℕ
  pub otp : ℕ
  pub name : String
  pub email : ℕ
  pub phone : ℕ
  pub address : ℕ

pub record PasswordEdit : Type 0 where
  pub user_id : ℕ
  pub otp : ℕ
  pub old_password : ℕ
  pub new_password : ℕ

-- `setName`, `setEmail`, `setPhone` and `setAddress` one after the other.
unfoldable pub edited : ProfileEdit → ℕ → UserAccount → UserAccount
edited e address a = record a {
  name = e.name;
  email = address;
  phone = some e.phone;
  address = some e.address;
}

module _ {W : Type 0} (d : SignInPlatform W) where
  open d use {
    now, generate_id, generate_otp, read_email, compare_password, hash_password, send_otp_email,
    accounts, otps, subscriptions,
  }

  -- The wrong code is counted, and the row stays.
  unfoldable pub accept_edit_code : Otp → ℕ → M W (Unit {0})
  accept_edit_code o code =
      if not (o.otp == code)
      then (do counted ← attempt (otps.update o.id (increment_attempts o)); give_up invalid_otp)
      else return tt

  -- The rest of `editProfile`, once the code is accepted.
  unfoldable pub store_edit :
      ProfileEdit → UserAccount → M W (UserAccount × Option (UserSubscription × SubscriptionPlan))
  store_edit e a = do
    address ← require (read_email e.email) invalid_email_format
    saved ← attempt (accounts.save (edited e address a))
    current ← subscriptions.subs.find_current_active_by_user_id a.id
    described ← describe d current
    return (edited e address a, described)

  unfoldable pub try_edit_profile :
      ProfileEdit → M W (UserAccount × Option (UserSubscription × SubscriptionPlan))
  try_edit_profile e = do
    a ← accounts.find_by_id e.user_id
    row ← otps.find_recent a.id edit_profile
    o ← require row no_otp_found
    at ← gets now
    fail_if (is_otp_expired at o || is_otp_blocked o) otp_expired
    accept_edit_code o e.otp
    store_edit e a

  -- `EditProfileUseCase.execute`.
  unfoldable pub edit_profile_of :
      ProfileEdit → M W (UserAccount × Option (UserSubscription × SubscriptionPlan))
  edit_profile_of e = or_catch (try_edit_profile e) unexpected_error

  -- The tests of the code for a new password. A row that is refused is marked.
  unfoldable pub accept_password_code : Otp → ℕ → M W (Unit {0})
  accept_password_code o code = do
    at ← gets now
    if is_otp_expired at o
        then (do
          stored ← attempt (otps.update o.id (set_otp_status OtpStatus.expired o))
          give_up otp_expired_ask_again)
        else if is_otp_blocked o
        then (do
          stored ← attempt (otps.update o.id (set_otp_status OtpStatus.blocked o))
          give_up otp_blocked_ask_again)
        else if not (o.otp == code)
        then (do counted ← attempt (otps.update o.id (increment_attempts o)); give_up wrong_otp)
        else return tt

  -- The rest of `changeProfilePassword`, once the code is accepted.
  unfoldable pub set_password : PasswordEdit → UserAccount → M W UserAccount
  set_password c a = do
    hash ← settle (password_hash a.auth_provider)
    matches ← compare_password c.old_password hash
    fail_if (not matches) invalid_old_password
    fail_if (c.old_password == c.new_password) same_password
    new_hash ← hash_password c.new_password
    saved ← attempt (accounts.save (record a { auth_provider = local new_hash }))
    return (record a { auth_provider = local new_hash })

  unfoldable pub try_change_profile_password : PasswordEdit → M W UserAccount
  try_change_profile_password c = do
    a ← accounts.find_by_id c.user_id
    row ← otps.find_recent c.user_id change_profile_password
    o ← require row invalid_otp
    accept_password_code o c.otp
    set_password c a

  -- `ChangeProfilePasswordUseCase.execute`.
  unfoldable pub change_profile_password_of : PasswordEdit → M W UserAccount
  change_profile_password_of c = or_catch (try_change_profile_password c) unexpected_error

  unfoldable pub try_send_profile_code : ℕ → M W (Unit {0})
  try_send_profile_code user = do
    a ← accounts.find_by_id user
    otp ← gives generate_otp
    row ← gives generate_id
    at ← gets now
    o ← settle (create_otp at (mailed_otp row user change_profile_password otp at))
    created ← attempt (otps.create o)
    send_otp_email a.email otp change_profile_password

  -- `SendProfileChangePasswordOtpUsecase.execute`.
  unfoldable pub send_profile_code : ℕ → M W (Unit {0})
  send_profile_code user = or_catch (try_send_profile_code user) unexpected_error

  unfoldable pub try_send_otp : ℕ → OtpPurpose → OtpChannel → M W (Unit {0})
  try_send_otp email purpose channel = do
    address ← require (read_email email) invalid_email_format
    a ← accounts.find_by_email address
    refuse_inactive d a
    recents ← otps.find_recents a.id purpose
    fail_if (not (can_generate_otp recents)) too_many_otps_sent
    otp ← gives generate_otp
    row ← gives generate_id
    at ← gets now
    o ← settle (create_otp at (record (mailed_otp row a.id purpose otp at) { channel = channel }))
    created ← attempt (otps.create o)
    send_otp_email a.email otp purpose

  -- `SendOtpUseCase.execute`.
  unfoldable pub send_otp : ℕ → OtpPurpose → OtpChannel → M W (Unit {0})
  send_otp email purpose channel = or_catch (try_send_otp email purpose channel) unexpected_error
