-- ===== src/SignIn.antt =====
-- Signing in: src/application/usecases/auth. The services that its use cases call, with the output,
-- which carries the user and what it says of the subscription.
pub mod Entry
pub mod Accounts
pub mod Profile
pub mod Admission
pub mod Passwords
pub mod Google
pub mod Codes
pub mod Sessions
pub mod Resets
pub mod Answers
pub mod Recovery
pub mod Changes
pub mod Edits
use auction_platform_backend.Prelude.{
  ℕ, ◌+◌, ◌-◌, ◌*◌, Bool, true, false, Option, none, some, List, [], ◌∷◌, not, filter, leb, length,
  ◌==◌, ◌&&◌, ◌||◌, if◌then◌else◌,
}
use Prim.Native.String.{String}
use auction_platform_backend.Outcome.{
  Result, ok, fail, M, return, give_up, settle, settle_as, value_of, attempt, gives, gets, require,
  fail_if, or_catch, ◌>>=◌, ◌>>◌, invalid_email, invalid_email_format, invalid_auth_provider,
  not_local, invalid_password, too_many_otps, invalid_token, token_blocked, token_already_verified,
  only_local_reset, email_or_phone_exists, name_too_short, account_blocked, account_suspended,
  otp_not_found, otp_blocked, invalid_otp, otp_already_verified, user_not_found, unexpected_error,
}
use auction_platform_backend.Users.{
  UserAccount, UserRole, UserStatus, active, AuthProvider, local, google, is_blocked, is_suspended,
  AccountRepository,
}
use auction_platform_backend.Users.Names.{is_name}
use auction_platform_backend.Otp.{
  Otp, OtpPurpose, OtpChannel, OtpStatus, verify_email, reset_password, create_otp,
  increment_attempts, set_otp_status, is_otp_blocked, is_pending, max_otp_attempts,
}
use auction_platform_backend.Subscription.{UserSubscription, SubscriptionPlan}
use auction_platform_backend.Subscriptions.{
  SubscriptionPlatform, assign_default_subscription_to_user,
}

-- `IOtpRepository`.
pub record OtpRepository (W : Type 0) : Type 0 where
  pub create : Otp → M W Otp
  pub update : ℕ → Otp → M W Otp
  pub find_recent : ℕ → OtpPurpose → M W (Option Otp)
  pub find_recents : ℕ → OtpPurpose → M W (List Otp)

-- The services that these use cases call, with the regular expression of an e-mail address, which
-- gives the address in small letters.
pub record SignInPlatform (W : Type 0) : Type 0 where
  pub now : W → ℕ
  pub generate_id : W → ℕ × W
  pub generate_otp : W → ℕ × W
  pub read_email : ℕ → Option ℕ
  pub compare_password : ℕ → ℕ → M W Bool
  pub hash_password : ℕ → M W ℕ
  pub access_token : ℕ → W → ℕ × W
  pub refresh_token : ℕ → W → ℕ × W
  pub generate_token : ℕ → W → ℕ × W
  pub verify_token : ℕ → M W (Option ℕ)
  pub send_otp_email : ℕ → ℕ → OtpPurpose → M W (Unit {0})
  pub accounts : AccountRepository W
  pub otps : OtpRepository W
  pub subscriptions : SubscriptionPlatform W

-- What signing in gives: the user with the current subscription and its plan, and the tokens.
pub record Session : Type 0 where
  pub user : UserAccount
  pub subscription : Option (UserSubscription × SubscriptionPlan)
  pub access_token : ℕ
  pub refresh_token : ℕ

-- The data of `register` and of an account of Google. A phone number always passes `Phone.create`.
pub record Registration : Type 0 where
  pub name : String
  pub email : ℕ
  pub phone : ℕ
  pub password : ℕ
  pub address : Option ℕ

pub record GoogleUser : Type 0 where
  pub google_id : ℕ
  pub email : ℕ
  pub name : String

-- `User.create` for a user that is active and has one role.
unfoldable pub create_user :
    ℕ → String → ℕ → Option ℕ → Option ℕ → AuthProvider → Bool → Result UserAccount
create_user id name email phone address provider verified =
    if not (is_name name)
    then fail name_too_short
    else ok (record {
      id = id;
      name = name;
      email = email;
      phone = phone;
      address = address;
      auth_provider = provider;
      is_verified = verified;
      roles = UserRole.user ∷ [];
      status = active;
      user_fraud_level = 0;
    })

abbrev pub is_local : AuthProvider → Bool
is_local (local h) = true
is_local (google i) = false

-- `getPasswordHash`.
abbrev pub password_hash : AuthProvider → Result ℕ
password_hash (local h) = ok h
password_hash (google i) = fail not_local

abbrev pub is_ok : {A : Type 0} → Result A → Bool
is_ok (ok a) = true
is_ok (fail e) = false

-- The data of a new password that is sent by e-mail and ends after ten minutes.
unfoldable pub mailed_otp : ℕ → ℕ → OtpPurpose → ℕ → ℕ → Otp
mailed_otp id user purpose otp now = record {
  id = id;
  user_id = user;
  purpose = purpose;
  channel = OtpChannel.email;
  otp = otp;
  expires_at = now + 10 * 60 * 1000;
  max_attempts = max_otp_attempts;
  attempts = 0;
  status = OtpStatus.pending;
  created_at = now;
}

-- The pending ones of the last hour.
unfoldable pub pending_otps : ℕ → List Otp → List Otp
pending_otps now os =
    filter (λ o. is_pending o.status && leb (now - 60 * 60 * 1000) o.created_at) os

abbrev with_plan :
    UserSubscription → Option SubscriptionPlan → Option (UserSubscription × SubscriptionPlan)
with_plan s none = none
with_plan s (some p) = some (s, p)

module _ {W : Type 0} (d : SignInPlatform W) where
  open d use {
    now, generate_id, generate_otp, read_email, compare_password, hash_password, generate_token,
    verify_token, send_otp_email, accounts, otps, subscriptions,
  }

  -- The two tests that every use case makes of an account.
  unfoldable pub refuse_inactive : UserAccount → M W (Unit {0})
  refuse_inactive a = do
    fail_if (is_blocked a.status) account_blocked
    fail_if (is_suspended a.status) account_suspended

  -- What the output says of the current subscription. Every plan has a name.
  unfoldable pub describe :
      Option UserSubscription → M W (Option (UserSubscription × SubscriptionPlan))
  describe none = return none
  describe (some s) = do
    plan ← subscriptions.plans.find_by_id s.subscription_plan_id
    return (with_plan s plan)

  -- `toUserResponseDto`, with the tokens.
  unfoldable pub session : UserAccount → ℕ → ℕ → Option UserSubscription → M W Session
  session a access refresh current = do
    described ← describe current
    return (record {
      user = a;
      subscription = described;
      access_token = access;
      refresh_token = refresh;
    })
