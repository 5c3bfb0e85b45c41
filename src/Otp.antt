-- ===== src/Otp.antt =====
-- One-time passwords: src/domain/entities/otp/otp.entity.ts, src/domain/policies/otp, the reads of
-- src/infrastructure/repositories/otp/prisma-otp.repo.ts, and the part of
-- src/application/usecases/auth/verifyCredentials.usecase.ts that checks a password. A password is
-- a number, since it is only compared.
pub mod Guesses
use auction_platform_backend.Prelude.{
  ℕ, ◌+◌, Bool, true, false, Option, none, some, List, [], ◌∷◌, not, ltb, leb, ◌==◌, any, filter,
  length, map, if◌then◌else◌,
}
use auction_platform_backend.Outcome.{Result, ok, fail, otp_already_expired}

pub data OtpPurpose : Type 0 where
  register login verify_phone verify_email reset_password change_profile_password edit_profile :
      OtpPurpose

pub data OtpChannel : Type 0 where
  sms email : OtpChannel

pub data OtpStatus : Type 0 where
  pending verified expired blocked : OtpStatus

pub record Otp : Type 0 where
  pub id : ℕ
  pub user_id : ℕ
  pub purpose : OtpPurpose
  pub channel : OtpChannel
  pub otp : ℕ
  pub expires_at : ℕ
  pub max_attempts : ℕ
  pub attempts : ℕ
  pub status : OtpStatus
  pub created_at : ℕ

abbrev pub max_otp_attempts : ℕ
max_otp_attempts = 3

abbrev pub is_pending : OtpStatus → Bool
is_pending pending = true
is_pending _ = false

-- `Otp.create` at a time, with the time of expiry given.
unfoldable pub create_otp : ℕ → Otp → Result Otp
create_otp now o =
    if ltb o.expires_at now
    then fail otp_already_expired
    else ok (record o { max_attempts = max_otp_attempts })

abbrev pub is_otp_blocked : Otp → Bool
is_otp_blocked o = leb 3 o.attempts

-- `isOtpExpired` at a time.
abbrev pub is_otp_expired : ℕ → Otp → Bool
is_otp_expired now o = ltb o.expires_at now

unfoldable pub increment_attempts : Otp → Otp
increment_attempts o = record o { attempts = o.attempts + 1 }

unfoldable pub set_otp_status : OtpStatus → Otp → Otp
set_otp_status s o = record o { status = s }

-- `canGenerateOtp`.
unfoldable pub can_generate_otp : List Otp → Bool
can_generate_otp os = ltb (length (filter (λ o. is_pending o.status) os)) 3

abbrev pub is_failed : Result Otp → Bool
is_failed (ok o) = false
is_failed (fail e) = true

abbrev pub value_or : Otp → Result Otp → Otp
value_or o (ok o') = o'
value_or o (fail e) = o

-- `findRecentOtpsByUserIdAndPurpose`, from the rows on: no row if one of them cannot be read.
unfoldable pub recent_otps : ℕ → List Otp → List Otp
unfolding create_otp
recent_otps now rows =
    if any (λ o. is_failed (create_otp now o)) rows
    then []
    else map (λ o. value_or o (create_otp now o)) rows

-- What `verifyCredentials` answers to a password.
pub data Answer : Type 0 where
  accepted not_found refused_blocked invalid already_verified : Answer

-- The row after an update, whose result `verifyCredentials` does not look at: the changed one if
-- the repository stored it.
abbrev pub after_update : Bool → Otp → Otp → Otp
after_update true changed o = changed
after_update false changed o = o

-- `verifyCredentials` once the latest password of the user is read: the answer and the row after,
-- given whether the repository stores the update.
unfoldable pub check_otp : ℕ → Bool → Otp → Answer × Otp
unfolding increment_attempts set_otp_status
check_otp guess stored o =
    if is_otp_blocked o
    then (refused_blocked, o)
    else if not (o.otp == guess)
    then (invalid, after_update stored (increment_attempts o) o)
    else if not (is_pending o.status)
    then (already_verified, o)
    else (accepted, after_update stored (set_otp_status verified o) o)

-- `findRecentOtpByUserIdAndPurpose` and what follows: a row that has expired is not found.
unfoldable pub verify_guess : ℕ → ℕ → Bool → Otp → Answer × Otp
unfolding create_otp check_otp
verify_guess now guess stored row = elim (create_otp now row) [
  | fail e ↦ (not_found, row)
  | ok o ↦ check_otp guess stored o
]

-- Guesses one after the other, each at its time and with whether its update is stored.
unfoldable pub guess_all : List (ℕ × ℕ × Bool) → Otp → List Answer × Otp
unfolding verify_guess
guess_all [] row = ([], row)
guess_all ((now, guess, stored) ∷ rest) row =
    let (a, row') = verify_guess now guess stored row in
    let (answers, end) = guess_all rest row' in (a ∷ answers, end)
