-- ===== src/Otp/Guesses.antt =====
-- How often a one-time password can be guessed.
use auction_platform_backend.Prelude.{
  ℕ, Bool, true, false, ◌+◌, ◌≤◌, ◌<◌, ◌≡◌, List, [], ◌∷◌, arith,
}
use auction_platform_backend.Otp.{
  Otp, OtpStatus, pending, Answer, accepted, invalid, create_otp, increment_attempts,
  set_otp_status, check_otp, verify_guess, guess_all,
}

abbrev pub wrong_of : Answer → ℕ
wrong_of invalid = 1
wrong_of _ = 0

abbrev pub right_of : Answer → ℕ
right_of accepted = 1
right_of _ = 0

abbrev pub wrong : List Answer → ℕ
wrong [] = 0
wrong (a ∷ rest) = wrong_of a + wrong rest

abbrev pub right : List Answer → ℕ
right [] = 0
right (a ∷ rest) = right_of a + right rest

-- What is left of a password: 1 while it waits, 0 afterwards.
abbrev pub uses : OtpStatus → ℕ
uses pending = 1
uses _ = 0

-- Of a count, the part whose update was not stored.
abbrev pub lost_of : Bool → ℕ → ℕ
lost_of true n = 0
lost_of false n = n

-- The answers of a kind to the guesses whose update was not stored.
abbrev pub lost : (Answer → ℕ) → List (ℕ × ℕ × Bool) → List Answer → ℕ
lost count ((now, guess, stored) ∷ rest) (a ∷ answers) =
    lost_of stored (count a) + lost count rest answers
lost count _ _ = 0

guess_step :
    (now guess : ℕ) (stored : Bool) (row : Otp)
    → row.attempts ≤ 3
    → (wrong_of (verify_guess now guess stored row).0 + row.attempts
        ≡ (verify_guess now guess stored row).1.attempts
          + lost_of stored (wrong_of (verify_guess now guess stored row).0))
      × ((verify_guess now guess stored row).1.attempts ≤ 3)
      × (right_of (verify_guess now guess stored row).0
            + uses (verify_guess now guess stored row).1.status
          ≡ uses row.status + lost_of stored (right_of (verify_guess now guess stored row).0))
unfolding verify_guess check_otp create_otp increment_attempts set_otp_status
guess_step now guess true row h = ground arith
guess_step now guess false row h = ground arith

-- Of any sequence of guesses at a password, at whatever times, those answered as wrong and the
-- attempts counted before are together the attempts counted afterwards and the wrong guesses whose
-- update the repository did not store; the attempts counted stay at 3 at most; and the guesses
-- accepted are at most one, none if the password was not pending, and those accepted whose update
-- was not stored.
pub guess_all-bound :
    (rest : List (ℕ × ℕ × Bool)) (row : Otp)
    → row.attempts ≤ 3
    → (wrong (guess_all rest row).0 + row.attempts
        ≡ (guess_all rest row).1.attempts + lost wrong_of rest (guess_all rest row).0)
      × ((guess_all rest row).1.attempts ≤ 3)
      × (right (guess_all rest row).0 ≤ uses row.status + lost right_of rest (guess_all rest row).0)
unfolding guess_all
guess_all-bound [] row h = (omega arith, h, omega arith)
guess_all-bound ((now, guess, stored) ∷ rest) row h =
    let (a, b, c) = guess_step now guess stored row h in
    let (d, e, f) = guess_all-bound rest (verify_guess now guess stored row).1 b in
    (omega (arith, a, d), e, omega (arith, c, f))

-- When a guess may be accepted.
abbrev pub MayEnter : ℕ → ℕ → Otp → Type 0
MayEnter now guess row =
    (row.otp ≡ guess) × (now ≤ row.expires_at) × (row.attempts < 3) × (row.status ≡ pending)

-- A guess is accepted exactly if it is the password, which has not expired, has been guessed wrong
-- less than three times and has not been used, whether or not the update of its row is stored.
pub verify_guess-MayEnter :
    (now guess : ℕ) (stored : Bool) (row : Otp)
    → ((verify_guess now guess stored row).0 ≡ accepted → MayEnter now guess row)
      × (MayEnter now guess row → (verify_guess now guess stored row).0 ≡ accepted)
unfolding verify_guess check_otp create_otp increment_attempts set_otp_status
verify_guess-MayEnter now guess stored row = ((λ h. ground arith), (λ h. ground arith))
