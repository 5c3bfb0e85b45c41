-- ===== src/Tests/Otp.antt =====
-- One-time passwords at concrete inputs.
use auction_platform_backend.Prelude.{
  ℕ, Bool, true, false, ◌+◌, ◌≤◌, ◌≡◌, refl, List, [], ◌∷◌, arith,
}
use auction_platform_backend.Otp.{
  Otp, pending, login, email, accepted, invalid, refused_blocked, verify_guess, guess_all,
  check_otp, create_otp, increment_attempts, set_otp_status,
}
use auction_platform_backend.Otp.Guesses.{
  wrong, right, wrong_of, right_of, lost, uses, MayEnter, guess_all-bound, verify_guess-MayEnter,
}

abbrev fresh : Otp
fresh = record {
  id = 1;
  user_id = 2;
  purpose = login;
  channel = email;
  otp = 123456;
  expires_at = 600000;
  max_attempts = 3;
  attempts = 0;
  status = pending;
  created_at = 0;
}

-- Four wrong guesses, of which one is not counted, then the right one.
abbrev guesses : List (ℕ × ℕ × Bool)
guesses =
    (1000, 111111, true)
    ∷ (1500, 111112, false)
    ∷ (2000, 222222, true)
    ∷ (3000, 333333, true)
    ∷ (4000, 123456, true)
    ∷ []

guess_all-bound_example :
    (wrong (guess_all guesses fresh).0 + fresh.attempts
      ≡ (guess_all guesses fresh).1.attempts + lost wrong_of guesses (guess_all guesses fresh).0)
    × ((guess_all guesses fresh).1.attempts ≤ 3)
    × (right (guess_all guesses fresh).0
        ≤ uses fresh.status + lost right_of guesses (guess_all guesses fresh).0)
guess_all-bound_example = guess_all-bound guesses fresh (omega arith)

guesses_run :
    (guess_all guesses fresh).0 ≡ invalid ∷ invalid ∷ invalid ∷ invalid ∷ refused_blocked ∷ []
unfolding guess_all verify_guess check_otp create_otp increment_attempts set_otp_status
guesses_run = refl

verify_guess-MayEnter_example :
    ((verify_guess 1000 123456 true fresh).0 ≡ accepted → MayEnter 1000 123456 fresh)
    × (MayEnter 1000 123456 fresh → (verify_guess 1000 123456 true fresh).0 ≡ accepted)
verify_guess-MayEnter_example = verify_guess-MayEnter 1000 123456 true fresh
