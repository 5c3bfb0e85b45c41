-- ===== src/Tests/Profile.antt =====
-- Changes of a profile at concrete inputs.
use auction_platform_backend.Prelude.{
  ℕ, ◌+◌, ◌≡◌, refl, ◌⊎◌, inl, inr, Bool, true, false, ◌==◌, arith, if◌then◌else◌,
}
use auction_platform_backend.Outcome.{M, done, failed, user_not_found}
use auction_platform_backend.Outcome.Post.{Post}
use auction_platform_backend.Users.{UserAccount, local}
use auction_platform_backend.Otp.{Otp, OtpPurpose}
use auction_platform_backend.SignIn.{SignInPlatform}
use auction_platform_backend.SignIn.Profile.{
  PasswordEdit, change_profile_password_of, try_change_profile_password, accept_password_code,
  set_password,
}
use auction_platform_backend.SignIn.Changes.{change_it, run, Stored, ProfileLaws, Makes}
use auction_platform_backend.SignIn.Edits.{run-Makes}
use auction_platform_backend.Tests.Memory.{World}
use auction_platform_backend.Tests.Samples.{evening}
use auction_platform_backend.Tests.SignIn.{door, row_cases}

abbrev find_by_number : ℕ → M World UserAccount
find_by_number i w = (if i == w.member.id then done w.member else failed user_not_found, w)

-- The table of users holds user 3.
abbrev hall : SignInPlatform World
hall = record door {
  accounts = record door.accounts {
    find_by_id = find_by_number;
    save = λ a w. (done a, if a.id == 3 then record w { member = a } else w);
  };
}

abbrev member_of : World → UserAccount
member_of w = w.member

abbrev OfUser : ℕ → OtpPurpose → Otp → Type 0
OfUser i p o = o.user_id ≡ i

abbrev fits : ℕ → ℕ → Bool
fits p h = p + 1 == h

number_cases :
    (i : ℕ) (v : UserAccount) (w : World) (b : Bool)
    → w.member ≡ v
    → (i == w.member.id) ≡ b
    → Post
        (λ a w'. (w'.member ≡ v) × Stored hall member_of 3 fits OfUser i a v)
        (λ w'. w'.member ≡ v)
        (if b then done w.member else failed user_not_found, w)
number_cases i v w true e q = (e, (ground arith, λ k. e))
number_cases i v w false e q = e

save_cases :
    (a : UserAccount) (w : World) (b : Bool)
    → (a.id == 3) ≡ b
    → ((if b then record w { member = a } else w).member ≡ w.member)
      ⊎ ((a.id ≡ 3) × ((if b then record w { member = a } else w).member ≡ a))
save_cases a w true e = inr (ground arith, refl)
save_cases a w false e = inl refl

hall-ProfileLaws : ProfileLaws hall member_of 3 fits OfUser
hall-ProfileLaws = record {
  account_law = λ i v w e. number_cases i v w (i == w.member.id) e refl;
  otp_law = λ i p v w e. (e, λ o q. (row_cases i w o q).1);
  compare_law = λ p h v w e. (e, refl);
  hash_law = λ p v w e. (e, ground arith);
  update_keeps = λ i o w. refl;
  current_keeps = λ i w. refl;
  plan_keeps = λ i w. refl;
  save_law = λ a w. save_cases a w (a.id == 3) refl;
}

abbrev new_password : PasswordEdit
new_password = record { user_id = 3; otp = 503; old_password = 32; new_password = 40 }

changed : (run hall (change_it new_password) evening).member.auth_provider ≡ local 41
unfolding run change_profile_password_of try_change_profile_password accept_password_code
    set_password
changed = refl

run-Makes_example :
    ((run hall (change_it new_password) evening).member ≡ evening.member)
    ⊎ Makes hall member_of 3 fits OfUser
        (change_it new_password)
        evening.member
        (run hall (change_it new_password) evening).member
run-Makes_example =
    run-Makes hall member_of 3 fits OfUser hall-ProfileLaws (change_it new_password) evening
