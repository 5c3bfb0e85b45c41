-- ===== src/Tests/SignIn.antt =====
-- Signing in at concrete inputs.
use auction_platform_backend.Prelude.{
  ℕ, ◌+◌, ◌-◌, ◌≤◌, ◌≡◌, ◌∙◌, ap, refl, sym, Bool, true, false, Option, none, some, List, [], ◌∷◌,
  ◌==◌, ltb, arith, if◌then◌else◌,
}
use auction_platform_backend.Outcome.{Outcome, M, done, failed, user_not_found, otp_not_found}
use auction_platform_backend.Outcome.Verdict.{Verdict}
use auction_platform_backend.Users.{UserAccount}
use auction_platform_backend.Otp.{Otp}
use auction_platform_backend.SignIn.{SignInPlatform}
use auction_platform_backend.SignIn.Admission.{Any, Admits, SessionLaws, by_password, enter}
use auction_platform_backend.SignIn.Sessions.{enter-Admits}
use auction_platform_backend.SignIn.Resets.{
  ResetLaws, change_all, open_resets, change_all-AtMostOne,
}
use auction_platform_backend.Outcome.Post.{Post}
use auction_platform_backend.SignIn.Entry.{login}
use auction_platform_backend.SignIn.Accounts.{change_password}
use auction_platform_backend.SignIn.Answers.{Never, Answers}
use auction_platform_backend.SignIn.Recovery.{change_password-login}
use auction_platform_backend.Tests.Memory.{World}
use auction_platform_backend.Tests.Samples.{evening, cleo, code_of_cleo}
use auction_platform_backend.Tests.Subscriptions.{desk}

abbrev find_member : ℕ → M World UserAccount
find_member e w = (if e == w.member.email then done w.member else failed user_not_found, w)

abbrev pub find_row : ℕ → World → Option Otp
find_row i w = if i == w.code_row.user_id then some w.code_row else none

abbrev pub door : SignInPlatform World
door = record {
  now = λ w. w.clock;
  generate_id = λ w. (w.next_id, record w { next_id = w.next_id + 1 });
  generate_otp = λ w. (4711, w);
  read_email = λ e. if ltb e 100 then some e else none;
  compare_password = λ p h w. (done (p + 1 == h), w);
  hash_password = λ p w. (done (p + 1), w);
  access_token = λ i w. (i + 1000, w);
  refresh_token = λ i w. (i + 1000, w);
  generate_token = λ i w. (i + 500, w);
  verify_token = λ t w. (done (some (t - 500)), w);
  send_otp_email = λ e o p w. (done tt, w);
  accounts = record {
    find_by_id = λ i w. (done w.member, w);
    find_by_email = find_member;
    find_by_phone = λ i w. (failed user_not_found, w);
    save = λ a w. (done a, record w { member = a });
  };
  otps = record {
    create = λ o w. (done o, record w { code_row = o });
    update = λ i o w. (done o, record w { code_row = o });
    find_recent = λ i p w. (done (find_row i w), w);
    find_recents = λ i p w. (done (w.code_row ∷ []), w);
  };
  subscriptions = desk;
}

member_law : (e : ℕ) (w : World) → Verdict (λ a. a.email ≡ e) Any (find_member e w)
member_law e w = go (e == w.member.email) refl
  where
    go :
        (b : Bool)
        → (e == w.member.email) ≡ b
        → Verdict (λ a. a.email ≡ e) Any (if b then done w.member else failed user_not_found, w)
    go true q = ground arith
    go false q = tt

pub row_cases :
    (i : ℕ) (w : World) (o : Otp) → find_row i w ≡ some o → (w.code_row ≡ o) × (o.user_id ≡ i)
row_cases i w o = go (i == w.code_row.user_id) refl
  where
    go :
        (b : Bool)
        → (i == w.code_row.user_id) ≡ b
        → ◌≡◌ {A = Option Otp} (if b then some w.code_row else none) (some o)
        → (w.code_row ≡ o) × (o.user_id ≡ i)
    go true q e =
        let same : w.code_row ≡ o = cc in
        let h : i ≡ w.code_row.user_id = ground arith in (same, rw (sym same) (sym h))
    go false q e = absurd (cc e)

door-SessionLaws : SessionLaws door (λ t. t - 1000) (λ p h. p + 1 == h) (λ i p o. o.user_id ≡ i)
door-SessionLaws = record {
  access_law = λ i w. omega arith;
  refresh_law = λ i w. omega arith;
  email_law = member_law;
  compare_law = λ p h w. refl;
  otp_law = λ i p w o e. (row_cases i w o e).1;
}

door-ResetLaws : ResetLaws door (λ w. some w.code_row) 3 (λ t. t - 500)
door-ResetLaws = record {
  token_law = λ t v w e. (e, λ i q. cc);
  find_law = λ v w e. (e, λ x q. sym e ∙ rw (row_cases 3 w x q).0 refl);
  account_law = λ i v w e. (e, tt);
  hash_law = λ p v w e. (e, tt);
  save_keeps = λ a w. refl;
  update_law = λ o x w e q. refl;
}

enter-Admits_example :
    Verdict
      (Admits door (λ t. t - 1000) (λ p h. p + 1 == h) (λ i p o. o.user_id ≡ i) (by_password 31 32))
      Any
      (enter door (by_password 31 32) evening)
enter-Admits_example =
    enter-Admits door (λ t. t - 1000) (λ p h. p + 1 == h) (λ i p o. o.user_id ≡ i) door-SessionLaws
      (by_password 31 32) evening

-- The token twice.
abbrev calls : List (ℕ × ℕ)
calls = (503, 40) ∷ (503, 50) ∷ []

change_all-AtMostOne_example :
    (change_all door calls evening).0 ≤ open_resets (some evening.code_row)
change_all-AtMostOne_example =
    change_all-AtMostOne door (λ w. some w.code_row) 3 (λ t. t - 500) door-ResetLaws calls evening
      (refl, (refl, tt))

-- The rows of a user.
abbrev account_of : World → Option UserAccount
account_of w = if w.member.id == 3 then some w.member else none

abbrev code_of : ℕ → World → Option Otp
code_of i w = if w.code_row.user_id == i then some w.code_row else none

-- The same services with the rows told apart by their identifiers and a code that expires.
abbrev unexpired : ℕ → Option Otp → Option Otp
unexpired now none = none
unexpired now (some o) = if ltb o.expires_at now then none else some o

abbrev reply : Bool → World → Outcome UserAccount × World
reply t w = (if t then done w.member else failed user_not_found, w)

abbrev lodge : SignInPlatform World
lodge = record door {
  accounts = record door.accounts {
    find_by_id = λ i w. reply (w.member.id == i) w;
    save = λ a w.
        if a.id == w.member.id
        then (done a, record w { member = a })
        else (failed user_not_found, w);
  };
  otps = record door.otps {
    find_recent = λ i p w. (done (unexpired w.clock (code_of i w)), w);
    update = λ i o w.
        if w.code_row.id == i
        then (done o, record w { code_row = o })
        else (failed otp_not_found, w);
  };
}

abbrev Fits : ℕ → ℕ → Type 0
Fits p h = p + 1 ≡ h

-- The token of user 3.
abbrev IsValid : ℕ → World → Type 0
IsValid t w = t ≡ 503

member_row :
    (m a : UserAccount) (t : Bool) → (if t then some m else none) ≡ some a → (t ≡ true) × (m ≡ a)
member_row m a true e = (refl, cc)
member_row m a false e = cc

code_row_of : (m o : Otp) (t : Bool) → (if t then some m else none) ≡ some o → (t ≡ true) × (m ≡ o)
code_row_of m o true e = (refl, cc)
code_row_of m o false e = cc

same_number : (n : ℕ) → (n == n) ≡ true
same_number n = ground arith

lodge_row :
    (o : Otp) (w : World)
    → code_of 3 w ≡ some o
    → w.clock ≤ o.expires_at
    → unexpired w.clock (code_of 3 w) ≡ some o
lodge_row o w e h =
    rw e (let open_yet : ltb o.expires_at w.clock ≡ false = ground arith in rw open_yet refl)

-- The rows of user 3 are as they were.
abbrev Kept : World → World → Type 0
Kept w v = (account_of v ≡ account_of w) × (code_of 3 v ≡ code_of 3 w)

lodge_id :
    (a : UserAccount) (w : World) (t : Bool)
    → (if t then some w.member else none) ≡ some a
    → Post (λ x v. (x ≡ a) × Kept w v) Never (reply t w)
lodge_id a w true e = (cc, (refl, refl))
lodge_id a w false e = cc

lodge_email :
    (a : UserAccount) (w : World)
    → w.member ≡ a
    → Post (λ x v. (x ≡ a) × Kept w v) Never (find_member a.email w)
lodge_email a w e =
    let same : (a.email == w.member.email) ≡ true =
      rw (ap (λ (x : UserAccount). x.email) e) (same_number a.email) in
    rw same (e, (refl, refl))

lodge_update :
    (o o' : Otp) (w : World)
    → w.code_row ≡ o
    → o'.id ≡ o.id
    → Post (λ x v. account_of v ≡ account_of w) Never (lodge.otps.update o'.id o' w)
lodge_update o o' w e i =
    let same : (w.code_row.id == o'.id) ≡ true =
      rw (i, ap (λ (x : Otp). x.id) e) (same_number o.id) in
    rw same refl

lodge_save :
    (a a' : UserAccount) (w : World)
    → (w.member.id == 3) ≡ true
    → w.member ≡ a
    → a'.id ≡ a.id
    → Post (λ x v. account_of v ≡ some a') Never (lodge.accounts.save a' w)
lodge_save a a' w three e i =
    let own : a'.id ≡ w.member.id = i ∙ ap (λ (x : UserAccount). x.id) (sym e) in
    let test : (a'.id == w.member.id) ≡ true = rw own (same_number w.member.id) in
    let here : (a'.id == 3) ≡ true = rw own three in rw test (rw here refl)

lodge_assigned : (w : World) → Post (λ c v. Unit {0}) Never (desk.plans.find_active_default w)
lodge_assigned w = tt

lodge-Answers : Answers lodge 3 1000 account_of (code_of 3) Fits IsValid
lodge-Answers = record {
  token_law = λ t w e. rw e (refl, (refl, refl), omega arith);
  row_law = λ o w e h. (lodge_row o w e h, (refl, refl));
  id_law = λ a w e. lodge_id a w (w.member.id == 3) e;
  email_law = λ a w e. lodge_email a w (member_row w.member a (w.member.id == 3) e).1;
  hash_law = λ p w. (refl, (refl, refl));
  compare_law = λ p h w fits. ground arith;
  update_law =
      λ o o' w e i. lodge_update o o' w (code_row_of w.code_row o (w.code_row.user_id == 3) e).1 i;
  save_law = λ a a' w e i.
      let (three, same) = member_row w.member a (w.member.id == 3) e in
      lodge_save a a' w three same i;
  current_law = λ i w. tt;
  default_law = lodge_assigned;
  save_plan_law = λ s w. tt;
  plan_law = λ i w. tt;
}

change_password-login_example :
    Post
      (λ x v.
        Post (λ s v'. (some s.user ≡ account_of v) × (s.user.id ≡ 3)) Never (login lodge 31 50 v))
      Never
      (change_password lodge 503 50 evening)
change_password-login_example =
    change_password-login lodge 3 1000 account_of (code_of 3) Fits IsValid lodge-Answers 31 50 cleo
      code_of_cleo evening refl refl refl refl refl (omega arith) refl (omega arith)

-- Another user is not found there.
stranger_run : (lodge.accounts.find_by_id 4 evening).0 ≡ failed user_not_found
stranger_run = refl
