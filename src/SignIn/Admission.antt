-- ===== src/SignIn/Admission.antt =====
-- Who is let in: what a session needs, and the steps that every use case shares.
use auction_platform_backend.Prelude.{ℕ, ◌<◌, ◌≡◌, refl, Bool, true, Option, some}
use auction_platform_backend.Outcome.{Error, M, and_then}
use auction_platform_backend.Outcome.Verdict.{Verdict, Verdict-and_then, Verdict-any}
use auction_platform_backend.Users.{
  UserAccount, UserStatus, active, suspended, blocked, local, is_blocked, is_suspended,
}
use auction_platform_backend.Outcome.{fail_if, account_blocked, account_suspended}
use auction_platform_backend.Otp.{Otp, OtpPurpose, OtpStatus}
use auction_platform_backend.Subscription.{UserSubscription}
use auction_platform_backend.SignIn.{
  SignInPlatform, Session, GoogleUser, refuse_inactive, describe, session,
}
use auction_platform_backend.SignIn.Entry.{login, verify_credentials, google_auth}

pub data Door : Type 0 where
  by_password : ℕ → ℕ → Door
  by_code : ℕ → ℕ → OtpPurpose → Door
  by_google : GoogleUser → Door

abbrev pub Any : Error → Type 0
Any e = Unit {0}

module _ {W : Type 0} (d : SignInPlatform W) where
  unfoldable pub enter : Door → M W Session
  enter (by_password email password) = login d email password
  enter (by_code email code purpose) = verify_credentials d email code purpose
  enter (by_google g) = google_auth d g

-- `owner_of` reads a token, `matches` compares a password with a hash, and `Held` says which codes
-- the table may give for a user and a purpose.
module _ {W : Type 0} (d : SignInPlatform W) (owner_of : ℕ → ℕ) (matches : ℕ → ℕ → Bool)
    (Held : ℕ → OtpPurpose → Otp → Type 0) where
  pub record SessionLaws : Type 0 where
    pub access_law : (i : ℕ) (w : W) → owner_of (d.access_token i w).0 ≡ i
    pub refresh_law : (i : ℕ) (w : W) → owner_of (d.refresh_token i w).0 ≡ i
    pub email_law : (e : ℕ) (w : W) → Verdict (λ a. a.email ≡ e) Any (d.accounts.find_by_email e w)
    pub compare_law :
        (p h : ℕ) (w : W) → Verdict (λ b. b ≡ matches p h) Any (d.compare_password p h w)
    pub otp_law :
        (i : ℕ) (p : OtpPurpose) (w : W)
        → Verdict (λ row. (o : Otp) → row ≡ some o → Held i p o) Any (d.otps.find_recent i p w)

  -- What lets a user in.
  abbrev pub Shows : Door → UserAccount → Type 0
  Shows (by_password email password) a =
      (d.read_email email ≡ some a.email)
      × ((h : ℕ) × (a.auth_provider ≡ local h) × (matches password h ≡ true))
  Shows (by_code email code purpose) a =
      (d.read_email email ≡ some a.email)
      × (a.is_verified ≡ true)
      × ((o : Otp) × Held a.id purpose o
          × (o.otp ≡ code)
          × (o.status ≡ OtpStatus.pending)
          × (o.attempts < 3))
  Shows (by_google g) a = d.read_email g.email ≡ some a.email

  abbrev pub Admits : Door → Session → Type 0
  Admits door s =
      (s.user.status ≡ active)
      × (owner_of s.access_token ≡ s.user.id)
      × (owner_of s.refresh_token ≡ s.user.id)
      × Shows door s.user

  module _ (laws : SessionLaws) where
    -- The last steps of each.
    pub session-Admits :
        (door : Door) (a : UserAccount) (access refresh : ℕ) (current : Option UserSubscription)
        (w : W)
        → a.status ≡ active
        → owner_of access ≡ a.id
        → owner_of refresh ≡ a.id
        → Shows door a
        → Verdict (Admits door) Any (session d a access refresh current w)
    unfolding session
    session-Admits door a access refresh current w live x y shown =
        Verdict-and_then (Admits door) Any (λ p. Unit {0}) (describe d current w) _ (Verdict-any _)
          (λ p w1 q. (live, x, y, shown))

    pub active_only :
        {B : Type 0} (R : B → Type 0) (a : UserAccount) (w : W) (f : Unit {0} → M W B)
        → (a.status ≡ active → Verdict R Any (f tt w))
        → Verdict R Any (and_then (refuse_inactive d a w) f)
    unfolding refuse_inactive
    active_only R a w f k = go a.status refl
      where
        go :
            (s : UserStatus)
            → a.status ≡ s
            → Verdict R Any (
                and_then
                  (and_then
                    (fail_if (is_blocked s) account_blocked w)
                    (λ x. fail_if (is_suspended s) account_suspended))
                  f)
        go active e = k e
        go suspended e = tt
        go blocked e = tt
