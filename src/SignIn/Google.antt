-- ===== src/SignIn/Google.antt =====
-- Who gets in by an account of Google.
use auction_platform_backend.Prelude.{
  ℕ, ◌≡◌, refl, sym, Bool, true, false, Option, none, some, [], ◌∷◌, not, if◌then◌else◌,
}
use auction_platform_backend.Outcome.{Result, ok, fail}
use auction_platform_backend.Outcome.Verdict.{
  Verdict, Verdict-and_then, Verdict-required, Verdict-settled, Verdict-attempted, Verdict-ignored,
  Verdict-any,
}
use auction_platform_backend.Users.{UserAccount, active, AuthProvider, google}
use auction_platform_backend.Otp.{Otp, OtpPurpose}
use auction_platform_backend.Subscriptions.{assign_default_subscription_to_user}
use auction_platform_backend.SignIn.{
  SignInPlatform, Session, GoogleUser, create_user, is_local, password_hash, refuse_inactive,
  describe, session,
}
use auction_platform_backend.SignIn.Entry.{google_known, google_new, google_either, google_auth}
use Prim.Native.String.{String}
use auction_platform_backend.Outcome.{name_too_short}
use auction_platform_backend.Users.{UserRole}
use auction_platform_backend.Users.Names.{is_name}
use auction_platform_backend.SignIn.Admission.{
  session-Admits, active_only, Door, by_password, by_code, by_google, Any, enter, SessionLaws,
  Shows,
}

-- A new account is active and has the address that it was created with.
created_account :
    (id : ℕ) (name : String) (email : ℕ) (phone address : Option ℕ) (p : AuthProvider) (v : Bool)
    (a : UserAccount)
    → create_user id name email phone address p v ≡ ok a
    → (a.status ≡ active) × (a.email ≡ email)
unfolding create_user
created_account id name email phone address p v a e = go (is_name name) e
  where
    made : UserAccount
    made = record {
      id = id;
      name = name;
      email = email;
      phone = phone;
      address = address;
      auth_provider = p;
      is_verified = v;
      roles = UserRole.user ∷ [];
      status = active;
      user_fraud_level = 0;
    }

    go :
        (b : Bool)
        → (if not b then fail name_too_short else ok made) ≡ ok a
        → (a.status ≡ active) × (a.email ≡ email)
    go true e = let same : made ≡ a = cc in rw (sym same) (refl, refl)
    go false e = absurd (cc e)

module _ {W : Type 0} (d : SignInPlatform W) (owner_of : ℕ → ℕ) (matches : ℕ → ℕ → Bool)
    (Held : ℕ → OtpPurpose → Otp → Type 0) (laws : SessionLaws d owner_of matches Held) where
  abbrev Admits : Door → Session → Type 0
  Admits = auction_platform_backend.SignIn.Admission.Admits d owner_of matches Held

  google_known-Admits :
      (g : GoogleUser) (a : UserAccount) (w : W)
      → d.read_email g.email ≡ some a.email
      → Verdict (Admits (by_google g)) Any (google_known d a w)
  unfolding google_known
  google_known-Admits g a w shown =
      let door = by_google g in
      active_only d owner_of matches Held laws (Admits door) a w _ (λ live.
        let (access, w1) = d.access_token a.id w in
        let (refresh, w2) = d.refresh_token a.id w1 in
        Verdict-and_then (Admits door) Any (λ x. Unit {0})
          (assign_default_subscription_to_user d.subscriptions a.id w2) _ (Verdict-any _)
          (λ given w3 y.
            Verdict-and_then (Admits door) Any (λ x. Unit {0})
              (d.subscriptions.subs.find_current_active_by_user_id a.id w3) _ (Verdict-any _)
              (λ current w4 y'.
                session-Admits d owner_of matches Held laws door a access refresh current w4 live
                  (laws.access_law a.id w) (laws.refresh_law a.id w1) shown)))

  google_new-Admits :
      (g : GoogleUser) (address : ℕ) (w : W)
      → d.read_email g.email ≡ some address
      → Verdict (Admits (by_google g)) Any (google_new d g address w)
  unfolding google_new
  google_new-Admits g address w shown =
      let door = by_google g in
      let (id, w1) = d.generate_id w in
      Verdict-settled (Admits door) Any
        (create_user id g.name address none none (google g.google_id) true) w1 _ (λ e. tt)
        (λ a made.
          let (live, same) =
            created_account id g.name address none none (google g.google_id) true a made in
          Verdict-ignored (Admits door) Any (d.accounts.save a w1) _ (λ x w2.
            Verdict-and_then (Admits door) Any (λ x. Unit {0})
              (assign_default_subscription_to_user d.subscriptions id w2) _ (Verdict-any _)
              (λ given w3 y.
                let (access, w4) = d.access_token a.id w3 in
                let (refresh, w5) = d.refresh_token a.id w4 in
                Verdict-and_then (Admits door) Any (λ x. Unit {0})
                  (d.subscriptions.subs.find_current_active_by_user_id a.id w5) _ (Verdict-any _)
                  (λ current w6 y'.
                    session-Admits d owner_of matches Held laws door a access refresh current w6
                      live (laws.access_law a.id w3) (laws.refresh_law a.id w4) (rw same shown)))))

  pub google_auth-Admits :
      (g : GoogleUser) (w : W) → Verdict (Admits (by_google g)) Any (google_auth d g w)
  unfolding google_auth google_either
  google_auth-Admits g w =
      let door = by_google g in
      Verdict-required (Admits door) Any (d.read_email g.email) _ w _ tt (λ address read.
        Verdict-attempted (Admits door) Any (λ a. a.email ≡ address)
          (d.accounts.find_by_email address w) _ (laws.email_law address w)
          (λ found w1 known. go address read found w1 known))
    where
      go :
          (address : ℕ)
          → d.read_email g.email ≡ some address
          → (found : Result UserAccount) (w1 : W)
          → ((a : UserAccount) → found ≡ ok a → a.email ≡ address)
          → Verdict (Admits (by_google g)) Any (google_either d g address found w1)
      go address read (ok a) w1 known = google_known-Admits g a w1 (rw (known a refl) read)
      go address read (fail e) w1 known = google_new-Admits g address w1 read
