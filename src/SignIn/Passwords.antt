-- ===== src/SignIn/Passwords.antt =====
-- Who gets in by a password.
use auction_platform_backend.Prelude.{ℕ, ◌≡◌, refl, sym, Bool, true, false, ◌∙◌, not}
use auction_platform_backend.Outcome.{ok}
use auction_platform_backend.Outcome.Verdict.{
  Verdict, Verdict-and_then, Verdict-required, Verdict-guarded, Verdict-settled, Verdict-any,
}
use auction_platform_backend.Users.{AuthProvider, local, google}
use auction_platform_backend.Otp.{Otp, OtpPurpose}
use auction_platform_backend.Subscriptions.{assign_default_subscription_to_user}
use auction_platform_backend.SignIn.{
  SignInPlatform, Session, GoogleUser, create_user, is_local, password_hash, refuse_inactive,
  describe, session,
}
use auction_platform_backend.SignIn.Entry.{try_login}
use auction_platform_backend.SignIn.Admission.{
  session-Admits, active_only, Door, by_password, by_code, by_google, Any, enter, SessionLaws,
  Shows,
}

kept_test : (b : Bool) → not b ≡ false → b ≡ true
kept_test true e = refl
kept_test false e = absurd (cc e)

-- The hash of a local account.
hash_of : (p : AuthProvider) (h : ℕ) → password_hash p ≡ ok h → p ≡ local h
hash_of (local x) h e = let same : x ≡ h = cc in rw same refl
hash_of (google x) h e = absurd (cc e)

module _ {W : Type 0} (d : SignInPlatform W) (owner_of : ℕ → ℕ) (matches : ℕ → ℕ → Bool)
    (Held : ℕ → OtpPurpose → Otp → Type 0) (laws : SessionLaws d owner_of matches Held) where
  abbrev Admits : Door → Session → Type 0
  Admits = auction_platform_backend.SignIn.Admission.Admits d owner_of matches Held

  pub try_login-Admits :
      (email password : ℕ) (w : W)
      → Verdict (Admits (by_password email password)) Any (try_login d email password w)
  unfolding try_login
  try_login-Admits email password w =
      let door = by_password email password in
      Verdict-required (Admits door) Any (d.read_email email) _ w _ tt (λ address read.
        Verdict-and_then (Admits door) Any (λ a. a.email ≡ address)
          (d.accounts.find_by_email address w) _ (laws.email_law address w)
          (λ a w1 same.
            Verdict-guarded (Admits door) Any (not (is_local a.auth_provider)) _ w1 _ (λ z. tt)
              (λ z.
                Verdict-settled (Admits door) Any (password_hash a.auth_provider) w1 _ (λ x. tt)
                  (λ h q.
                    Verdict-and_then (Admits door) Any (λ b. b ≡ matches password h)
                      (d.compare_password password h w1) _ (laws.compare_law password h w1)
                      (λ b w2 m.
                        Verdict-guarded (Admits door) Any (not b) _ w2 _ (λ z. tt)
                          (λ right.
                            active_only d owner_of matches Held laws (Admits door) a w2 _ (λ live.
                              let (access, w3) = d.access_token a.id w2 in
                              let (refresh, w4) = d.refresh_token a.id w3 in
                              Verdict-and_then (Admits door) Any (λ x. Unit {0})
                                (d.subscriptions.subs.find_current_active_by_user_id a.id w4) _
                                (Verdict-any _)
                                (λ current w5 y.
                                  Verdict-and_then (Admits door) Any (λ x. Unit {0})
                                    (assign_default_subscription_to_user d.subscriptions a.id w5) _
                                    (Verdict-any _)
                                    (λ given w6 y.
                                      session-Admits d owner_of matches Held laws door a access
                                        refresh current w6 live (laws.access_law a.id w2)
                                        (laws.refresh_law a.id w3)
                                        (
                                          rw same read,
                                          (
                                            h,
                                            hash_of a.auth_provider h q,
                                            sym m ∙ kept_test b right,
                                          ),
                                        ))))))))))
