-- ===== src/SignIn/Edits.antt =====
-- editProfile and changeProfilePassword leave the account of a user or change it as they may.
use auction_platform_backend.Prelude.{
  ℕ, ◌<◌, ◌≡◌, ◌∙◌, refl, sym, ap, ◌⊎◌, inl, Bool, true, false, Option, some, not, ◌==◌, ◌||◌,
  arith,
}
use auction_platform_backend.Outcome.{
  ok, invalid_old_password, same_password, invalid_otp, no_otp_found, otp_expired, unexpected_error,
  invalid_email_format,
}
use auction_platform_backend.Outcome.World.{
  after-and_then, after-attempted, after-guarded, after-required, after-settled, after-caught,
}
use auction_platform_backend.Users.{UserAccount, AuthProvider, local, google}
use auction_platform_backend.Otp.{
  Otp, OtpPurpose, change_profile_password, edit_profile, is_otp_blocked, is_otp_expired,
}
use auction_platform_backend.SignIn.{SignInPlatform, password_hash, describe}
use auction_platform_backend.SignIn.Profile.{
  store_edit, set_password, ProfileEdit, PasswordEdit, edited, accept_edit_code, try_edit_profile,
  edit_profile_of, accept_password_code, try_change_profile_password, change_profile_password_of,
}
use auction_platform_backend.SignIn.Changes.{
  ProfileCall, edit_it, change_it, run, Stored, Rows, ProfileLaws, Makes, Fine, after-found, kept,
  saved, described-Fine, edit_code-Passes, password_code-Passes,
}

module _ {W : Type 0} (d : SignInPlatform W) (view : W → UserAccount) (u : ℕ)
    (matches : ℕ → ℕ → Bool) (Held : ℕ → OtpPurpose → Otp → Type 0) where
  open d use {now, read_email, compare_password, hash_password, accounts, otps, subscriptions}

  held_by_user : (j : ℕ) (p : OtpPurpose) (o : Otp) → j ≡ u → Held j p o → Held u p o
  held_by_user j p o e h = rw e at h

  edit-Makes :
      (e : ProfileEdit) (a v : UserAccount) (row : Option Otp) (o : Otp) (address at : ℕ)
      → Stored d view u matches Held e.user_id a v
      → Rows d view u matches Held a.id edit_profile row v
      → row ≡ some o
      → (is_otp_expired at o || is_otp_blocked o) ≡ false
      → o.otp ≡ e.otp
      → read_email e.email ≡ some address
      → (edited e address a).id ≡ u
      → Makes d view u matches Held (edit_it e) v (edited e address a)
  unfolding edited
  edit-Makes e a v row o address at (owned, stored) held q live right k i =
      let mine : e.user_id ≡ u = sym owned ∙ i in
      (
        mine,
        (o, held_by_user a.id edit_profile o i (held o q), right, ground arith),
        (address, k, ap (edited e address) (stored mine)),
      )

  change-Makes :
      (c : PasswordEdit) (a v : UserAccount) (row : Option Otp) (o : Otp) (h h' : ℕ) (b : Bool)
      → Stored d view u matches Held c.user_id a v
      → Rows d view u matches Held c.user_id change_profile_password row v
      → row ≡ some o
      → (o.otp ≡ c.otp) × (o.attempts < 3)
      → password_hash a.auth_provider ≡ ok h
      → b ≡ matches c.old_password h
      → not b ≡ false
      → (c.old_password == c.new_password) ≡ false
      → matches c.new_password h' ≡ true
      → a.id ≡ u
      → Makes d view u matches Held (change_it c) v (record a { auth_provider = local h' })
  change-Makes c a v row o h h' b (owned, stored) held q (right, few) k e fits new good i =
      let mine : c.user_id ≡ u = sym owned ∙ i in
      let same : a ≡ v = stored mine in
      (
        mine,
        (o, held_by_user c.user_id change_profile_password o mine (held o q), right, few),
        ground arith,
        (
          h,
          h',
          ap (λ x. x.auth_provider) (sym same) ∙ hash_of a.auth_provider h k,
          ground arith,
          good,
          ap (λ (x : UserAccount). record x { auth_provider = local h' }) same,
        ),
      )
    where
      hash_of : (p : AuthProvider) (h : ℕ) → password_hash p ≡ ok h → p ≡ local h
      hash_of (local g) h k = cc
      hash_of (google g) h k = absurd (cc k)

  module _ (laws : ProfileLaws d view u matches Held) (v : UserAccount) where
    abbrev Left : ProfileCall → W → Type 0
    Left c w = Fine d view u matches Held laws c v w

    -- Storing an edit, from the e-mail address on.
    store_edit-Left :
        (e : ProfileEdit) (a : UserAccount) (w : W)
        → view w ≡ v
        → ((x : ℕ)
            → read_email e.email ≡ some x
            → (edited e x a).id ≡ u
            → Makes d view u matches Held (edit_it e) v (edited e x a))
        → Left (edit_it e) (store_edit d e a w).1
    unfolding store_edit
    store_edit-Left e a w same may =
        let c = edit_it e in
        let find = subscriptions.subs.find_current_active_by_user_id a.id in
        after-required (Left c) (read_email e.email) invalid_email_format w _ (inl same) λ x k.
          after-attempted (Left c) (accounts.save (edited e x a) w) _
            (saved d view u matches Held laws c v (edited e x a) w same (may x k))
            λ y w1 h1.
              after-and_then (Left c) (find w1) _
                (kept d view u matches Held laws c v find w1 (laws.current_keeps a.id w1) h1)
                λ s w2 h2.
                  after-and_then (Left c) (describe d s w2) _
                    (described-Fine d view u matches Held laws c v s w2 h2) λ z w3 h3. h3

    edit-Left : (e : ProfileEdit) (w : W) → view w ≡ v → Left (edit_it e) (run d (edit_it e) w)
    unfolding run edit_profile_of try_edit_profile
    edit-Left e w same =
        let c = edit_it e in
        after-caught (Left c) (try_edit_profile d e w) unexpected_error (
          after-found d view u matches Held laws c v (Stored d view u matches Held e.user_id)
            (accounts.find_by_id e.user_id w) _ (laws.account_law e.user_id v w same)
            λ a w1 e1 found.
              after-found d view u matches Held laws c v
                (Rows d view u matches Held a.id edit_profile)
                (otps.find_recent a.id edit_profile w1) _ (laws.otp_law a.id edit_profile v w1 e1)
                λ row w2 e2 held. after-required (Left c) row no_otp_found w2 _ (inl e2) λ o q.
                  after-guarded (Left c) (is_otp_expired (now w2) o || is_otp_blocked o) otp_expired
                    w2 _ (inl e2)
                    λ live.
                      after-found d view u matches Held laws c v (λ x v'. o.otp ≡ e.otp)
                        (accept_edit_code d o e.otp w2) _
                        (edit_code-Passes d view u matches Held laws c v o e.otp w2 e2)
                        λ x w3 e3 right.
                          store_edit-Left e a w3 e3
                            λ y k. edit-Makes e a v row o y (now w2) found held q live right k)

    -- Setting a new password, from the reading of the old hash on.
    set_password-Left :
        (e : PasswordEdit) (a : UserAccount) (w : W)
        → view w ≡ v
        → ((h h' : ℕ) (b : Bool)
            → password_hash a.auth_provider ≡ ok h
            → b ≡ matches e.old_password h
            → not b ≡ false
            → (e.old_password == e.new_password) ≡ false
            → matches e.new_password h' ≡ true
            → a.id ≡ u
            → Makes d view u matches Held (change_it e) v (record a { auth_provider = local h' }))
        → Left (change_it e) (set_password d e a w).1
    unfolding set_password
    set_password-Left e a w same may =
        let c = change_it e in
        after-settled (Left c) (password_hash a.auth_provider) w _ (inl same) λ h k.
          after-found d view u matches Held laws c v (λ b v'. b ≡ matches e.old_password h)
            (compare_password e.old_password h w) _ (laws.compare_law e.old_password h v w same)
            λ b w1 e1 eb. after-guarded (Left c) (not b) invalid_old_password w1 _ (inl e1) λ fits.
              after-guarded (Left c) (e.old_password == e.new_password) same_password w1 _ (inl e1)
                λ new.
                  after-found d view u matches Held laws c v
                    (λ h' v'. matches e.new_password h' ≡ true) (hash_password e.new_password w1) _
                    (laws.hash_law e.new_password v w1 e1)
                    λ h' w2 e2 good.
                      after-attempted (Left c)
                        (accounts.save (record a { auth_provider = local h' }) w2) _
                        (saved d view u matches Held laws c v
                          (record a { auth_provider = local h' }) w2 e2
                          (may h h' b k eb fits new good))
                        λ y w3 h3. h3

    change-Left :
        (e : PasswordEdit) (w : W) → view w ≡ v → Left (change_it e) (run d (change_it e) w)
    unfolding run change_profile_password_of try_change_profile_password
    change-Left e w same =
        let c = change_it e in
        after-caught (Left c) (try_change_profile_password d e w) unexpected_error (
          after-found d view u matches Held laws c v (Stored d view u matches Held e.user_id)
            (accounts.find_by_id e.user_id w) _ (laws.account_law e.user_id v w same)
            λ a w1 e1 found.
              after-found d view u matches Held laws c v
                (Rows d view u matches Held e.user_id change_profile_password)
                (otps.find_recent e.user_id change_profile_password w1) _
                (laws.otp_law e.user_id change_profile_password v w1 e1)
                λ row w2 e2 held. after-required (Left c) row invalid_otp w2 _ (inl e2) λ o q.
                  after-found d view u matches Held laws c v
                    (λ x v'. (o.otp ≡ e.otp) × (o.attempts < 3)) (accept_password_code d o e.otp w2)
                    _ (password_code-Passes d view u matches Held laws c v o e.otp w2 e2)
                    λ x w3 e3 right.
                      set_password-Left e a w3 e3
                        λ h h' b k. change-Makes e a v row o h h' b found held q right k)

  -- However a call that edits a profile or changes its password ends, the stored account of a user is
  -- as before, or the call is about this user and gives the code of a row of the user for this
  -- purpose, guessed wrong less than three times; an edit then sets the name, the e-mail address, which
  -- is well formed, the phone number and the address, and no more; a change of password sets nothing
  -- but the hash, which the new password matches, of an account that had a password, which the call
  -- gives and which is not the new one.
  pub run-Makes :
      ProfileLaws d view u matches Held
      → (c : ProfileCall) (w : W)
      → (view (run d c w) ≡ view w) ⊎ Makes d view u matches Held c (view w) (view (run d c w))
  run-Makes laws (edit_it e) w = edit-Left laws (view w) e w refl
  run-Makes laws (change_it c) w = change-Left laws (view w) c w refl
