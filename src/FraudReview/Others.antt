-- ===== src/FraudReview/Others.antt =====
-- The calls that leave the fraud level and the suspensions of a user alone.
use auction_platform_backend.Prelude.{
  ℕ, ◌≡◌, ◌∙◌, refl, sym, ◌⊎◌, inl, inr, Bool, true, false, ◌==◌, if◌then◌else◌, arith,
}
use auction_platform_backend.Outcome.{Outcome, done, failed, thrown}
use auction_platform_backend.Outcome.Post.{Post}
use auction_platform_backend.Outcome.World.{
  after-and_then, after-required, after-attempted, after-valued, after-settled,
}
use auction_platform_backend.Users.{UserAccount, suspend}
use auction_platform_backend.FraudReview.{
  ReviewPlatform, ReportUpdate, ReportInput, mark, update_fraud_report, create_report, block_user,
  suspend_if_needed, needs_suspension, new_report,
}
use auction_platform_backend.FraudReview.Record.{Standing, put_account, Tells, FraudLaws}
use auction_platform_backend.FraudReview.Steps.{after-found}

-- Saving the account of a user with the level that is stored leaves the standing alone.
put_account-same :
    (u : ℕ) (a : UserAccount) (s : Standing)
    → (a.id ≡ u → a.user_fraud_level ≡ s.level)
    → put_account u a s ≡ s
unfolding put_account
put_account-same u a s h = go (a.id == u) refl
  where
    go :
        (b : Bool)
        → (a.id == u) ≡ b
        → (if b then record s { level = a.user_fraud_level } else s) ≡ s
    go true e = rw (h (ground arith)) refl
    go false e = refl

module _ {W : Type 0} (d : ReviewPlatform W) (view : W → Standing) (u limit duration : ℕ)
    (laws : FraudLaws d view u limit duration) (s : Standing) where
  open d use {
    now, generate_id, find_report, save_report, update_report, find_today_reports, accounts,
  }

  abbrev Same : W → Type 0
  Same w = view w ≡ s

  -- The account found of a user is saved with another status.
  saved-Same :
      (i : ℕ) (a a' : UserAccount) (w : W)
      → Tells d view u limit duration i a s
      → a'.id ≡ a.id
      → a'.user_fraud_level ≡ a.user_fraud_level
      → Same w
      → Same (accounts.save a' w).1
  saved-Same i a a' w (owner, tells) same level h =
      go (accounts.save a' w) (laws.save_account_law a' w)
    where
      put : put_account u a' (view w) ≡ s
      put = rw h (put_account-same u a' s (λ e. level ∙ tells (sym owner ∙ sym same ∙ e)))

      go :
          (r : Outcome UserAccount × W)
          → Post
              (λ x w'. view w' ≡ put_account u a' (view w))
              (λ w'. (view w' ≡ view w) ⊎ (view w' ≡ put_account u a' (view w)))
              r
          → view r.1 ≡ s
      go (done x, w') q = q ∙ put
      go (failed x, w') (inl q) = q ∙ h
      go (failed x, w') (inr q) = q ∙ put
      go (thrown, w') (inl q) = q ∙ h
      go (thrown, w') (inr q) = q ∙ put

  pub mark-Same : (i : ℕ) (w : W) → Same w → Same (mark d i w).1
  unfolding mark
  mark-Same i w h = after-and_then Same (find_report i w) _ (laws.report_keeps i w ∙ h) (λ o w1 h1.
      after-required Same o _ w1 _ h1 (λ r q.
        after-and_then Same (update_report _ w1) _ (laws.update_report_keeps _ w1 ∙ h1)
          (λ y w2 h2. h2)))

  pub update-Same : (input : ReportUpdate) (w : W) → Same w → Same (update_fraud_report d input w).1
  unfolding update_fraud_report
  update-Same input w h =
      after-and_then Same (find_report input.report_id w) _
        (laws.report_keeps input.report_id w ∙ h)
        (λ o w1 h1. after-required Same o _ w1 _ h1 (λ r q.
          after-and_then Same (update_report _ w1) _ (laws.update_report_keeps _ w1 ∙ h1)
            (λ y w2 h2. h2)))

  pub block-Same : (i : ℕ) (b : Bool) (w : W) → Same w → Same (block_user d i b w).1
  unfolding block_user
  block-Same i b w h =
      after-found view (λ x. x ≡ s) s (Tells d view u limit duration i) w (accounts.find_by_id i w)
        _ refl h (laws.find_account_law i w)
        (λ a w1 h1 tells.
          after-attempted Same (accounts.save _ w1) _ (saved-Same i a _ w1 tells refl refl h1)
            (λ y w2 h2. h2))

  suspend_if_needed-Same :
      (b : Bool) (i : ℕ) (a : UserAccount) (w : W)
      → Tells d view u limit duration i a s
      → Same w
      → Same (suspend_if_needed d b a w).1
  unfolding suspend_if_needed
  suspend_if_needed-Same false i a w tells h = h
  suspend_if_needed-Same true i a w tells h =
      after-attempted Same (accounts.save (suspend a) w) _
        (saved-Same i a (suspend a) w tells refl refl h) (λ y w1 h1. h1)

  pub report-Same : (input : ReportInput) (w : W) → Same w → Same (create_report d input w).1
  unfolding create_report
  report-Same input w h =
      let i = input.targeted_user_id in
      after-found view (λ x. x ≡ s) s (Tells d view u limit duration input.reported_user_id) w
        (accounts.find_by_id input.reported_user_id w) _ refl h
        (laws.find_account_law input.reported_user_id w)
        (λ reporter w1 h1 told.
          after-found view (λ x. x ≡ s) s (Tells d view u limit duration i) w1
            (accounts.find_by_id i w1) _ refl h1 (laws.find_account_law i w1)
            (λ a w2 h2 tells.
              let w3 = (generate_id w2).1 in
              after-attempted Same (save_report (new_report (generate_id w2).0 (now w3) input) w3) _
                (laws.save_report_keeps _ w3 ∙ laws.id_keeps w2 ∙ h2)
                (λ x w4 h4.
                  after-attempted Same (find_today_reports a.id w4) _
                    (laws.today_keeps a.id w4 ∙ h4)
                    (λ y w5 h5. after-valued Same y w5 _ h5 (λ rs q.
                      after-settled Same x w5 _ h5 (λ r k.
                        after-and_then Same (suspend_if_needed d (needs_suspension rs) a w5) _
                          (suspend_if_needed-Same (needs_suspension rs) i a w5 tells h5)
                          (λ z w6 h6. h6)))))))
