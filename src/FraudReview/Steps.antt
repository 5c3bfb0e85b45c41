-- ===== src/FraudReview/Steps.antt =====
-- What a review does to the fraud level and the suspensions of a user, call by call.
use auction_platform_backend.Prelude.{
  ℕ, ◌+◌, ◌≤◌, ◌≡◌, ◌∙◌, refl, ap, ◌⊎◌, inl, inr, Bool, true, false, leb, not, if◌then◌else◌, arith,
}
use auction_platform_backend.Outcome.{Outcome, done, failed, thrown, M, return, and_then}
use auction_platform_backend.Outcome.Post.{Post}
use auction_platform_backend.Outcome.World.{after-required}
use auction_platform_backend.Fraud.{FraudReport, FraudAdminDecision, fault_verified}
use auction_platform_backend.Users.{UserAccount, suspend, add_fraud_level}
use auction_platform_backend.FraudReview.{
  is_empty, is_fault, points, suspension, ReviewPlatform, ReviewInput, suspend_target,
  notify_and_suspend, punish, review,
}
use auction_platform_backend.Fraud.{resolve}
use auction_platform_backend.FraudReview.Record.{
  Standing, Reviewed, untouched, put_account, put_suspension, Tells, FraudLaws,
}
use auction_platform_backend.FraudReview.Decision.{
  points-bounds, verified, put_account-suspensions, After, raised-After, suspended-After,
  settled_account,
}

-- Calls that keep, find and store, and what follows them.
module _ {W : Type 0} (view : W → Standing) (P : Standing → Type 0) (v : Standing) where
  pub after-kept :
      {A B : Type 0} (r : Outcome A × W) (f : A → M W B)
      → P v
      → view r.1 ≡ v
      → ((a : A) (w : W) → view w ≡ v → P (view (f a w).1))
      → P (view (and_then r f).1)
  after-kept (done a, w) f h e k = k a w e
  after-kept (failed x, w) f h e k = rw e h
  after-kept (thrown, w) f h e k = rw e h

  pub after-found :
      {A B : Type 0} (Q : A → Standing → Type 0) (w0 : W) (r : Outcome A × W) (f : A → M W B)
      → P v
      → view w0 ≡ v
      → Post (λ a w'. (view w' ≡ view w0) × Q a (view w0)) (λ w'. view w' ≡ view w0) r
      → ((a : A) (w : W) → view w ≡ v → Q a v → P (view (f a w).1))
      → P (view (and_then r f).1)
  after-found Q w0 (done a, w) f h e (same, q) k = k a w (same ∙ e) (rw e at q)
  after-found Q w0 (failed x, w) f h e same k = rw (same ∙ e) h
  after-found Q w0 (thrown, w) f h e same k = rw (same ∙ e) h

  either_way :
      (put : Standing → Standing) (w0 w : W)
      → P v
      → P (put v)
      → view w0 ≡ v
      → (view w ≡ view w0) ⊎ (view w ≡ put (view w0))
      → P (view w)
  either_way put w0 w h g e (inl q) = rw (q ∙ e) h
  either_way put w0 w h g e (inr q) = rw (q, e) g

  pub after-stored :
      {A B : Type 0} (put : Standing → Standing) (w0 : W) (r : Outcome A × W) (f : A → M W B)
      → P v
      → P (put v)
      → view w0 ≡ v
      → Post
          (λ a w'. view w' ≡ put (view w0))
          (λ w'. (view w' ≡ view w0) ⊎ (view w' ≡ put (view w0)))
          r
      → ((a : A) (w : W) → view w ≡ put v → P (view (f a w).1))
      → P (view (and_then r f).1)
  after-stored put w0 (done a, w) f h g e q k = k a w (rw e at q)
  after-stored put w0 (failed x, w) f h g e q k = either_way put w0 w h g e q
  after-stored put w0 (thrown, w) f h g e q k = either_way put w0 w h g e q

module _ {W : Type 0} (d : ReviewPlatform W) (view : W → Standing) (u limit duration : ℕ)
    (laws : FraudLaws d view u limit duration) (decision : FraudAdminDecision) (s : Standing) where
  open d use {
    now, generate_id, find_report, update_report, accounts, save_fault_notice, suspension_threshold,
    temporary_suspension_duration, find_user_suspensions, create_suspension,
  }

  abbrev Fine : Standing → Type 0
  Fine = After limit duration u decision s

  suspend_target-After :
      (r : FraudReport) (p n : ℕ) (a : UserAccount) (w : W)
      → decision ≡ fault_verified
      → (1 ≤ p) × (p ≤ 3)
      → Tells d view u limit duration r.targeted_user_id a s
      → n ≡ limit
      → n ≤ a.user_fraud_level + p
      → view w ≡ put_account u (add_fraud_level p a) s
      → Fine (view (suspend_target d r (add_fraud_level p a) w).1)
  unfolding suspend_target
  suspend_target-After r p n a w e bounds tells q enough h =
      let t = r.targeted_user_id in
      let v = put_account u (add_fraud_level p a) s in
      let fine = raised-After limit duration u decision s t p a tells e bounds in
      after-found view Fine v (λ l s'. t ≡ u → is_empty l ≡ is_empty s'.suspensions) w _ _ fine h
        (laws.find_suspensions_law t w)
        (λ l w1 e1 same.
          after-found view Fine v (λ m s'. m ≡ duration) w1 _ _ fine e1 (laws.duration_law w1)
            (λ m w2 e2 k.
              let w3 = (generate_id w2).1 in
              let x = suspension (generate_id w2).0 t r.id (not (is_empty l)) (now w1) m in
              let last =
                suspended-After limit duration u decision s t p r.id (now w1) (generate_id w2).0 a l
                  n m tells
                  (λ g. same g ∙ ap is_empty (put_account-suspensions u (add_fraud_level p a) s)) q
                  k enough e bounds in
              after-stored view Fine v (put_suspension u x) w3 _ _ fine last (laws.id_keeps w2 ∙ e2)
                (laws.create_suspension_law x w3)
                (λ y w4 e4.
                  let v' = put_suspension u x v in
                  after-stored view Fine v' (put_account u (suspend (add_fraud_level p a))) w4 _ _
                    last (rw (settled_account limit duration u decision s p a x) last) e4
                    (laws.save_account_law (suspend (add_fraud_level p a)) w4)
                    (λ z w5 e5. rw (e5, settled_account limit duration u decision s p a x) last))))

  notify_and_suspend-After :
      (r : FraudReport) (p n : ℕ) (a : UserAccount) (w : W)
      → decision ≡ fault_verified
      → (1 ≤ p) × (p ≤ 3)
      → Tells d view u limit duration r.targeted_user_id a s
      → n ≡ limit
      → view w ≡ put_account u (add_fraud_level p a) s
      → Fine (view (notify_and_suspend d r (add_fraud_level p a) n w).1)
  unfolding notify_and_suspend
  notify_and_suspend-After r p n a w e bounds tells q h =
      let v = put_account u (add_fraud_level p a) s in
      let fine = raised-After limit duration u decision s r.targeted_user_id p a tells e bounds in
      let w1 = (generate_id w).1 in
      after-kept view Fine v (save_fault_notice (generate_id w).0 r.targeted_user_id w1) _ fine
        (laws.notice_keeps (generate_id w).0 r.targeted_user_id w1 ∙ laws.id_keeps w ∙ h)
        (λ y w2 e2. go w2 fine e2 (leb n (a.user_fraud_level + p)) refl)
    where
      go :
          (w2 : W)
          → Fine (put_account u (add_fraud_level p a) s)
          → view w2 ≡ put_account u (add_fraud_level p a) s
          → (b : Bool) → leb n (a.user_fraud_level + p) ≡ b
          → Fine
              (view ((if not b then return tt else suspend_target d r (add_fraud_level p a)) w2).1)
      go w2 fine e2 true z = suspend_target-After r p n a w2 e bounds tells q (ground arith) e2
      go w2 fine e2 false z = rw e2 fine

  punish-After :
      (r : FraudReport) (w : W)
      → decision ≡ fault_verified
      → view w ≡ s
      → Fine (view (punish d r w).1)
  unfolding punish
  punish-After r w e h =
      let t = r.targeted_user_id in
      let p = points r.level in
      after-found view Fine s (Tells d view u limit duration t) w _ _ untouched h
        (laws.find_account_law t w)
        (λ a w1 e1 tells.
          let v = put_account u (add_fraud_level p a) s in
          let fine =
            raised-After limit duration u decision s t p a tells e (points-bounds r.level) in
          after-stored view Fine s (put_account u (add_fraud_level p a)) w1 _ _ untouched fine e1
            (laws.save_account_law (add_fraud_level p a) w1)
            (λ y w2 e2.
              after-found view Fine v (λ n s'. n ≡ limit) w2 _ _ fine e2 (laws.threshold_law w2)
                (λ n w3 e3 q.
                  notify_and_suspend-After r p n a w3 e (points-bounds r.level) tells q e3)))

module _ {W : Type 0} (d : ReviewPlatform W) (view : W → Standing) (u limit duration : ℕ)
    (laws : FraudLaws d view u limit duration) where
  open d use {now, find_report, update_report}

  -- However `reviewFraudReport` ends, a user is as before, or the fault is verified and the fraud
  -- level of the user is higher by 1, 2 or 3 points; and only if it then reaches the threshold, there
  -- may be one more suspension of the user, active, which ends after the configured duration if it
  -- is the first one of the user, and never if it is not.
  pub review-Reviewed :
      (input : ReviewInput) (w : W)
      → Reviewed limit duration u input.decision (view w) (view (review d input w).1)
  unfolding review
  review-Reviewed input w =
      after-kept view (After limit duration u input.decision (view w)) (view w)
        (find_report input.report_id w) _ untouched (laws.report_keeps input.report_id w)
        (λ o w1 e1.
          after-required (λ x. After limit duration u input.decision (view w) (view x)) o _ w1 _
            (rw e1 untouched)
            (λ r q.
              after-kept view (After limit duration u input.decision (view w)) (view w)
                (update_report (resolve input.admin_user_id input.decision (now w1) r) w1) _
                untouched (laws.update_report_keeps _ w1 ∙ e1)
                (λ y w2 e2.
                  go (resolve input.admin_user_id input.decision (now w1) r) w2 e2
                    (not (is_fault input.decision)) refl)))
    where
      go :
          (r : FraudReport) (w2 : W)
          → view w2 ≡ view w
          → (b : Bool) → not (is_fault input.decision) ≡ b
          → After limit duration u input.decision
              (view w)
              (view ((if b then return tt else punish d r) w2).1)
      go r w2 e2 true z = rw e2 untouched
      go r w2 e2 false z =
          punish-After d view u limit duration laws input.decision (view w) r w2
            (verified input.decision z) e2
