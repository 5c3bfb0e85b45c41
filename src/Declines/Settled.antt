-- ===== src/Declines/Settled.antt =====
-- A payment is declined before its fallback is put in the queue.
use auction_platform_backend.Prelude.{
  ℕ, ◌≡◌, ◌≢◌, ◌∙◌, sym, ap, refl, ◌⊎◌, inl, inr, Bool, true, false, not, ◌&&◌, ◌==◌, is_id, Option,
  none, some, List, ◌∷◌, arith, if◌then◌else◌,
}
use auction_platform_backend.Outcome.{
  Result, ok, fail, Outcome, done, failed, thrown, attempt, attempted, return, fail_if, ◌>>◌,
  payment_not_found, not_authorized_to_decline, only_pending_can_be_declined, unexpected_error,
}
use auction_platform_backend.Outcome.Post.{
  Post, Post-and_then, Post-guarded, Post-required, Post-settled, Post-weaken, Post-caught,
}
use auction_platform_backend.Auction.{Auction, is_ended}
use auction_platform_backend.Payment.{
  Payment, PaymentStatus, pending, declined, is_pending, is_declined, mark_as_declined,
}
use auction_platform_backend.Fraud.{FraudReport}
use auction_platform_backend.Services.{Platform, FallbackJob}
use auction_platform_backend.Declines.{
  DeclineInput, decline_report, job_of, pass_on, report_decline, decline_pending, try_decline,
  decline_payment,
}

-- A live payment that is marked.
declined_of :
    (x x' : Payment)
    → not (is_pending x.status) ≡ false
    → mark_as_declined x ≡ ok x'
    → (x.status ≡ pending) × (x'.status ≡ declined)
unfolding mark_as_declined
declined_of x x' live h = ground arith

module _ {W : Type 0} (p : Platform W) (status : W → PaymentStatus) (queue : W → List FallbackJob)
    (k : ℕ) where
  abbrev pub Same : W → W → Type 0
  Same w w' = (status w' ≡ status w) × (queue w' ≡ queue w)

  -- Payment `k` after an update of payment `i`, which may be another one.
  abbrev pub IsUpdated : ℕ → Payment → W → W → Type 0
  IsUpdated i x w w' = ((i ≡ k) × (status w' ≡ x.status)) ⊎ ((i ≢ k) × (status w' ≡ status w))

  updated_status :
      (i : ℕ) (x : Payment) (w w' : W) → i ≡ k → IsUpdated i x w w' → status w' ≡ x.status
  updated_status i x w w' e (inl (same, h)) = h
  updated_status i x w w' e (inr (other, h)) = absurd (other e)

  -- What the use case relies on of payment `k` and of the queue of fallbacks.
  pub record DeclineLaws : Type 0 where
    pub row_law :
        (w : W)
        → Post
            (λ o w'. Same w w' × ((x : Payment) → o ≡ some x → (x.id ≡ k) × (x.status ≡ status w)))
            (λ w'. Same w w')
            (p.payments.find_by_id k w)
    pub update_law :
        (i : ℕ) (x : Payment) (w : W)
        → Post
            (λ y w'. IsUpdated i x w w' × (queue w' ≡ queue w))
            (λ w'. ((status w' ≡ status w) ⊎ IsUpdated i x w w') × (queue w' ≡ queue w))
            (p.payments.update i x w)
    pub enqueue_law :
        (j : FallbackJob) (w : W)
        → (status (p.fallback_queue.enqueue j w).1 ≡ status w)
          × ((queue (p.fallback_queue.enqueue j w).1 ≡ queue w)
              ⊎ (queue (p.fallback_queue.enqueue j w).1 ≡ j ∷ queue w))
    pub id_same : (w : W) → Same w (p.runtime.generate_id w).1
    pub auction_same : (i : ℕ) (w : W) → Same w (p.auctions.find_by_id i w).1
    pub user_same : (i : ℕ) (w : W) → Same w (p.users.find_by_id i w).1
    pub report_same : (x : FraudReport) (w : W) → Same w (p.reports.save x w).1

  module _ (laws : DeclineLaws) (input : DeclineInput) (s : PaymentStatus)
      (q : List FallbackJob) where
    -- The payment was pending and is declined.
    abbrev pub IsDeclined : W → Type 0
    IsDeclined w = (s ≡ pending) × (status w ≡ declined)

    -- The queue is as before, or holds one more fallback, of the user.
    abbrev pub IsQueued : W → Type 0
    IsQueued w =
        (queue w ≡ q)
        ⊎ ((j : FallbackJob) × (queue w ≡ j ∷ q) × (j.declined_user_id ≡ input.user_id))

    -- How the call may end: nothing has happened, or the payment is declined, and only then is there
    -- a new fallback.
    abbrev pub Ends : W → Type 0
    Ends w = ((status w ≡ s) × (queue w ≡ q)) ⊎ (IsDeclined w × IsQueued w)

    abbrev End : {A : Type 0} → A → W → Type 0
    End x w = Ends w

    abbrev Over : {A : Type 0} → A → W → Type 0
    Over x w = IsDeclined w × IsQueued w

    over-Same : (w w' : W) → Same w w' → IsDeclined w × IsQueued w → IsDeclined w' × IsQueued w'
    over-Same w w' (e, f) ((a, b), inl c) = ((a, e ∙ b), inl (f ∙ c))
    over-Same w w' (e, f) ((a, b), inr (j, c, d)) = ((a, e ∙ b), inr (j, f ∙ c, d))

    Over-Post :
        {A : Type 0} (w : W) (r : Outcome A × W)
        → Same w r.1
        → IsDeclined w × IsQueued w
        → Post Over Ends r
    Over-Post w (done x, w') e h = over-Same w w' e h
    Over-Post w (failed x, w') e h = inr (over-Same w w' e h)
    Over-Post w (thrown, w') e h = inr (over-Same w w' e h)

    tried-Over :
        {A : Type 0} (w : W) (r : Outcome A × W)
        → Same w r.1
        → IsDeclined w × IsQueued w
        → Post (Over {A = Result A}) Ends (attempted r)
    tried-Over w (done x, w') e h = over-Same w w' e h
    tried-Over w (failed x, w') e h = over-Same w w' e h
    tried-Over w (thrown, w') e h = inr (over-Same w w' e h)

    any-End : {A : Type 0} (r : Outcome A × W) → IsDeclined r.1 × IsQueued r.1 → Post Over Ends r
    any-End (done x, w') h = h
    any-End (failed x, w') h = inr h
    any-End (thrown, w') h = inr h

    queued-Over :
        (a : Auction) (x : Payment) (w : W)
        → IsDeclined w
        → queue w ≡ q
        → Post Over Ends (p.fallback_queue.enqueue (job_of a input x) w)
    queued-Over a x w (b, d) e =
        let (kept, either) = laws.enqueue_law (job_of a input x) w in
        any-End (p.fallback_queue.enqueue (job_of a input x) w) (
          (b, kept ∙ d),
          elim either [
            | inl same ↦ inl (same ∙ e)
            | inr more ↦ inr (job_of a input x, more ∙ ap (λ js. job_of a input x ∷ js) e, refl)
          ],
        )

    pass_on-Over :
        (x : Payment) (r : Result (Option Auction)) (w : W)
        → IsDeclined w
        → queue w ≡ q
        → Post Over Ends (pass_on p input x r w)
    unfolding pass_on
    pass_on-Over x (fail e) w d h = (d, inl h)
    pass_on-Over x (ok none) w d h = (d, inl h)
    pass_on-Over x (ok (some a)) w d h = go (is_ended a.status && is_id a.winner_id input.user_id)
      where
        go :
            (t : Bool)
            → Post Over Ends
                ((if t then p.fallback_queue.enqueue (job_of a input x) else return tt) w)
        go true = queued-Over a x w d h
        go false = (d, inl h)

    report-Over :
        (x : Payment) (w : W)
        → IsDeclined w × IsQueued w
        → Post Over Ends (report_decline p input x w)
    unfolding report_decline
    report-Over x w h =
        Post-and_then Over Over Ends (p.users.find_by_id input.user_id w) _
          (Over-Post w (p.users.find_by_id input.user_id w) (laws.user_same input.user_id w) h)
          (λ user w1 h1.
            let (id, w2) = p.runtime.generate_id w1 in
            let report = decline_report id x (p.runtime.now w2) in
            Post-and_then Over Over Ends (p.reports.save report w2) _
              (Over-Post w2 (p.reports.save report w2) (laws.report_same report w2)
                (over-Same w1 w2 (laws.id_same w1) h1))
              (λ y w3 h3. h3))

    -- The payment stored as declined.
    Marked : {A : Type 0} → A → W → Type 0
    Marked y w = IsDeclined w × (queue w ≡ q)

    stored-Marked :
        (x x' : Payment) (w : W)
        → (x.status ≡ pending) × (x'.status ≡ declined)
        → (x.id ≡ k) × (x.status ≡ s)
        → status w ≡ s
        → queue w ≡ q
        → Post Marked Ends (p.payments.update x.id x' w)
    unfolding Marked
    stored-Marked x x' w (was, now) (of_k, same) e h =
        Post-weaken (λ y w'. IsUpdated x.id x' w w' × (queue w' ≡ queue w))
          (λ w'. ((status w' ≡ status w) ⊎ IsUpdated x.id x' w w') × (queue w' ≡ queue w)) Marked
          Ends (p.payments.update x.id x' w) (laws.update_law x.id x' w)
          (λ y w' (a, b). ((sym same ∙ was, updated_status x.id x' w w' of_k a ∙ now), b ∙ h))
          (λ w' (a, b). elim a [
            | inl old ↦ inl (old ∙ e, b ∙ h)
            | inr new ↦
                inr ((sym same ∙ was, updated_status x.id x' w w' of_k new ∙ now), inl (b ∙ h))
          ])

    kept-Marked :
        (w : W) (r : Outcome (Option Auction) × W)
        → Same w r.1
        → IsDeclined w × (queue w ≡ q)
        → Post (Marked {A = Result (Option Auction)}) Ends (attempted r)
    unfolding Marked
    kept-Marked w (done x, w') (e, f) ((a, b), h) = ((a, e ∙ b), f ∙ h)
    kept-Marked w (failed x, w') (e, f) ((a, b), h) = ((a, e ∙ b), f ∙ h)
    kept-Marked w (thrown, w') (e, f) ((a, b), h) = inr ((a, e ∙ b), inl (f ∙ h))

    pending-Ends :
        (x : Payment) (w : W)
        → not (is_pending x.status) ≡ false
        → (x.id ≡ k) × (x.status ≡ s)
        → status w ≡ s
        → queue w ≡ q
        → Post End Ends (decline_pending p input x w)
    unfolding decline_pending Marked
    pending-Ends x w live same e h =
        Post-settled End Ends (mark_as_declined x) w _ (inl (e, h)) (λ x' m.
          Post-and_then Marked End Ends (p.payments.update x.id x' w) _
            (stored-Marked x x' w (declined_of x x' live m) same e h)
            (λ y w1 m1.
              Post-and_then Marked End Ends (attempt (p.auctions.find_by_id x.reference_id) w1) _
                (kept-Marked w1 (p.auctions.find_by_id x.reference_id w1)
                  (laws.auction_same x.reference_id w1) m1)
                (λ row w2 (d2, h2).
                  Post-and_then Over End Ends (pass_on p input x row w2) _
                    (pass_on-Over x row w2 d2 h2)
                    (λ u w3 h3.
                      Post-weaken Over Ends End Ends (report_decline p input x w3)
                        (report-Over x w3 h3) (λ u' w4 h4. inr h4) (λ w4 h4. h4)))))

    try_decline-Ends :
        (w : W)
        → input.payment_id ≡ k
        → status w ≡ s
        → queue w ≡ q
        → Post End Ends (try_decline p input w)
    unfolding try_decline
    try_decline-Ends w i e h =
        Post-and_then
          (λ o w'.
            ((status w' ≡ s) × (queue w' ≡ q))
            × ((x : Payment) → o ≡ some x → (x.id ≡ k) × (x.status ≡ s)))
          End Ends (p.payments.find_by_id input.payment_id w) _
          (rw i (
            Post-weaken
              (λ o w'.
                Same w w' × ((x : Payment) → o ≡ some x → (x.id ≡ k) × (x.status ≡ status w)))
              (λ w'. Same w w')
              (λ o w'.
                ((status w' ≡ s) × (queue w' ≡ q))
                × ((x : Payment) → o ≡ some x → (x.id ≡ k) × (x.status ≡ s)))
              Ends (p.payments.find_by_id k w) (laws.row_law w)
              (λ o w' ((a, b), f). ((a ∙ e, b ∙ h), λ x r. let (i', j) = f x r in (i', j ∙ e)))
              (λ w' (a, b). inl (a ∙ e, b ∙ h))))
          (λ o w1 (still, f). Post-required End Ends o payment_not_found w1 _ (inl still) (λ x r.
            Post-guarded End Ends (not (x.user_id == input.user_id)) not_authorized_to_decline w1 _
              (inl still) (λ own. chosen x (is_declined x.status) w1 still (f x r))))
      where
        chosen :
            (x : Payment) (t : Bool) (w1 : W)
            → (status w1 ≡ s) × (queue w1 ≡ q)
            → (x.id ≡ k) × (x.status ≡ s)
            → Post End Ends (
                (if t
                    then return tt
                    else (fail_if (not (is_pending x.status)) only_pending_can_be_declined
                        >> decline_pending p input x))
                  w1)
        chosen x true w1 still r = inl still
        chosen x false w1 still r =
            Post-guarded End Ends (not (is_pending x.status)) only_pending_can_be_declined w1 _
              (inl still) (λ live. pending-Ends x w1 live r still.0 still.1)

    -- However `declinePayment` ends, the payment and the queue of fallbacks are as they were, or the
    -- payment was pending and is declined; only then may there be one more fallback in the queue, and
    -- it is for the user who has declined.
    pub decline_payment-Ends :
        (w : W)
        → input.payment_id ≡ k
        → status w ≡ s
        → queue w ≡ q
        → Post (λ x w'. Ends w') Ends (decline_payment p input w)
    unfolding decline_payment
    decline_payment-Ends w i e h =
        Post-caught End Ends (try_decline p input w) unexpected_error (try_decline-Ends w i e h)
