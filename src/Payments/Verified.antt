-- ===== src/Payments/Verified.antt =====
-- A payment is completed only after the gateway has verified it.
use auction_platform_backend.Prelude.{
  ℕ, ◌≡◌, ◌∙◌, refl, sym, ap, ◌⊎◌, inl, inr, Bool, true, false, Option, List, ◌∷◌, not, ◌==◌, some,
  arith, if◌then◌else◌,
}
use auction_platform_backend.Outcome.{
  ok, Outcome, done, failed, thrown, return, fail_if, ◌>>◌, payment_not_found,
  not_authorized_to_verify, only_pending_can_be_verified,
}
use auction_platform_backend.Outcome.Post.{
  Post, Post-and_then, Post-guarded, Post-required, Post-settled, Post-weaken,
}
use auction_platform_backend.Payment.{
  Payment, pending, completed, is_pending, is_completed, mark_as_completed,
}
use auction_platform_backend.Services.{Platform, Receipt}
use auction_platform_backend.Payments.{VerifyInput, receipt, complete_payment, verify_payment}

-- A live payment that is completed, with all else as before.
abbrev pub paid : Payment → Payment
paid x = record x { status = completed }

completed_of : (x x' : Payment) → mark_as_completed x ≡ ok x' → (x.status ≡ pending) × (x' ≡ paid x)
unfolding mark_as_completed
completed_of x x' h = ground arith

module _ {W : Type 0} (p : Platform W) (row : W → Option Payment) (verified : W → List Receipt)
    (k : ℕ) where
  -- The row of payment `k` and the receipts that the gateway has verified are as they were.
  abbrev pub Same : W → W → Type 0
  Same w w' = (row w' ≡ row w) × (verified w' ≡ verified w)

  -- What the use case relies on of payment `k` and of the gateway: a read gives the row stored, a
  -- verification that succeeds is of the receipt given and stores nothing, and an update stores the
  -- row of its id or nothing.
  pub record GatewayLaws : Type 0 where
    pub id_law : (x : Payment) (w : W) → row w ≡ some x → x.id ≡ k
    pub row_law :
        (w : W)
        → Post (λ o w'. Same w w' × (o ≡ row w)) (λ w'. Same w w') (p.payments.find_by_id k w)
    pub verified_law :
        (r : Receipt) (w : W)
        → Post
            (λ n w'. (row w' ≡ row w) × (verified w' ≡ r ∷ verified w))
            (λ w'. Same w w')
            (p.gateway.verify_payment r w)
    pub update_law :
        (x : Payment) (w : W)
        → (verified (p.payments.update x.id x w).1 ≡ verified w)
          × ((row (p.payments.update x.id x w).1 ≡ row w)
              ⊎ ((x.id ≡ k) × (row (p.payments.update x.id x w).1 ≡ some x)))

  -- What the gateway is asked to verify for a payment: the user and the auction of the payment, with
  -- the order, the payment and the signature that the caller sends.
  abbrev pub IsReceiptOf : VerifyInput → Payment → Receipt → Type 0
  IsReceiptOf input x r =
      (r.user_id ≡ x.user_id)
      × (r.reference_id ≡ x.reference_id)
      × (r.order_id ≡ input.order_id)
      × (r.payment_id ≡ input.gateway_payment_id)
      × (r.signature ≡ input.signature)

  -- The row that was `o` is the same, or it was pending and of the caller, the gateway has verified
  -- the receipt of this payment, after those of `rs` and no other, and the row is completed.
  abbrev pub Settles : VerifyInput → Option Payment → List Receipt → W → Type 0
  Settles input o rs w =
      (row w ≡ o)
      ⊎ ((x : Payment) × (o ≡ some x)
          × (x.status ≡ pending)
          × (x.user_id ≡ input.user_id)
          × ((r : Receipt) × IsReceiptOf input x r × (verified w ≡ r ∷ rs))
          × (row w ≡ some (paid x)))

  module _ (laws : GatewayLaws) (input : VerifyInput) (o : Option Payment) (rs : List Receipt) where
    abbrev End : W → Type 0
    End w = Settles input o rs w

    abbrev Settled : {A : Type 0} → A → W → Type 0
    Settled x w = Settles input o rs w

    any-Post : {A : Type 0} (r : Outcome A × W) → End r.1 → Post Settled End r
    any-Post (done x, w) h = h
    any-Post (failed e, w) h = h
    any-Post (thrown, w) h = h

    updated-Settles :
        (x x' : Payment) (w : W)
        → o ≡ some x
        → x.user_id ≡ input.user_id
        → mark_as_completed x ≡ ok x'
        → row w ≡ o
        → verified w ≡ receipt input x ∷ rs
        → End (p.payments.update x.id x' w).1
    updated-Settles x x' w f own m e v =
        let (was, same) = completed_of x x' m in
        rw same (
          let (mark, either) = laws.update_law (paid x) w in
          elim either [
            | inl kept ↦ inl (kept ∙ e)
            | inr (i, new) ↦
                inr
                  (x, f, was, own, (receipt input x, (refl, refl, refl, refl, refl), mark ∙ v), new)
          ])

    complete-Settles :
        (x : Payment) (w : W)
        → o ≡ some x
        → x.user_id ≡ input.user_id
        → row w ≡ o
        → verified w ≡ rs
        → Post Settled End (complete_payment p input x w)
    unfolding complete_payment
    complete-Settles x w f own e v =
        Post-and_then (λ n w'. (row w' ≡ o) × (verified w' ≡ receipt input x ∷ rs)) Settled End
          (p.gateway.verify_payment (receipt input x) w) _
          (Post-weaken (λ n w'. (row w' ≡ row w) × (verified w' ≡ receipt input x ∷ verified w))
            (λ w'. Same w w') (λ n w'. (row w' ≡ o) × (verified w' ≡ receipt input x ∷ rs)) End
            (p.gateway.verify_payment (receipt input x) w) (laws.verified_law (receipt input x) w)
            (λ n w' (a, b). (a ∙ e, b ∙ ap (λ ts. receipt input x ∷ ts) v))
            (λ w' (a, b). inl (a ∙ e)))
          (λ n w1 (e1, v1). Post-settled Settled End (mark_as_completed x) w1 _ (inl e1) (λ x' m.
            Post-and_then Settled Settled End (p.payments.update x.id x' w1) _
              (any-Post (p.payments.update x.id x' w1) (updated-Settles x x' w1 f own m e1 v1))
              (λ y w2 h. h)))

    -- However `verifyPayment` ends, the payment is as it was, or it was pending and of the caller,
    -- the gateway has verified the receipt of this payment in the call, and the payment is completed
    -- with all else as before.
    pub verify_payment-Settles :
        (w : W)
        → input.payment_id ≡ k
        → row w ≡ o
        → verified w ≡ rs
        → Post (λ x w'. Settles input o rs w') (Settles input o rs) (verify_payment p input w)
    unfolding verify_payment complete_payment
    verify_payment-Settles w i e v =
        Post-and_then Found Settled End (p.payments.find_by_id input.payment_id w) _
          (rw i (
            Post-weaken (λ f w'. Same w w' × (f ≡ row w)) (λ w'. Same w w') Found End
              (p.payments.find_by_id k w) (laws.row_law w)
              (λ f w' ((a, b), q). (a ∙ e, b ∙ v, q ∙ e)) (λ w' (a, b). inl (a ∙ e))))
          (λ f w1 (e1, v1, q). Post-required Settled End f payment_not_found w1 _ (inl e1) (λ x r.
            Post-guarded Settled End (not (x.user_id == input.user_id)) not_authorized_to_verify w1
              _ (inl e1)
              (λ own. chosen x (is_completed x.status) w1 e1 v1 (sym q ∙ r) (ground arith))))
      where
        Found : Option Payment → W → Type 0
        Found f w' = (row w' ≡ o) × (verified w' ≡ rs) × (f ≡ o)

        chosen :
            (x : Payment) (t : Bool) (w1 : W)
            → row w1 ≡ o
            → verified w1 ≡ rs
            → o ≡ some x
            → x.user_id ≡ input.user_id
            → Post Settled End (
                (if t
                    then return tt
                    else (fail_if (not (is_pending x.status)) only_pending_can_be_verified
                        >> complete_payment p input x))
                  w1)
        chosen x true w1 e1 v1 f own = inl e1
        chosen x false w1 e1 v1 f own =
            Post-guarded Settled End (not (is_pending x.status)) only_pending_can_be_verified w1 _
              (inl e1) (λ live. complete-Settles x w1 f own e1 v1)
