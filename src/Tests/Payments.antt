-- ===== src/Tests/Payments.antt =====
-- Payments at concrete inputs.
use auction_platform_backend.Prelude.{
  ℕ, ◌≡◌, refl, sym, ap, ◌⊎◌, inl, inr, Option, none, some, List, [], ◌∷◌, length,
}
use auction_platform_backend.Outcome.Post.{Post}
use auction_platform_backend.Payment.{
  Payment, PaymentStatus, PaymentPhase, pending, completed, declined, mark_as_completed,
  mark_as_declined,
}
use auction_platform_backend.Auction.{ended}
use auction_platform_backend.Declines.{
  DeclineInput, decline_payment, try_decline, decline_pending, pass_on, report_decline,
}
use auction_platform_backend.Declines.Settled.{DeclineLaws, IsUpdated, Ends, decline_payment-Ends}
use auction_platform_backend.Services.{Receipt, FallbackJob}
use auction_platform_backend.Payments.Verified.{GatewayLaws, Settles, verify_payment-Settles}
use auction_platform_backend.Payments.{
  WinInput, VerifyInput, verify_payment, complete_payment, pending_payment,
}
use auction_platform_backend.Tests.Memory.{World}
use auction_platform_backend.Tests.Till.{
  row_at, update_row, till, row_at-id, row_at-put, same_or_not, row_at-put_other,
}
use auction_platform_backend.Tests.Samples.{evening, atlas}

abbrev dues_view : World → List Payment
dues_view w = w.dues

-- User 2 has won at 630.
abbrev won : WinInput
won = record { user_id = 2; auction_id = 7; win_amount = 630; ended_at = 100000 }

abbrev status_of : Option Payment → PaymentStatus
status_of none = pending
status_of (some x) = x.status

abbrev row_view : World → Option Payment
row_view w = row_at 70 w.dues

abbrev status_view : World → PaymentStatus
status_view w = status_of (row_view w)

abbrev verified_view : World → List Receipt
verified_view w = w.verified

till_updates :
    (x : Payment) (w : World) (o : Option Payment)
    → row_at x.id w.dues ≡ o
    → (verified_view (update_row x.id x w o).1 ≡ verified_view w)
      × ((row_view (update_row x.id x w o).1 ≡ row_view w)
          ⊎ ((x.id ≡ 70) × (row_view (update_row x.id x w o).1 ≡ some x)))
till_updates x w none e = (refl, inl refl)
till_updates x w (some y) e = elim (same_or_not x.id 70) [
  | inl i ↦ (refl, inr (i, rw (sym i) (row_at-put x.id x y w.dues e)))
  | inr n ↦ (refl, inl (row_at-put_other x.id 70 x w.dues n))
]

till-GatewayLaws : GatewayLaws till row_view verified_view 70
till-GatewayLaws = record {
  id_law = λ x w e. row_at-id 70 w.dues x e;
  row_law = λ w. ((refl, refl), refl);
  verified_law = λ r w. (refl, refl);
  update_law = λ x w. till_updates x w (row_at x.id w.dues) refl;
}

-- The deposit and the rest are due for user 2.
abbrev deposit_due : Payment
deposit_due = pending_payment 70 won 157 PaymentPhase.deposit 86500000 100000

abbrev balance_due : Payment
balance_due = pending_payment 71 won 473 PaymentPhase.balance 173000000 100000

abbrev morning : World
morning = record evening { dues = balance_due ∷ deposit_due ∷ [] }

abbrev paid_in : VerifyInput
paid_in = record {
  payment_id = 70;
  user_id = 2;
  order_id = 80;
  gateway_payment_id = 90;
  signature = 11;
}

verify_payment-Settles_example :
    Post
      (λ x w'. Settles till row_view verified_view 70 paid_in (some deposit_due) [] w')
      (Settles till row_view verified_view 70 paid_in (some deposit_due) [])
      (verify_payment till paid_in morning)
verify_payment-Settles_example =
    verify_payment-Settles till row_view verified_view 70 till-GatewayLaws paid_in
      (some deposit_due) [] morning refl refl refl

-- The run completes the payment, after one verification.
paid_status :
    (status_view (verify_payment till paid_in morning).1 ≡ completed)
    × (length (verified_view (verify_payment till paid_in morning).1) ≡ 1)
unfolding verify_payment complete_payment mark_as_completed
paid_status = (refl, refl)

abbrev jobs_view : World → List FallbackJob
jobs_view w = w.jobs

till_declines :
    (i : ℕ) (x : Payment) (w : World) (o : Option Payment)
    → row_at i w.dues ≡ o
    → Post
        (λ y w'. IsUpdated till status_view jobs_view 70 i x w w' × (jobs_view w' ≡ jobs_view w))
        (λ w'.
          ((status_view w' ≡ status_view w) ⊎ IsUpdated till status_view jobs_view 70 i x w w')
          × (jobs_view w' ≡ jobs_view w))
        (update_row i x w o)
till_declines i x w none e = (inl refl, refl)
till_declines i x w (some y) e = elim (same_or_not i 70) [
  | inl h ↦ (inl (h, rw (sym h) (ap status_of (row_at-put i x y w.dues e))), refl)
  | inr n ↦ (inr (n, ap status_of (row_at-put_other i 70 x w.dues n)), refl)
]

till-DeclineLaws : DeclineLaws till status_view jobs_view 70
till-DeclineLaws = record {
  row_law = λ w. ((refl, refl), λ x e. (row_at-id 70 w.dues x e, sym (ap status_of e)));
  update_law = λ i x w. till_declines i x w (row_at i w.dues) refl;
  enqueue_law = λ j w. (refl, inr refl);
  id_same = λ w. (refl, refl);
  auction_same = λ i w. (refl, refl);
  user_same = λ i w. (refl, refl);
  report_same = λ x w. (refl, refl);
}

-- User 2 has won the auction, which has ended.
abbrev refusal_morning : World
refusal_morning = record morning {
  stored = record atlas { status = ended; winner_id = some 2; win_amount = some 630 };
}

abbrev refusal : DeclineInput
refusal = record { payment_id = 70; user_id = 2 }

decline_payment-Ends_example :
    Post
      (λ x w'. Ends till status_view jobs_view 70 till-DeclineLaws refusal pending [] w')
      (Ends till status_view jobs_view 70 till-DeclineLaws refusal pending [])
      (decline_payment till refusal refusal_morning)
decline_payment-Ends_example =
    decline_payment-Ends till status_view jobs_view 70 till-DeclineLaws refusal pending []
      refusal_morning refl refl refl

-- The run declines the payment and puts the fallback in the queue.
declined_run :
    (status_view (decline_payment till refusal refusal_morning).1 ≡ declined)
    × (length (jobs_view (decline_payment till refusal refusal_morning).1) ≡ 1)
unfolding decline_payment try_decline decline_pending mark_as_declined pass_on report_decline
declined_run = (refl, refl)
