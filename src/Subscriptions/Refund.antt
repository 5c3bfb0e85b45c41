-- ===== src/Subscriptions/Refund.antt =====
-- The refund of what is left of a plan: calculateRemainingPlanRefund.
use auction_platform_backend.Prelude.{
  ℕ, zero, suc, ◌+◌, ◌-◌, ◌*◌, ◌≤◌, ◌<◌, ◌≡◌, refl, Bool, true, false, leb, arith,
}
use auction_platform_backend.Double.{two_to_52, two_to_53, floor_share}
use auction_platform_backend.Double.Shares.{floor_share-IsNear}
use auction_platform_backend.Subscriptions.{remaining_plan_refund, refund_max_time}

refund_of :
    (start end price now : ℕ)
    → start ≤ now
    → now + refund_max_time < end
    → 0 < price
    → remaining_plan_refund start end price now ≡ floor_share price (end - now) (end - start)
unfolding remaining_plan_refund
refund_of start end price now h k l = ground arith

none_left :
    (start end price now : ℕ)
    → end ≤ now + refund_max_time
    → remaining_plan_refund start end price now ≡ 0
unfolding remaining_plan_refund
none_left start end price now k = ground arith

free : (start end now : ℕ) → remaining_plan_refund start end 0 now ≡ 0
unfolding remaining_plan_refund
free start end now = refl

-- The refund while more than fifteen days are left.
refund-near :
    (start end price now : ℕ)
    → start ≤ now
    → end < two_to_53
    → price ≤ two_to_52
    → now + refund_max_time < end
    → (remaining_plan_refund start end price now ≤ price)
      × (remaining_plan_refund start end price now * (end - start)
          ≤ price * (end - now) + (end - start))
      × (price * (end - now) < (remaining_plan_refund start end price now + 2) * (end - start))
refund-near start end zero now h short cheap k =
    rw (free start end now) (omega arith, omega arith, omega arith)
refund-near start end (suc n) now h short cheap k =
    rw (refund_of start end (suc n) now h k (omega arith)) (
      floor_share-IsNear (suc n) (end - now) (end - start) cheap (omega arith) (omega arith)
        (omega arith))

-- A refund is no more than the price of a plan that has started, and nothing is refunded in the last
-- fifteen days. Before that it is the price times the share of the time that is left, less than 2
-- too low and no more than 1 too high, as the share is computed in numbers of 53 bits; the price is at
-- most 2 ^ 52 and the end before 2 ^ 53 milliseconds.
pub remaining_plan_refund-IsShare :
    (start end price now : ℕ)
    → start ≤ now
    → end < two_to_53
    → price ≤ two_to_52
    → (remaining_plan_refund start end price now ≤ price)
      × (end ≤ now + refund_max_time → remaining_plan_refund start end price now ≡ 0)
      × (now + refund_max_time < end
          → (remaining_plan_refund start end price now * (end - start)
              ≤ price * (end - now) + (end - start))
            × (price * (end - now)
                < (remaining_plan_refund start end price now + 2) * (end - start)))
remaining_plan_refund-IsShare start end price now h short cheap = (
  go (leb end (now + refund_max_time)) refl,
  none_left start end price now,
  (λ k. let (bound, high, low) = refund-near start end price now h short cheap k in (high, low)),
)
  where
    go :
        (t : Bool)
        → leb end (now + refund_max_time) ≡ t
        → remaining_plan_refund start end price now ≤ price
    go true k = omega (arith, none_left start end price now (ground arith))
    go false k = (refund-near start end price now h short cheap (ground arith)).0
