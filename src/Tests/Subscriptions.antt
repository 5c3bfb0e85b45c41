-- ===== src/Tests/Subscriptions.antt =====
-- Subscriptions at concrete inputs.
use auction_platform_backend.Prelude.{
  ℕ, ◌+◌, ◌*◌, ◌-◌, ◌≤◌, ◌<◌, ◌≡◌, refl, ◌⊎◌, inl, inr, Bool, true, false, none, some, List, [],
  ◌∷◌, ◌==◌, arith, if◌then◌else◌,
}
use auction_platform_backend.Outcome.{done, bids_of_plan_used_up}
use auction_platform_backend.Outcome.Verdict.{Verdict}
use auction_platform_backend.Subscription.{
  SubscriptionPlan, UserSubscription, UserSubscriptionStatus, auction_bidding, number, numeral,
  UserSubscriptionRepository, SubscriptionPlanRepository, PlanCache, UsageRepository,
}
use auction_platform_backend.Plans.{feature_value, default_bids, plan_allows_bid}
use auction_platform_backend.Plans.Limits.{
  Allows, IsUsedUp, LimitLaws, HasPlan, plan_allows_bid-Verdict,
}
use auction_platform_backend.Subscriptions.{
  SubscriptionPlatform, activated, halted, WebhookEvent, refund_max_time, remaining_plan_refund,
}
use auction_platform_backend.Double.{floor_share, round_bits, last_bit, doublings, round_div}
use auction_platform_backend.Subscriptions.Refund.{remaining_plan_refund-IsShare}
use auction_platform_backend.Subscriptions.Status.{Becomes, SubscriptionLaws}
use auction_platform_backend.Subscriptions.Calls.{
  Call, webhook, check_out, assign, run_all, run_all-Becomes,
}
use auction_platform_backend.Tests.Memory.{World, memory}
use auction_platform_backend.Tests.Samples.{evening, gold_of_ann}

abbrev gold : SubscriptionPlan
gold = record {
  id = 5;
  name = "gold";
  description = "two bids";
  price = 900;
  duration_days = 30;
  is_default = false;
  is_active = true;
  razorpay_plan_id = some 6;
  features =
      record { id = 1; feature_key = auction_bidding; value_type = number; value = numeral 2 } ∷ [];
}

-- Request 1 activates a subscription, any other one halts it.
abbrev read_event : ℕ → WebhookEvent
read_event request = record {
  event = if request == 1 then activated else halted;
  subscription_id = some 77;
}

abbrev pub desk : SubscriptionPlatform World
desk = record {
  platform = record memory {
    runtime = record {
      generate_id = λ w. (w.next_id + 51, record w { next_id = w.next_id + 1 });
      now = λ w. w.clock;
    };
  };
  subs = record {
    find_current_active_by_user_id = λ u w. (done none, w);
    find_by_razorpay_subscription_id = λ i w. (done (some w.enrolled), w);
    find_all_plans_by_user_id = λ u w. (done (w.enrolled ∷ []), w);
    save = λ s w. (done s, if s.id == 50 then record w { enrolled = s } else w);
  };
  plans = record {
    find_by_id = λ i w. (done (some gold), w);
    find_active_default = λ w. (done (some gold), w);
  };
  gateway = record {
    verify_webhook_event = λ r w. (done (read_event r), w);
    get_customer = λ u w. (done 1, w);
    create_subscription = λ i c n w. (done 78, w);
  };
  customers = record { save_customer = λ u c w. (done tt, w) };
}

abbrev enrolled_view : World → UserSubscriptionStatus
enrolled_view w = w.enrolled.status

enrolled_save :
    (s : UserSubscription) (w : World) (t : Bool)
    → (s.id == 50) ≡ t
    → (enrolled_view (if t then record w { enrolled = s } else w) ≡ enrolled_view w)
      ⊎ ((s.id ≡ 50) × (enrolled_view (if t then record w { enrolled = s } else w) ≡ s.status))
enrolled_save s w true e = inr (ground arith, refl)
enrolled_save s w false e = inl refl

desk-SubscriptionLaws : SubscriptionLaws desk enrolled_view 50
desk-SubscriptionLaws = record {
  id_keeps = λ w. refl;
  id_fresh = λ w h. absurd (omega (arith, h));
  wallet_keeps = λ u w. refl;
  wallet_save_keeps = λ x w. ground arith;
  entry_keeps = λ t w. refl;
  user_keeps = λ u w. refl;
  plan_keeps = λ i w. refl;
  default_keeps = λ w. refl;
  verify_keeps = λ r w. refl;
  customer_keeps = λ u w. refl;
  create_keeps = λ i c n w. refl;
  save_customer_keeps = λ u c w. refl;
  current_keeps = λ u w. refl;
  all_keeps = λ u w. refl;
  razorpay_keeps = λ i w. refl;
  razorpay_law = λ i w s e j. ground arith;
  save_law = λ s w. enrolled_save s w (s.id == 50) refl;
}

-- Paid, halted, and paid again.
abbrev calls : List Call
calls = webhook 1 ∷ check_out true 1 5 ∷ webhook 2 ∷ assign 1 ∷ webhook 1 ∷ []

run_all-Becomes_example :
    Becomes (enrolled_view evening) (enrolled_view (run_all desk calls evening))
run_all-Becomes_example = run_all-Becomes desk enrolled_view 50 desk-SubscriptionLaws calls evening

remaining_plan_refund-IsShare_example :
    (remaining_plan_refund 0 8640000000 100 6134400000 ≤ 100)
    × (8640000000 ≤ 6134400000 + refund_max_time
        → remaining_plan_refund 0 8640000000 100 6134400000 ≡ 0)
    × (6134400000 + refund_max_time < 8640000000
        → (remaining_plan_refund 0 8640000000 100 6134400000 * (8640000000 - 0)
            ≤ 100 * (8640000000 - 6134400000) + (8640000000 - 0))
          × (100 * (8640000000 - 6134400000)
              < (remaining_plan_refund 0 8640000000 100 6134400000 + 2) * (8640000000 - 0)))
remaining_plan_refund-IsShare_example =
    remaining_plan_refund-IsShare 0 8640000000 100 6134400000 (omega arith) (omega arith)
      (omega arith)

-- With 29 of 100 days left of a plan of price 100, the code refunds 28.
refund_run : remaining_plan_refund 0 8640000000 100 6134400000 ≡ 28
unfolding remaining_plan_refund floor_share round_bits last_bit doublings round_div
refund_run = refl

-- With a half left, it is a half.
half_run : floor_share 900 1296000000 2592000000 ≡ 450
unfolding floor_share round_bits last_bit doublings round_div
half_run = refl

-- The tables of the limits: user 1 has bid twice in every auction, on plan 5.
abbrev enrolled_rows : UserSubscriptionRepository World
enrolled_rows = record desk.subs {
  find_current_active_by_user_id = λ u w. (done (some gold_of_ann), w);
}

abbrev plan_rows : SubscriptionPlanRepository World
plan_rows = record {
  find_by_id = λ i w. (done (some gold), w);
  find_active_default = λ w. (done none, w);
}

-- The cache still holds gold as it was, with one bid more.
abbrev old_gold : SubscriptionPlan
old_gold = record gold {
  features =
      record { id = 1; feature_key = auction_bidding; value_type = number; value = numeral 3 } ∷ [];
}

abbrev old_cache : PlanCache World
old_cache = record { get = λ i w. (done (some old_gold), w); set = λ i x w. (done tt, w) }

abbrev usage_rows : UsageRepository World
usage_rows = record { auctions_of_seller = λ u w. (done 0, w); bids_of_user = λ a u w. (done 2, w) }

rows-LimitLaws :
    LimitLaws enrolled_rows plan_rows old_cache usage_rows
      (λ u. some gold_of_ann)
      (λ i. some gold)
      (λ i. some old_gold)
      (λ u. 0)
      (λ a u. 2)
rows-LimitLaws = record {
  current_law = λ u w. refl;
  plan_law = λ i w. refl;
  cache_law = λ i w x h. inr h;
  auctions_law = λ u w. refl;
  bids_law = λ a u w. refl;
}

plan_allows_bid-Verdict_example :
    Verdict
      (λ b.
        (b ≡ true)
        × ((x : SubscriptionPlan) × HasPlan enrolled_rows plan_rows old_cache usage_rows
              (λ u. some gold_of_ann)
              (λ i. some gold)
              (λ i. some old_gold)
              (λ u. 0)
              (λ a u. 2)
              1
              x
            × Allows (feature_value auction_bidding default_bids x) 2))
      (λ e.
        e ≡ bids_of_plan_used_up
        → (x : SubscriptionPlan) × HasPlan enrolled_rows plan_rows old_cache usage_rows
            (λ u. some gold_of_ann)
            (λ i. some gold)
            (λ i. some old_gold)
            (λ u. 0)
            (λ a u. 2)
            1
            x
          × IsUsedUp (feature_value auction_bidding default_bids x) 2)
      (plan_allows_bid enrolled_rows plan_rows old_cache usage_rows 1 7 evening)
plan_allows_bid-Verdict_example =
    plan_allows_bid-Verdict enrolled_rows plan_rows old_cache usage_rows (λ u. some gold_of_ann)
      (λ i. some gold) (λ i. some old_gold) (λ u. 0) (λ a u. 2) rows-LimitLaws 1 7 evening
