-- ===== src/Subscriptions/Calls.antt =====
-- Any sequence of webhooks, checkouts and default subscriptions.
use auction_platform_backend.Prelude.{ℕ, refl, Bool, List, [], ◌∷◌}
use auction_platform_backend.Subscription.{UserSubscriptionStatus}
use auction_platform_backend.Subscriptions.{
  SubscriptionPlatform, checkout, assign_default_subscription_to_user,
}
use auction_platform_backend.Subscriptions.Events.{handle_webhook}
use auction_platform_backend.Subscriptions.Status.{Becomes, stays, Becomes-trans, SubscriptionLaws}
use auction_platform_backend.Subscriptions.Webhooks.{webhook-Fine}
use auction_platform_backend.Subscriptions.Checkouts.{checkout-Fine, assign-Fine}

pub data Call : Type 0 where
  webhook : ℕ → Call
  check_out : Bool → ℕ → ℕ → Call
  assign : ℕ → Call

module _ {W : Type 0} (d : SubscriptionPlatform W) where
  unfoldable pub run : Call → W → W
  run (webhook request) w = (handle_webhook d request w).1
  run (check_out key user plan_id) w = (checkout d key user plan_id w).1
  run (assign user) w = (assign_default_subscription_to_user d user w).1

  unfoldable pub run_all : List Call → W → W
  run_all [] w = w
  run_all (c ∷ cs) w = run_all cs (run c w)

module _ {W : Type 0} (d : SubscriptionPlatform W) (view : W → UserSubscriptionStatus) (k : ℕ)
    (laws : SubscriptionLaws d view k) where
  run-Becomes : (c : Call) (w : W) → Becomes (view w) (view (run d c w))
  unfolding run
  run-Becomes (webhook request) w = webhook-Fine d view k laws (view w) request w refl
  run-Becomes (check_out key user plan_id) w =
      checkout-Fine d view k laws (view w) key user plan_id w stays
  run-Becomes (assign user) w = assign-Fine d view k laws (view w) user w stays

  -- Through any sequence of webhooks, checkouts and default subscriptions, however each of them
  -- ends, the status of a subscription stays, becomes expired, or becomes active if it was pending,
  -- failed in payment or active; so an expired or cancelled one is never active again.
  pub run_all-Becomes : (cs : List Call) (w : W) → Becomes (view w) (view (run_all d cs w))
  unfolding run_all
  run_all-Becomes [] w = stays
  run_all-Becomes (c ∷ cs) w = Becomes-trans (run-Becomes c w) (run_all-Becomes cs (run d c w))
