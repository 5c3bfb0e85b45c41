-- ===== src/Subscriptions/Checkouts.antt =====
-- The status of a stored subscription through a checkout and a default subscription.
use auction_platform_backend.Prelude.{
  ℕ, Bool, true, false, not, ◌&&◌, Option, none, some, List, [], ◌∷◌, ltb, ◌+◌, ◌*◌, ◌==◌,
  if◌then◌else◌,
}
use auction_platform_backend.Outcome.{
  Outcome, and_then, return, gets, gives, throw_if, ◌>>=◌, subscription_plan_not_found,
  already_subscribed, key_not_configured, plan_not_available,
}
use auction_platform_backend.Outcome.World.{
  after-and_then, after-guarded, after-required, after-thrown,
}
use auction_platform_backend.Services.{User}
use auction_platform_backend.Subscription.{
  SubscriptionPlan, UserSubscription, UserSubscriptionStatus, is_active, is_pending,
}
use auction_platform_backend.Creation.{ms_per_day}
use auction_platform_backend.Subscriptions.{
  SubscriptionPlatform, subscription, new_output, start_or_give, is_missing, assign_plan,
  assign_missing, assign_default_subscription_to_user, find_pending, start_subscription, checkout,
}
use auction_platform_backend.Subscriptions.Status.{SubscriptionLaws, Fine, kept, saved}

module _ {W : Type 0} (d : SubscriptionPlatform W) (view : W → UserSubscriptionStatus) (k : ℕ)
    (laws : SubscriptionLaws d view k) (s : UserSubscriptionStatus) where
  open d use {platform, subs, plans, gateway, customers}

  -- Checkout reads rows, then saves one of a new identifier.
  find_pending-Fine :
      (plan_id : ℕ) (rows : List UserSubscription) (w : W)
      → Fine d view k laws s w
      → Fine d view k laws s (find_pending d plan_id rows w).1
  unfolding find_pending
  find_pending-Fine plan_id [] w h = h
  find_pending-Fine plan_id (x ∷ rest) w h =
      let now = platform.runtime.now w in
      after-guarded (Fine d view k laws s)
        (x.subscription_plan_id == plan_id && (is_active x.status && ltb now x.end_date))
        already_subscribed w _ h
        (λ q.
          go (x.subscription_plan_id == plan_id && is_pending x.status)
            (find_pending-Fine plan_id rest w h))
    where
      go :
          (t : Bool)
          → Fine d view k laws s (find_pending d plan_id rest w).1
          → Fine d view k laws s ((if t then return (some x) else find_pending d plan_id rest) w).1
      go true i = h
      go false i = i

  start-Fine :
      (user plan_id : ℕ) (w : W)
      → Fine d view k laws s w
      → Fine d view k laws s (start_subscription d user plan_id w).1
  unfolding start_subscription
  start-Fine user plan_id w h =
      after-and_then (Fine d view k laws s) (plans.find_by_id plan_id w) _
        (kept d view k laws s (plans.find_by_id plan_id) w (laws.plan_keeps plan_id) h)
        (λ o w1 h1.
          after-required (Fine d view k laws s) o subscription_plan_not_found w1 _ h1 (λ plan q.
            after-guarded (Fine d view k laws s) (not plan.is_active) plan_not_available w1 _ h1
              (λ sold.
                after-required (Fine d view k laws s) plan.razorpay_plan_id plan_not_available w1 _
                  h1
                  (λ i r. from_user plan i (platform.users.find_by_id user w1) (
                    kept d view k laws s (platform.users.find_by_id user) w1 (laws.user_keeps user)
                      h1)))))
    where
      from_user :
          (plan : SubscriptionPlan) (i : ℕ) (r : Outcome (Option User) × W)
          → Fine d view k laws s r.1
          → Fine d view k laws s
              (and_then r (λ row. gets platform.runtime.now >>= λ now.
                throw_if (is_missing row) >>= λ u. gateway.get_customer user >>= λ c.
                gives platform.runtime.generate_id >>= λ id.
                gateway.create_subscription i c id >>= λ razorpay.
                customers.save_customer user c >>= λ v.
                subs.save (
                  subscription id user plan.id
                    (some razorpay)
                    UserSubscriptionStatus.pending
                    now
                    (now + plan.duration_days * ms_per_day))
                >>= λ y. return (new_output id razorpay))).1
      from_user plan i r h = after-and_then (Fine d view k laws s) r _ h (λ row w2 h2.
          after-thrown (Fine d view k laws s) (is_missing row) w2 _ h2 (λ there.
            after-and_then (Fine d view k laws s) (gateway.get_customer user w2) _
              (kept d view k laws s (gateway.get_customer user) w2 (laws.customer_keeps user) h2)
              (λ c w3 h3.
                let (id, w4) = platform.runtime.generate_id w3 in
                after-and_then (Fine d view k laws s) (gateway.create_subscription i c id w4) _
                  (kept d view k laws s (gateway.create_subscription i c id) w4
                    (laws.create_keeps i c id) (rw (laws.id_keeps w3) h3))
                  (λ razorpay w5 h5.
                    after-and_then (Fine d view k laws s) (customers.save_customer user c w5) _
                      (kept d view k laws s (customers.save_customer user c) w5
                        (laws.save_customer_keeps user c) h5)
                      (λ v w6 h6.
                        after-and_then (Fine d view k laws s) (subs.save _ w6) _
                          (saved d view k laws s _ w6 (λ j. absurd (laws.id_fresh w3 j)) h6)
                          (λ y w7 h7. h7))))))

  pub checkout-Fine :
      (key : Bool) (user plan_id : ℕ) (w : W)
      → Fine d view k laws s w
      → Fine d view k laws s (checkout d key user plan_id w).1
  unfolding checkout
  checkout-Fine key user plan_id w h =
      after-and_then (Fine d view k laws s) (subs.find_all_plans_by_user_id user w) _
        (kept d view k laws s (subs.find_all_plans_by_user_id user) w (laws.all_keeps user) h)
        (λ rows w1 h1.
          after-guarded (Fine d view k laws s) (not key) key_not_configured w1 _ h1 (λ set.
            after-and_then (Fine d view k laws s) (find_pending d plan_id rows w1) _
              (find_pending-Fine plan_id rows w1 h1) (λ o w2 h2. last o w2 h2)))
    where
      last :
          (o : Option UserSubscription) (w2 : W)
          → Fine d view k laws s w2
          → Fine d view k laws s (start_or_give d user plan_id o w2).1
      last none w2 h2 = start-Fine user plan_id w2 h2
      last (some x) w2 h2 = h2

  pub assign-Fine :
      (user : ℕ) (w : W)
      → Fine d view k laws s w
      → Fine d view k laws s (assign_default_subscription_to_user d user w).1
  unfolding assign_default_subscription_to_user assign_missing assign_plan
  assign-Fine user w h =
      after-and_then (Fine d view k laws s) (subs.find_current_active_by_user_id user w) _
        (kept d view k laws s (subs.find_current_active_by_user_id user) w (laws.current_keeps user)
          h)
        (λ o w1 h1. missing o w1 h1)
    where
      assigned :
          (o : Option SubscriptionPlan) (w2 : W)
          → Fine d view k laws s w2
          → Fine d view k laws s (assign_plan d user o w2).1
      assigned none w2 h2 = h2
      assigned (some plan) w2 h2 =
          after-and_then (Fine d view k laws s) (subs.save _ (platform.runtime.generate_id w2).1) _
            (saved d view k laws s _ (platform.runtime.generate_id w2).1
              (λ i. absurd (laws.id_fresh w2 i)) (rw (laws.id_keeps w2) h2))
            (λ y w3 h3. h3)

      missing :
          (o : Option UserSubscription) (w1 : W)
          → Fine d view k laws s w1
          → Fine d view k laws s (assign_missing d user o w1).1
      missing (some x) w1 h1 = h1
      missing none w1 h1 =
          after-and_then (Fine d view k laws s) (plans.find_active_default w1) _
            (kept d view k laws s plans.find_active_default w1 laws.default_keeps h1)
            (λ o w2 h2. assigned o w2 h2)
