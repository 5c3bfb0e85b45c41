-- ===== src/Subscriptions/Webhooks.antt =====
-- The status of a stored subscription through a webhook.
use auction_platform_backend.Prelude.{
  ℕ, ◌≡◌, ◌∙◌, sym, refl, Bool, true, false, not, ◌&&◌, Option, none, some, ltb, ◌*◌, ◌==◌, arith,
  if◌then◌else◌,
}
use auction_platform_backend.Prelude.Int.{pos}
use auction_platform_backend.Outcome.{
  Outcome, done, failed, thrown, return, require, ◌>>=◌, ◌>>◌, subscription_plan_not_found,
  event_missing, subscription_id_missing, invalid_event, user_subscription_not_found,
  webhook_failed,
}
use auction_platform_backend.Outcome.Post.{Post}
use auction_platform_backend.Outcome.World.{
  after-and_then, after-Post, after-guarded, after-required, after-caught,
}
use auction_platform_backend.Wallets.{service_credit}
use auction_platform_backend.Subscription.{
  SubscriptionPlan, UserSubscription, UserSubscriptionStatus, active, expired, payment_failed,
  is_active, may_activate,
}
use auction_platform_backend.Subscriptions.{
  SubscriptionPlatform, map_event_to_domain_status, remaining_plan_refund, ended_at, activated_at,
  is_blank,
}
use auction_platform_backend.Subscriptions.Events.{
  pay_refund, close_current, activate, fall_back_to, expire, apply_status, follow_event,
  try_webhook, handle_webhook,
}
use auction_platform_backend.Subscriptions.Status.{
  Becomes, stays, starts, ends, SubscriptionLaws, Fine, kept, saved, saved_last, credit-Fine,
}

may_of : (t : UserSubscriptionStatus) → not (may_activate t) ≡ false → may_activate t ≡ true
may_of t h = ground arith

module _ {W : Type 0} (d : SubscriptionPlatform W) (view : W → UserSubscriptionStatus) (k : ℕ)
    (laws : SubscriptionLaws d view k) (s : UserSubscriptionStatus) where
  open d use {platform, subs, plans, gateway, customers}

  refund-Fine :
      (u n : ℕ) (t : Bool) (w : W)
      → Fine d view k laws s w
      → Fine d view k laws s ((if t then service_credit platform u (pos n) else return tt) w).1
  refund-Fine u n true w h = credit-Fine d view k laws s u (pos n) w h
  refund-Fine u n false w h = h

  close_current-Fine :
      (x : UserSubscription) (now : ℕ) (o : Option UserSubscription) (w : W)
      → Fine d view k laws s w
      → Fine d view k laws s (close_current d x now o w).1
  unfolding close_current pay_refund
  close_current-Fine x now none w h = h
  close_current-Fine x now (some c) w h = go (c.id == x.id)
    where
      go :
          (t : Bool)
          → Fine d view k laws s
              ((if t
                  then return tt
                  else (plans.find_by_id c.subscription_plan_id >>= λ found.
                      require found subscription_plan_not_found >>= λ plan.
                      pay_refund d x.user_id
                        (remaining_plan_refund c.start_date c.end_date plan.price now)
                      >> (subs.save (ended_at now c) >> return tt)))
                w).1
      go true = h
      go false =
          after-and_then (Fine d view k laws s) (plans.find_by_id c.subscription_plan_id w) _
            (kept d view k laws s (plans.find_by_id c.subscription_plan_id) w
              (laws.plan_keeps c.subscription_plan_id) h)
            (λ o w1 h1.
              after-required (Fine d view k laws s) o subscription_plan_not_found w1 _ h1 (λ plan e.
                let n = remaining_plan_refund c.start_date c.end_date plan.price now in
                after-and_then (Fine d view k laws s) (pay_refund d x.user_id n w1) _
                  (refund-Fine x.user_id (n * 10000) (ltb 0 n) w1 h1)
                  (λ u w2 h2. saved_last d view k laws s (ended_at now c) w2 (λ i. ends) h2)))

  activate-Fine :
      (x : UserSubscription) (plan : SubscriptionPlan) (now : ℕ) (w : W)
      → (x.id ≡ k → Becomes s active)
      → Fine d view k laws s w
      → Fine d view k laws s (activate d x plan now w).1
  unfolding activate
  activate-Fine x plan now w may h =
      after-and_then (Fine d view k laws s) (subs.find_current_active_by_user_id x.user_id w) _
        (kept d view k laws s (subs.find_current_active_by_user_id x.user_id) w
          (laws.current_keeps x.user_id) h)
        (λ o w1 h1.
          after-and_then (Fine d view k laws s) (close_current d x now o w1) _
            (close_current-Fine x now o w1 h1)
            (λ u w2 h2. saved_last d view k laws s (activated_at now plan x) w2 may h2))

  fall_back_to-Fine :
      (x : UserSubscription) (now : ℕ) (o : Option SubscriptionPlan) (w : W)
      → Fine d view k laws s w
      → Fine d view k laws s (fall_back_to d x now o w).1
  unfolding fall_back_to
  fall_back_to-Fine x now none w h = h
  fall_back_to-Fine x now (some plan) w h =
      let (id, w1) = platform.runtime.generate_id w in
      after-and_then (Fine d view k laws s) (subs.save _ w1) _
        (saved d view k laws s _ w1 (λ i. absurd (laws.id_fresh w i)) (rw (laws.id_keeps w) h))
        (λ u w2 h2. saved_last d view k laws s (ended_at now x) w2 (λ i. ends) h2)

  follow_event-Fine :
      (t : UserSubscriptionStatus) (x : UserSubscription) (w : W)
      → (x.id ≡ k → x.status ≡ s)
      → Fine d view k laws s w
      → Fine d view k laws s (follow_event d t x w).1
  unfolding follow_event apply_status expire
  follow_event-Fine t x w same h = go (is_active t && not (may_activate x.status)) refl
    where
      as_it_is :
          (w1 : W)
          → Fine d view k laws s w1
          → Fine d view k laws s ((subs.save x >> return tt) w1).1
      as_it_is w1 h1 = saved_last d view k laws s x w1 (λ i. rw (same i) stays) h1

      branch :
          (u : UserSubscriptionStatus) (plan : SubscriptionPlan) (w1 : W)
          → (is_active u && not (may_activate x.status)) ≡ false
          → Fine d view k laws s w1
          → Fine d view k laws s (apply_status d u x plan w1).1
      branch active plan w1 e h1 =
          activate-Fine x plan (platform.runtime.now w1) w1
            (λ i. starts (rw (sym (same i)) (may_of x.status e))) h1
      branch expired plan w1 e h1 =
          after-and_then (Fine d view k laws s) (plans.find_active_default w1) _
            (kept d view k laws s plans.find_active_default w1 laws.default_keeps h1)
            (λ o w2 h2. fall_back_to-Fine x (platform.runtime.now w1) o w2 h2)
      branch UserSubscriptionStatus.pending plan w1 e h1 = as_it_is w1 h1
      branch UserSubscriptionStatus.cancelled plan w1 e h1 = as_it_is w1 h1
      branch payment_failed plan w1 e h1 = as_it_is w1 h1

      go :
          (c : Bool)
          → (is_active t && not (may_activate x.status)) ≡ c
          → Fine d view k laws s
              ((if c
                  then return tt
                  else (plans.find_by_id x.subscription_plan_id >>= λ found.
                      require found subscription_plan_not_found >>= λ plan.
                      apply_status d t x plan))
                w).1
      go true e = h
      go false e =
          after-and_then (Fine d view k laws s) (plans.find_by_id x.subscription_plan_id w) _
            (kept d view k laws s (plans.find_by_id x.subscription_plan_id) w
              (laws.plan_keeps x.subscription_plan_id) h)
            (λ o w1 h1.
              after-required (Fine d view k laws s) o subscription_plan_not_found w1 _ h1
                (λ plan q. branch t plan w1 e h1))

  pub webhook-Fine :
      (request : ℕ) (w : W) → view w ≡ s → Fine d view k laws s (handle_webhook d request w).1
  unfolding handle_webhook try_webhook
  webhook-Fine request w here =
      after-caught (Fine d view k laws s) (try_webhook d request w) webhook_failed (
        after-Post (Fine d view k laws s) (λ e w1. view w1 ≡ s)
          (gateway.verify_webhook_event request w) _
          (steady (gateway.verify_webhook_event request w) (laws.verify_keeps request w ∙ here))
          (λ e w1 here1.
            after-guarded (Fine d view k laws s) (is_blank e.event) event_missing w1 _
              (rw here1 stays)
              (λ named.
                after-required (Fine d view k laws s) e.subscription_id subscription_id_missing w1 _
                  (rw here1 stays)
                  (λ i q.
                    after-Post (Fine d view k laws s)
                      (λ o w2.
                        Fine d view k laws s w2
                        × ((x : UserSubscription) → o ≡ some x → x.id ≡ k → x.status ≡ s))
                      (subs.find_by_razorpay_subscription_id i w1) _
                      (found (subs.find_by_razorpay_subscription_id i w1)
                        (laws.razorpay_keeps i w1 ∙ here1) (rw here1 at (laws.razorpay_law i w1)))
                      (λ o w2 (h2, f).
                        after-required (Fine d view k laws s) o user_subscription_not_found w2 _ h2
                          (λ x r.
                            after-required (Fine d view k laws s)
                              (map_event_to_domain_status e.event) invalid_event w2 _ h2
                              (λ t m. follow_event-Fine t x w2 (f x r) h2)))))))
    where
      steady :
          {A : Type 0} (r : Outcome A × W)
          → view r.1 ≡ s
          → Post (λ (x : A) w1. view w1 ≡ s) (Fine d view k laws s) r
      steady (done x, w1) q = q
      steady (failed x, w1) q = rw q stays
      steady (thrown, w1) q = rw q stays

      found :
          (r : Outcome (Option UserSubscription) × W)
          → view r.1 ≡ s
          → Post
              (λ o w1. (x : UserSubscription) → o ≡ some x → x.id ≡ k → x.status ≡ s)
              (λ w1. Unit {0})
              r
          → Post
              (λ o w1.
                Fine d view k laws s w1
                × ((x : UserSubscription) → o ≡ some x → x.id ≡ k → x.status ≡ s))
              (Fine d view k laws s)
              r
      found (done o, w1) q f = (rw q stays, f)
      found (failed x, w1) q f = rw q stays
      found (thrown, w1) q f = rw q stays
