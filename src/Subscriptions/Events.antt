-- ===== src/Subscriptions/Events.antt =====
-- What an event of the gateway does to a subscription:
-- src/application/usecases/webhook/razorpaySubscriptionWebhookHandler.usecase.ts.
use auction_platform_backend.Prelude.{
  ℕ, ◌*◌, Option, none, some, not, ◌&&◌, ltb, ◌==◌, if◌then◌else◌,
}
use auction_platform_backend.Prelude.Int.{pos}
use auction_platform_backend.Outcome.{
  M, return, gives, gets, require, fail_if, or_catch, ◌>>=◌, ◌>>◌, user_subscription_not_found,
  subscription_plan_not_found, event_missing, subscription_id_missing, invalid_event,
  webhook_failed,
}
use auction_platform_backend.Wallets.{service_credit}
use auction_platform_backend.Subscription.{
  SubscriptionPlan, UserSubscription, UserSubscriptionStatus, active, expired, is_active,
  may_activate,
}
use auction_platform_backend.Subscriptions.{
  map_event_to_domain_status, infinite_end, remaining_plan_refund, subscription, ended_at,
  activated_at, is_blank, SubscriptionPlatform,
}

module _ {W : Type 0} (d : SubscriptionPlatform W) where
  open d use {platform, subs, plans, gateway, customers}

  -- The refund of what is left of the current subscription, if there is any.
  unfoldable pub pay_refund : ℕ → ℕ → M W (Unit {0})
  pay_refund user n = if ltb 0 n then service_credit platform user (pos (n * 10000)) else return tt

  -- The current subscription of the user ends when another one starts.
  unfoldable pub close_current : UserSubscription → ℕ → Option UserSubscription → M W (Unit {0})
  close_current s now none = return tt
  close_current s now (some current) = if current.id == s.id then return tt else do
    found ← plans.find_by_id current.subscription_plan_id
    plan ← require found subscription_plan_not_found
    pay_refund s.user_id (remaining_plan_refund current.start_date current.end_date plan.price now)
    saved ← subs.save (ended_at now current)
    return tt

  unfoldable pub activate : UserSubscription → SubscriptionPlan → ℕ → M W (Unit {0})
  activate s plan now = do
    current ← subs.find_current_active_by_user_id s.user_id
    close_current s now current
    saved ← subs.save (activated_at now plan s)
    return tt

  -- Without a default plan the use case returns before it saves the subscription.
  unfoldable pub fall_back_to : UserSubscription → ℕ → Option SubscriptionPlan → M W (Unit {0})
  fall_back_to s now none = return tt
  fall_back_to s now (some plan) = do
    id ← gives platform.runtime.generate_id
    made ← subs.save (subscription id s.user_id plan.id none active now infinite_end)
    saved ← subs.save (ended_at now s)
    return tt

  unfoldable pub expire : UserSubscription → ℕ → M W (Unit {0})
  expire s now = do found ← plans.find_active_default; fall_back_to s now found

  -- The branch of the status; the other events save the subscription as it is.
  unfoldable pub apply_status :
      UserSubscriptionStatus → UserSubscription → SubscriptionPlan → M W (Unit {0})
  apply_status status s plan = do
    now ← gets platform.runtime.now
    elim status [
      | active ↦ activate s plan now
      | expired ↦ expire s now
      | _ ↦ do saved ← subs.save s; return tt
    ]

  unfoldable pub follow_event : UserSubscriptionStatus → UserSubscription → M W (Unit {0})
  follow_event status s = if is_active status && not (may_activate s.status) then return tt else do
    found ← plans.find_by_id s.subscription_plan_id
    plan ← require found subscription_plan_not_found
    apply_status status s plan

  -- The body of the `try` block.
  unfoldable pub try_webhook : ℕ → M W (Unit {0})
  try_webhook request = do
    e ← gateway.verify_webhook_event request
    fail_if (is_blank e.event) event_missing
    razorpay ← require e.subscription_id subscription_id_missing
    found ← subs.find_by_razorpay_subscription_id razorpay
    s ← require found user_subscription_not_found
    status ← require (map_event_to_domain_status e.event) invalid_event
    follow_event status s

  -- `RazorpaySubscriptionWebhookHandlerUsecase.execute`.
  unfoldable pub handle_webhook : ℕ → M W (Unit {0})
  handle_webhook request = or_catch (try_webhook request) webhook_failed
