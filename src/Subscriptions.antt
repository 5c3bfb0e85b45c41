-- ===== src/Subscriptions.antt =====
-- How users subscribe: src/application/usecases/subscription/checkoutUserSubscription.usecase.ts and
-- src/infrastructure/services/subscription/subscription.service.ts, with the data of the webhook.
pub mod Events
pub mod Refund
pub mod Status
pub mod Webhooks
pub mod Checkouts
pub mod Calls
use auction_platform_backend.Prelude.{
  ℕ, ◌+◌, ◌-◌, ◌*◌, ◌/◌, Bool, true, false, Option, none, some, List, [], ◌∷◌, not, ◌&&◌, ◌||◌, ltb,
  leb, ◌==◌, is_id, or_else, if◌then◌else◌,
}
use auction_platform_backend.Prelude.Int.{pos}
use Prim.Native.String.{String}
use auction_platform_backend.Double.{floor_share}
use auction_platform_backend.Outcome.{
  M, return, give_up, gives, gets, require, fail_if, throw_if, or_catch, ◌>>=◌, ◌>>◌,
  already_subscribed, key_not_configured, plan_not_available, user_subscription_not_found,
  subscription_plan_not_found, event_missing, subscription_id_missing, invalid_event,
  webhook_failed,
}
use auction_platform_backend.Services.{Platform}
use auction_platform_backend.Creation.{ms_per_day}
use auction_platform_backend.Wallets.{service_credit}
use auction_platform_backend.Subscription.{
  SubscriptionPlan, UserSubscription, UserSubscriptionStatus, active, expired, is_active,
  is_pending, may_activate, UserSubscriptionRepository, SubscriptionPlanRepository,
}

-- The names of the events of Razorpay that the code tells apart.
pub data EventName : Type 0 where
  authenticated activated charged resumed : EventName
  pending halted cancelled completed paused : EventName
  blank other : EventName

-- `mapEventToDomainStatus`.
unfoldable pub map_event_to_domain_status : EventName → Option UserSubscriptionStatus
map_event_to_domain_status authenticated = some active
map_event_to_domain_status activated = some active
map_event_to_domain_status charged = some active
map_event_to_domain_status resumed = some active
map_event_to_domain_status pending = some UserSubscriptionStatus.pending
map_event_to_domain_status halted = some expired
map_event_to_domain_status cancelled = some expired
map_event_to_domain_status completed = some expired
map_event_to_domain_status paused = some expired
map_event_to_domain_status blank = none
map_event_to_domain_status other = none

-- What the gateway reads of a request whose signature it has verified.
pub record WebhookEvent : Type 0 where
  pub event : EventName
  pub subscription_id : Option ℕ

-- The parts of `IRazorpaySubscriptionGatewayService` that these use cases call. A request is known
-- by a number.
pub record SubscriptionGateway (W : Type 0) : Type 0 where
  pub verify_webhook_event : ℕ → M W WebhookEvent
  pub get_customer : ℕ → M W ℕ
  pub create_subscription : ℕ → ℕ → ℕ → M W ℕ

-- `IUserRepository.save` of a user with a new customer of the gateway.
pub record CustomerRepository (W : Type 0) : Type 0 where
  pub save_customer : ℕ → ℕ → M W (Unit {0})

-- `USER_SUBSCRIPTION_PLAN_UPGRADATION_REFUND_MAX_TIME`.
abbrev pub refund_max_time : ℕ
refund_max_time = 15 * 86400000

-- 9999-12-31T23:59:59.999Z.
abbrev pub infinite_end : ℕ
infinite_end = 253402300799999

-- `calculateRemainingPlanRefund`, of a price in whole units of the currency.
unfoldable pub remaining_plan_refund : ℕ → ℕ → ℕ → ℕ → ℕ
remaining_plan_refund start end price now =
    if leb price 0
    then 0
    else if leb end now
    then 0
    else if leb (end - now) refund_max_time
    then 0
    else if leb end start
    then 0
    else floor_share price (end - now) (end - start)

-- A subscription that the code makes: `UserSubscription.create`, which does not fail.
abbrev pub subscription : ℕ → ℕ → ℕ → Option ℕ → UserSubscriptionStatus → ℕ → ℕ → UserSubscription
subscription id user plan razorpay status start end = record {
  id = id;
  user_id = user;
  subscription_plan_id = plan;
  razorpay_subscription_id = razorpay;
  status = status;
  start_date = start;
  end_date = end;
  created_at = start;
  updated_at = start;
}

-- `setStatus(EXPIRED)` and `setEndDate(now)`.
abbrev pub ended_at : ℕ → UserSubscription → UserSubscription
ended_at now s = record s { status = expired; end_date = now }

-- `setStatus(ACTIVE)`, `setStartDate(now)` and `setEndDate(…)`.
abbrev pub activated_at : ℕ → SubscriptionPlan → UserSubscription → UserSubscription
activated_at now plan s = record s {
  status = active;
  start_date = now;
  end_date = now + plan.duration_days * ms_per_day;
}

abbrev pub is_missing : {A : Type 0} → Option A → Bool
is_missing none = true
is_missing (some a) = false

-- What checkout answers.
pub record CheckoutOutput : Type 0 where
  pub user_subscription_id : ℕ
  pub razorpay_subscription_id : Option ℕ

abbrev pub is_blank : EventName → Bool
is_blank blank = true
is_blank _ = false

abbrev pub new_output : ℕ → ℕ → CheckoutOutput
new_output id razorpay = record {
  user_subscription_id = id;
  razorpay_subscription_id = some razorpay;
}

abbrev pub checkout_output : UserSubscription → CheckoutOutput
checkout_output s = record {
  user_subscription_id = s.id;
  razorpay_subscription_id = s.razorpay_subscription_id;
}

-- What the container hands to these use cases.
pub record SubscriptionPlatform (W : Type 0) : Type 0 where
  pub platform : Platform W
  pub subs : UserSubscriptionRepository W
  pub plans : SubscriptionPlanRepository W
  pub gateway : SubscriptionGateway W
  pub customers : CustomerRepository W

module _ {W : Type 0} (d : SubscriptionPlatform W) where
  open d use {platform, subs, plans, gateway, customers}

  -- `assignDefaultSubscriptionToUser` once there is no current subscription. `none` stands for the
  -- success without a value. The clock is read once.
  unfoldable pub assign_plan : ℕ → Option SubscriptionPlan → M W (Option UserSubscription)
  assign_plan user none = return none
  assign_plan user (some plan) = do
    id ← gives platform.runtime.generate_id
    now ← gets platform.runtime.now
    saved ← subs.save (subscription id user plan.id none active now (now + 100000 * ms_per_day))
    return (some saved)

  unfoldable pub assign_missing : ℕ → Option UserSubscription → M W (Option UserSubscription)
  assign_missing user (some s) = return (some s)
  assign_missing user none = do found ← plans.find_active_default; assign_plan user found

  -- `SubscriptionService.assignDefaultSubscriptionToUser`.
  unfoldable pub assign_default_subscription_to_user : ℕ → M W (Option UserSubscription)
  assign_default_subscription_to_user user = do
    current ← subs.find_current_active_by_user_id user
    assign_missing user current

  -- The loop of checkout over the subscriptions of the user: a subscription of this plan that is
  -- active stops it, and one that is pending is given again.
  unfoldable pub find_pending : ℕ → List UserSubscription → M W (Option UserSubscription)
  find_pending plan_id [] = return none
  find_pending plan_id (s ∷ rest) = do
    now ← gets platform.runtime.now
    fail_if (s.subscription_plan_id == plan_id && (is_active s.status && ltb now s.end_date))
        already_subscribed
    if s.subscription_plan_id == plan_id && is_pending s.status
        then return (some s)
        else find_pending plan_id rest

  -- Checkout once no subscription is pending. A missing user row makes it throw, as reading its
  -- customer does. Days are taken as 24 hours.
  unfoldable pub start_subscription : ℕ → ℕ → M W CheckoutOutput
  start_subscription user plan_id = do
    found ← plans.find_by_id plan_id
    plan ← require found subscription_plan_not_found
    fail_if (not plan.is_active) plan_not_available
    razorpay_plan ← require plan.razorpay_plan_id plan_not_available
    row ← platform.users.find_by_id user
    now ← gets platform.runtime.now
    throw_if (is_missing row)
    customer ← gateway.get_customer user
    id ← gives platform.runtime.generate_id
    razorpay ← gateway.create_subscription razorpay_plan customer id
    customers.save_customer user customer
    saved ← subs.save (
        subscription id user plan.id (some razorpay) UserSubscriptionStatus.pending now
          (now + plan.duration_days * ms_per_day))
    return (new_output id razorpay)

  abbrev pub start_or_give : ℕ → ℕ → Option UserSubscription → M W CheckoutOutput
  start_or_give user plan_id (some s) = return (checkout_output s)
  start_or_give user plan_id none = start_subscription user plan_id

  -- `checkoutUserSubscriptionUsecase.execute`, with whether the key of the gateway is configured.
  unfoldable pub checkout : Bool → ℕ → ℕ → M W CheckoutOutput
  checkout has_key user plan_id = do
    rows ← subs.find_all_plans_by_user_id user
    fail_if (not has_key) key_not_configured
    open_one ← find_pending plan_id rows
    start_or_give user plan_id open_one
