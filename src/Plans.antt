-- ===== src/Plans.antt =====
-- What the plan of a user allows: src/infrastructure/services/subscription/
-- subscription-config.service.ts.
pub mod Limits
use auction_platform_backend.Prelude.{
  ℕ, zero, suc, Bool, true, false, Option, none, some, List, [], ◌∷◌, leb, find, if◌then◌else◌,
}
use auction_platform_backend.Outcome.{
  M, return, attempt, require, fail_if, ◌>>=◌, ◌>>◌, user_subscription_not_found,
  subscription_plan_not_found, bids_of_plan_used_up, auctions_of_plan_used_up,
}
use auction_platform_backend.Subscription.{
  SubscriptionFeatureKey, auction_creation, auction_bidding, ai_agent, SubscriptionFeatureValueType,
  boolean, number, string, FeatureValue, numeral, word, PlanFeature, SubscriptionPlan,
  UserSubscriptionRepository, SubscriptionPlanRepository, PlanCache, UsageRepository,
}
use text.Mathlib.Text.{◌==◌}

-- `DEFAULT_AUCTION_CREATE_FEATURE_VALUE` and `DEFAULT_AUCTION_BIDDING_FEATURE_VALUE`.
abbrev pub default_auctions : ℕ
default_auctions = 10

abbrev pub default_bids : ℕ
default_bids = 10

abbrev pub has_key : SubscriptionFeatureKey → PlanFeature → Bool
has_key auction_creation f = elim f.feature_key [ auction_creation ↦ true | _ ↦ false ]
has_key auction_bidding f = elim f.feature_key [ auction_bidding ↦ true | _ ↦ false ]
has_key ai_agent f = elim f.feature_key [ ai_agent ↦ true | _ ↦ false ]

-- `getFeatures().find(…)?.getValue() ?? String(default)`.
unfoldable pub feature_value : SubscriptionFeatureKey → ℕ → SubscriptionPlan → FeatureValue
feature_value key default plan = elim (find (has_key key) plan.features) [
  | none ↦ numeral default
  | some f ↦ f.value
]

-- `used >= Number(value)`: a word is not a number, and no comparison with it holds.
abbrev pub reaches : ℕ → FeatureValue → Bool
reaches used (numeral n) = leb n used
reaches used (word t) = false

abbrev pub is_one : ℕ → Bool
is_one (suc zero) = true
is_one _ = false

abbrev pub is_positive : FeatureValue → Bool
is_positive (numeral n) = leb 1 n
is_positive (word t) = false

-- `['true', '1', 'yes'].includes(raw)` for a Boolean, and `Number(raw) >= 1` for the others.
abbrev pub is_on : SubscriptionFeatureValueType → FeatureValue → Bool
is_on boolean (word t) = if t == "true" then true else t == "yes"
is_on boolean (numeral n) = is_one n
is_on number v = is_positive v
is_on string v = is_positive v

-- `isPlanFeatureEnabled`.
unfoldable pub is_plan_feature_enabled : Option PlanFeature → Bool
is_plan_feature_enabled none = false
is_plan_feature_enabled (some f) = is_on f.value_type f.value

module _ {W : Type 0} (subs : UserSubscriptionRepository W) (plans : SubscriptionPlanRepository W)
    (cache : PlanCache W) (usage : UsageRepository W) where
  -- `loadAndCachePlan`; the result of the write to the cache is not read.
  unfoldable pub load_and_cache_plan : ℕ → M W SubscriptionPlan
  load_and_cache_plan plan_id = do
    found ← plans.find_by_id plan_id
    plan ← require found subscription_plan_not_found
    stored ← attempt (cache.set plan_id plan)
    return plan

  -- `if (!cachedSubscriptionPlan)`.
  abbrev pub cached_or_loaded : ℕ → Option SubscriptionPlan → M W SubscriptionPlan
  cached_or_loaded plan_id none = load_and_cache_plan plan_id
  cached_or_loaded plan_id (some x) = return x

  -- `if (plainObject.features.length === 0)`.
  abbrev pub reloaded : List PlanFeature → ℕ → SubscriptionPlan → M W SubscriptionPlan
  reloaded [] plan_id plan = load_and_cache_plan plan_id
  reloaded (f ∷ fs) plan_id plan = return plan

  -- `getUserSubscriptionPlan`: a plan without features is loaded once more.
  unfoldable pub get_user_subscription_plan : ℕ → M W SubscriptionPlan
  get_user_subscription_plan user = do
    current ← subs.find_current_active_by_user_id user
    sub ← require current user_subscription_not_found
    cached ← cache.get sub.subscription_plan_id
    plan ← cached_or_loaded sub.subscription_plan_id cached
    reloaded plan.features sub.subscription_plan_id plan

  -- `canCreateAuction`.
  unfoldable pub plan_allows_auction : ℕ → M W Bool
  plan_allows_auction user = do
    plan ← get_user_subscription_plan user
    used ← usage.auctions_of_seller user
    fail_if (reaches used (feature_value auction_creation default_auctions plan))
        auctions_of_plan_used_up
    return true

  -- `canPlaceBid`.
  unfoldable pub plan_allows_bid : ℕ → ℕ → M W Bool
  plan_allows_bid user auction_id = do
    plan ← get_user_subscription_plan user
    used ← usage.bids_of_user auction_id user
    fail_if (reaches used (feature_value auction_bidding default_bids plan)) bids_of_plan_used_up
    return true

  -- `canUseAiAgent`.
  unfoldable pub plan_allows_agent : ℕ → M W Bool
  plan_allows_agent user = do
    plan ← get_user_subscription_plan user
    return (is_plan_feature_enabled (find (has_key ai_agent) plan.features))
