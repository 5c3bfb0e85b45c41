-- ===== src/Subscription.antt =====
-- src/domain/entities/subscription: the plans with their features, and the subscriptions of users.
use auction_platform_backend.Prelude.{ℕ, Bool, true, false, Option, List}
use Prim.Native.String.{String}
use auction_platform_backend.Outcome.{M}

pub data SubscriptionFeatureKey : Type 0 where
  auction_creation auction_bidding ai_agent : SubscriptionFeatureKey

pub data SubscriptionFeatureValueType : Type 0 where
  boolean number string : SubscriptionFeatureValueType

-- The text of a value, by what the code reads of it: a number, or a word, in small letters and
-- without blanks around it.
pub data FeatureValue : Type 0 where
  numeral : ℕ → FeatureValue
  word : String → FeatureValue

-- `Features` and `SubscriptionPlanFeature`.
pub record PlanFeature : Type 0 where
  pub id : ℕ
  pub feature_key : SubscriptionFeatureKey
  pub value_type : SubscriptionFeatureValueType
  pub value : FeatureValue

pub record SubscriptionPlan : Type 0 where
  pub id : ℕ
  pub name : String
  pub description : String
  pub price : ℕ
  pub duration_days : ℕ
  pub is_default : Bool
  pub is_active : Bool
  pub razorpay_plan_id : Option ℕ
  pub features : List PlanFeature

pub data UserSubscriptionStatus : Type 0 where
  pending active expired cancelled payment_failed : UserSubscriptionStatus

pub record UserSubscription : Type 0 where
  pub id : ℕ
  pub user_id : ℕ
  pub subscription_plan_id : ℕ
  pub razorpay_subscription_id : Option ℕ
  pub status : UserSubscriptionStatus
  pub start_date : ℕ
  pub end_date : ℕ
  pub created_at : ℕ
  pub updated_at : ℕ

abbrev pub is_active : UserSubscriptionStatus → Bool
is_active active = true
is_active _ = false

abbrev pub is_pending : UserSubscriptionStatus → Bool
is_pending pending = true
is_pending _ = false

-- `STATUSES_ALLOWED_TO_ACTIVE`.
abbrev pub may_activate : UserSubscriptionStatus → Bool
may_activate pending = true
may_activate payment_failed = true
may_activate active = true
may_activate _ = false

-- `IUserSubscriptionRepository`.
pub record UserSubscriptionRepository (W : Type 0) : Type 0 where
  pub find_current_active_by_user_id : ℕ → M W (Option UserSubscription)
  pub find_by_razorpay_subscription_id : ℕ → M W (Option UserSubscription)
  pub find_all_plans_by_user_id : ℕ → M W (List UserSubscription)
  pub save : UserSubscription → M W UserSubscription

-- `ISubscriptionPlanRepository`.
pub record SubscriptionPlanRepository (W : Type 0) : Type 0 where
  pub find_by_id : ℕ → M W (Option SubscriptionPlan)
  pub find_active_default : M W (Option SubscriptionPlan)

-- `ICacheService` at the keys of plans, whose JSON text is held as the plan that it is read as.
pub record PlanCache (W : Type 0) : Type 0 where
  pub get : ℕ → M W (Option SubscriptionPlan)
  pub set : ℕ → SubscriptionPlan → M W (Unit {0})

-- `countBySellerId` and `countBidsByAuctionIdAndUserId`.
pub record UsageRepository (W : Type 0) : Type 0 where
  pub auctions_of_seller : ℕ → M W ℕ
  pub bids_of_user : ℕ → ℕ → M W ℕ
