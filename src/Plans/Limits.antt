-- ===== src/Plans/Limits.antt =====
-- The limits of a plan on bids and auctions: canPlaceBid and canCreateAuction.
use auction_platform_backend.Prelude.{
  ℕ, ◌<◌, ◌≤◌, ◌≡◌, ◌≢◌, ◌∙◌, sym, refl, ◌⊎◌, inl, true, false, Option, none, some, List, [], ◌∷◌,
  arith,
}
use auction_platform_backend.Outcome.{
  Error, user_subscription_not_found, subscription_plan_not_found, bids_of_plan_used_up,
  auctions_of_plan_used_up,
}
use auction_platform_backend.Outcome.Verdict.{
  Verdict, Verdict-and_then, Verdict-required, Verdict-guarded, Verdict-ignored, Verdict-weaken,
}
use auction_platform_backend.Subscription.{
  auction_bidding, FeatureValue, numeral, word, PlanFeature, SubscriptionPlan, UserSubscription,
  UserSubscriptionRepository, SubscriptionPlanRepository, PlanCache, UsageRepository,
}
use auction_platform_backend.Plans.{
  default_bids, feature_value, reaches, load_and_cache_plan, cached_or_loaded, reloaded,
  get_user_subscription_plan, plan_allows_bid,
}

-- As many as have been used are allowed and one more. What is not a number is no limit.
abbrev pub Allows : FeatureValue → ℕ → Type 0
Allows (numeral n) used = used < n
Allows (word t) used = Unit

-- As many as are allowed have been used.
abbrev pub IsUsedUp : FeatureValue → ℕ → Type 0
IsUsedUp (numeral n) used = n ≤ used
IsUsedUp (word t) used = ⊥

used_up : (v : FeatureValue) (used : ℕ) → reaches used v ≡ true → IsUsedUp v used
used_up (numeral n) used h = ground arith
used_up (word t) used h = cc

not_used_up : (v : FeatureValue) (used : ℕ) → reaches used v ≡ false → Allows v used
not_used_up (numeral n) used h = ground arith
not_used_up (word t) used h = tt

module _ {W : Type 0} (subs : UserSubscriptionRepository W) (plans : SubscriptionPlanRepository W)
    (cache : PlanCache W) (usage : UsageRepository W) (sub_of : ℕ → Option UserSubscription)
    (plan_of held : ℕ → Option SubscriptionPlan) (auctions : ℕ → ℕ) (bids : ℕ → ℕ → ℕ) where
  -- A message of a repository is not one of the two about a plan that is used up.
  abbrev pub IsForeign : Error → Type 0
  IsForeign e = (e ≢ bids_of_plan_used_up) × (e ≢ auctions_of_plan_used_up)

  -- A plan as it is stored, or as the cache still holds it, which may be an older version: an update
  -- of a plan leaves the cache as it is.
  abbrev pub IsPlan : ℕ → SubscriptionPlan → Type 0
  IsPlan i x = (plan_of i ≡ some x) ⊎ (held i ≡ some x)

  -- The tables of subscriptions, plans, auctions and bids, and a cache that gives plans of the table
  -- or plans that it holds already.
  pub record LimitLaws : Type 0 where
    pub current_law :
        (u : ℕ) (w : W)
        → Verdict (λ o. o ≡ sub_of u) IsForeign (subs.find_current_active_by_user_id u w)
    pub plan_law : (i : ℕ) (w : W) → Verdict (λ o. o ≡ plan_of i) IsForeign (plans.find_by_id i w)
    pub cache_law :
        (i : ℕ) (w : W)
        → Verdict (λ o. (x : SubscriptionPlan) → o ≡ some x → IsPlan i x) IsForeign (cache.get i w)
    pub auctions_law :
        (u : ℕ) (w : W) → Verdict (λ n. n ≡ auctions u) IsForeign (usage.auctions_of_seller u w)
    pub bids_law :
        (a u : ℕ) (w : W) → Verdict (λ n. n ≡ bids a u) IsForeign (usage.bids_of_user a u w)

  -- The plan of the current subscription of a user, stored or held by the cache.
  abbrev pub HasPlan : ℕ → SubscriptionPlan → Type 0
  HasPlan user x = (s : UserSubscription) × (sub_of user ≡ some s) × IsPlan s.subscription_plan_id x

  module _ (laws : LimitLaws) where
    load-Plan :
        (i : ℕ) (w : W)
        → Verdict (IsPlan i) IsForeign (load_and_cache_plan subs plans cache usage i w)
    unfolding load_and_cache_plan
    load-Plan i w =
        Verdict-and_then (IsPlan i) IsForeign (λ o. o ≡ plan_of i) (plans.find_by_id i w) _
          (laws.plan_law i w)
          (λ o w1 q.
            Verdict-required (IsPlan i) IsForeign o subscription_plan_not_found w1 _
              ((λ h. cc), (λ h. cc))
              (λ x e.
                Verdict-ignored (IsPlan i) IsForeign (cache.set i x w1) _
                  (λ y w2. inl (sym q ∙ e))))

    reloaded-Plan :
        (fs : List PlanFeature) (i : ℕ) (x : SubscriptionPlan) (w : W)
        → IsPlan i x
        → Verdict (IsPlan i) IsForeign (reloaded subs plans cache usage fs i x w)
    reloaded-Plan [] i x w h = load-Plan i w
    reloaded-Plan (f ∷ fs) i x w h = h

    cached-Plan :
        (i : ℕ) (o : Option SubscriptionPlan) (w : W)
        → ((x : SubscriptionPlan) → o ≡ some x → IsPlan i x)
        → Verdict (IsPlan i) IsForeign (cached_or_loaded subs plans cache usage i o w)
    cached-Plan i none w h = load-Plan i w
    cached-Plan i (some x) w h = h x refl

    get_plan-HasPlan :
        (user : ℕ) (w : W)
        → Verdict
            (HasPlan user)
            IsForeign
            (get_user_subscription_plan subs plans cache usage user w)
    unfolding get_user_subscription_plan
    get_plan-HasPlan user w =
        Verdict-and_then (HasPlan user) IsForeign (λ o. o ≡ sub_of user)
          (subs.find_current_active_by_user_id user w) _ (laws.current_law user w)
          (λ o w1 q.
            Verdict-required (HasPlan user) IsForeign o user_subscription_not_found w1 _
              ((λ h. cc), (λ h. cc))
              (λ s e.
                Verdict-and_then (HasPlan user) IsForeign
                  (λ c. (x : SubscriptionPlan) → c ≡ some x → IsPlan s.subscription_plan_id x)
                  (cache.get s.subscription_plan_id w1) _ (laws.cache_law s.subscription_plan_id w1)
                  (λ c w2 k.
                    Verdict-and_then (HasPlan user) IsForeign (IsPlan s.subscription_plan_id) _ _
                      (cached-Plan s.subscription_plan_id c w2 k)
                      (λ x w3 h.
                        Verdict-weaken (IsPlan s.subscription_plan_id) (HasPlan user) IsForeign
                          IsForeign
                          (reloaded subs plans cache usage x.features s.subscription_plan_id x w3)
                          (reloaded-Plan x.features s.subscription_plan_id x w3 h)
                          (λ y j. (s, sym q ∙ e, j)) (λ e' f. f)))))

    -- If canPlaceBid is done, it allows the bid, and the plan of the current subscription of the
    -- user, as it is stored or as the cache still holds it, allows one more bid in the auction than
    -- there are. If it fails as used up, that plan allows no more than there are.
    pub plan_allows_bid-Verdict :
        (user auction_id : ℕ) (w : W)
        → Verdict
            (λ b.
              (b ≡ true)
              × ((x : SubscriptionPlan) × HasPlan user x
                  × Allows (feature_value auction_bidding default_bids x) (bids auction_id user)))
            (λ e.
              e ≡ bids_of_plan_used_up
              → (x : SubscriptionPlan) × HasPlan user x
                × IsUsedUp (feature_value auction_bidding default_bids x) (bids auction_id user))
            (plan_allows_bid subs plans cache usage user auction_id w)
    unfolding plan_allows_bid
    plan_allows_bid-Verdict user auction_id w =
        Verdict-and_then _ _ (HasPlan user)
          (get_user_subscription_plan subs plans cache usage user w) _
          (Verdict-weaken (HasPlan user) (HasPlan user) IsForeign _
            (get_user_subscription_plan subs plans cache usage user w) (get_plan-HasPlan user w)
            (λ x h. h) (λ e f k. absurd (f.0 k)))
          (λ x w1 h.
            Verdict-and_then _ _ (λ n. n ≡ bids auction_id user)
              (usage.bids_of_user auction_id user w1) _
              (Verdict-weaken (λ n. n ≡ bids auction_id user) (λ n. n ≡ bids auction_id user)
                IsForeign _ (usage.bids_of_user auction_id user w1)
                (laws.bids_law auction_id user w1) (λ n e. e) (λ e f k. absurd (f.0 k)))
              (λ n w2 e.
                Verdict-guarded _ _ (reaches n (feature_value auction_bidding default_bids x))
                  bids_of_plan_used_up w2 _ (λ t k. (x, h, rw (sym e) (used_up _ n t)))
                  (λ t. (refl, (x, h, rw (sym e) (not_used_up _ n t))))))
