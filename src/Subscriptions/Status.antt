-- ===== src/Subscriptions/Status.antt =====
-- The status of a stored subscription, through webhooks, checkouts and default subscriptions.
use auction_platform_backend.Prelude.{ℕ, ◌≡◌, ◌≢◌, ◌⊎◌, inl, inr, true, some}
use auction_platform_backend.Prelude.Int.{ℤ}
use auction_platform_backend.Outcome.{M, return, ◌>>◌, wallet_not_found}
use auction_platform_backend.Outcome.Post.{Post}
use auction_platform_backend.Outcome.World.{after-and_then, after-attempted, after-required}
use auction_platform_backend.Account.{Wallet, WalletTransaction}
use auction_platform_backend.Wallets.{service_credit, log_entry}
use auction_platform_backend.Subscription.{
  UserSubscription, UserSubscriptionStatus, active, expired, may_activate,
}
use auction_platform_backend.Subscriptions.{SubscriptionPlatform}

-- How the status of a subscription may change: an expired or cancelled one is never active again.
pub data Becomes : UserSubscriptionStatus → UserSubscriptionStatus → Type 0 where
  stays : {s : UserSubscriptionStatus} → Becomes s s
  starts : {s : UserSubscriptionStatus} → may_activate s ≡ true → Becomes s active
  ends : {s : UserSubscriptionStatus} → Becomes s expired

pub Becomes-trans : {s t u : UserSubscriptionStatus} → Becomes s t → Becomes t u → Becomes s u
Becomes-trans h stays = h
Becomes-trans stays (starts e) = starts e
Becomes-trans (starts e) (starts f) = starts e
Becomes-trans ends (starts f) = cc
Becomes-trans h ends = ends

module _ {W : Type 0} (d : SubscriptionPlatform W) (view : W → UserSubscriptionStatus) (k : ℕ) where
  open d use {platform, subs, plans, gateway, customers}

  abbrev pub KeepsView : {A : Type 0} → M W A → Type 0
  KeepsView m = (w : W) → view (m w).1 ≡ view w

  -- What the code relies on of the stored status of subscription `k`: a read gives it, only a save
  -- of that subscription changes it, and then to the status saved, and a new identifier is another.
  pub record SubscriptionLaws : Type 0 where
    pub id_keeps : (w : W) → view (platform.runtime.generate_id w).1 ≡ view w
    pub id_fresh : (w : W) → (platform.runtime.generate_id w).0 ≢ k
    pub wallet_keeps : (u : ℕ) → KeepsView (platform.wallets.find_by_user_id u)
    pub wallet_save_keeps : (x : Wallet) → KeepsView (platform.wallets.save x)
    pub entry_keeps : (t : WalletTransaction) → KeepsView (platform.transactions.create t)
    pub user_keeps : (u : ℕ) → KeepsView (platform.users.find_by_id u)
    pub plan_keeps : (i : ℕ) → KeepsView (plans.find_by_id i)
    pub default_keeps : KeepsView plans.find_active_default
    pub verify_keeps : (r : ℕ) → KeepsView (gateway.verify_webhook_event r)
    pub customer_keeps : (u : ℕ) → KeepsView (gateway.get_customer u)
    pub create_keeps : (i c n : ℕ) → KeepsView (gateway.create_subscription i c n)
    pub save_customer_keeps : (u c : ℕ) → KeepsView (customers.save_customer u c)
    pub current_keeps : (u : ℕ) → KeepsView (subs.find_current_active_by_user_id u)
    pub all_keeps : (u : ℕ) → KeepsView (subs.find_all_plans_by_user_id u)
    pub razorpay_keeps : (i : ℕ) → KeepsView (subs.find_by_razorpay_subscription_id i)
    pub razorpay_law :
        (i : ℕ) (w : W)
        → Post
            (λ o w'. (s : UserSubscription) → o ≡ some s → s.id ≡ k → s.status ≡ view w)
            (λ w'. Unit {0})
            (subs.find_by_razorpay_subscription_id i w)
    pub save_law :
        (s : UserSubscription) (w : W)
        → (view (subs.save s w).1 ≡ view w) ⊎ ((s.id ≡ k) × (view (subs.save s w).1 ≡ s.status))

  module _ (laws : SubscriptionLaws) (s : UserSubscriptionStatus) where
    -- The status has become what it may become from `s`.
    abbrev pub Fine : W → Type 0
    Fine w = Becomes s (view w)

    pub kept : {A : Type 0} (m : M W A) (w : W) → KeepsView m → Fine w → Fine (m w).1
    kept m w keeps h = rw (keeps w) h

    pub saved :
        (x : UserSubscription) (w : W)
        → (x.id ≡ k → Becomes s x.status)
        → Fine w
        → Fine (subs.save x w).1
    saved x w may h = elim (laws.save_law x w) [ inl same ↦ rw same h | inr (i, e) ↦ rw e (may i) ]

    -- A save whose value nothing reads, at the end of a branch.
    pub saved_last :
        (x : UserSubscription) (w : W)
        → (x.id ≡ k → Becomes s x.status)
        → Fine w
        → Fine ((subs.save x >> return tt) w).1
    saved_last x w may h = after-and_then Fine (subs.save x w) _ (saved x w may h) (λ y w1 h1. h1)

    pub credit-Fine : (u : ℕ) (n : ℤ) (w : W) → Fine w → Fine (service_credit platform u n w).1
    unfolding service_credit log_entry
    credit-Fine u n w h =
        after-and_then Fine (platform.wallets.find_by_user_id u w) _
          (kept (platform.wallets.find_by_user_id u) w (laws.wallet_keeps u) h)
          (λ o w1 h1. after-required Fine o wallet_not_found w1 _ h1 (λ x e.
            let w2 = (platform.runtime.generate_id w1).1 in
            after-attempted Fine (platform.transactions.create _ w2) _
              (kept (platform.transactions.create _) w2 (laws.entry_keeps _)
                (rw (laws.id_keeps w1) h1))
              (λ t w3 h3.
                after-attempted Fine (platform.wallets.save _ w3) _
                  (kept (platform.wallets.save _) w3 (laws.wallet_save_keeps _) h3)
                  (λ y w4 h4. h4))))
