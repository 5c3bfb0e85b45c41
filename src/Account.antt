-- ===== src/Account.antt =====
-- src/domain/entities/wallet: a wallet, with what it holds free and what it holds back, and the
-- entries of its log. Balances and amounts are ten-thousandths of the currency, so that a deposit,
-- which is a ratio of a price, is exact.
use auction_platform_backend.Prelude.{ℕ, ◌≡◌, ◌∙◌, ap, refl, Bool, true, false, if◌then◌else◌}
use auction_platform_backend.Prelude.Int.{
  ℤ, pos, ◌+ℤ◌, ◌-ℤ◌, ◌≤ℤ◌, ltb_ℤ, move_right, move_left, sub_ge,
}
use auction_platform_backend.Outcome.{
  Result, ok, fail, negative_balance, negative_held_balance, insufficient_balance,
}

pub data WalletCurrency : Type 0 where
  inr_currency usd_currency : WalletCurrency

pub record Wallet : Type 0 where
  pub id : ℕ
  pub user_id : ℕ
  pub main_balance : ℤ
  pub held_balance : ℤ
  pub currency : WalletCurrency

pub data WalletTransactionType : Type 0 where
  deposit withdrawal transfer hold release : WalletTransactionType

pub record WalletTransaction : Type 0 where
  pub id : ℕ
  pub wallet_id : ℕ
  pub amount : ℤ
  pub type_of : WalletTransactionType
  pub created_at : ℕ

unfoldable pub create_wallet : Wallet → Result Wallet
create_wallet x =
    if ltb_ℤ x.main_balance (pos 0)
    then fail negative_balance
    else if ltb_ℤ x.held_balance (pos 0)
    then fail negative_held_balance
    else ok x

abbrev pub total_balance : Wallet → ℤ
total_balance x = x.main_balance +ℤ x.held_balance

unfoldable pub add_to_main_balance : ℤ → Wallet → Wallet
add_to_main_balance n x = record x { main_balance = x.main_balance +ℤ n }

unfoldable pub debit_from_main_balance : ℤ → Wallet → Wallet
debit_from_main_balance n x = record x { main_balance = x.main_balance -ℤ n }

unfoldable pub hold_from_main_balance : ℤ → Wallet → Result Wallet
hold_from_main_balance n x =
    if ltb_ℤ x.main_balance n
    then fail insufficient_balance
    else ok (record x { main_balance = x.main_balance -ℤ n; held_balance = x.held_balance +ℤ n })

unfoldable pub release_held_balance : ℤ → Wallet → Wallet
release_held_balance n x = record x {
  held_balance = x.held_balance -ℤ n;
  main_balance = x.main_balance +ℤ n;
}

-- What a successful hold does.
pub hold_ok :
    (n : ℤ) (x x' : Wallet)
    → hold_from_main_balance n x ≡ ok x'
    → (ltb_ℤ x.main_balance n ≡ false)
      × (x' ≡ record x { main_balance = x.main_balance -ℤ n; held_balance = x.held_balance +ℤ n })
unfolding hold_from_main_balance
hold_ok n x x' h = go (ltb_ℤ x.main_balance n) refl h
  where
    go :
        (t : Bool)
        → ltb_ℤ x.main_balance n ≡ t
        → (if t
            then fail insufficient_balance
            else ok (record x {
              main_balance = x.main_balance -ℤ n;
              held_balance = x.held_balance +ℤ n;
            }))
          ≡ ok x'
        → (ltb_ℤ x.main_balance n ≡ false)
          × (x'
              ≡ record x { main_balance = x.main_balance -ℤ n; held_balance = x.held_balance +ℤ n })
    go true e q = cc
    go false e q = (e, cc)

-- A successful hold takes no more than there is and moves it: the total stays.
pub hold-total :
    (n : ℤ) (x x' : Wallet)
    → hold_from_main_balance n x ≡ ok x'
    → (total_balance x' ≡ total_balance x) × (pos 0 ≤ℤ x'.main_balance)
hold-total n x x' h =
    let (e, q) = hold_ok n x x' h in
    (
      ap total_balance q ∙ move_right x.main_balance x.held_balance n,
      rw (ap (λ (y : Wallet). y.main_balance) q) (sub_ge x.main_balance n e),
    )

pub release-total :
    (n : ℤ) (x : Wallet) → total_balance (release_held_balance n x) ≡ total_balance x
unfolding release_held_balance
release-total n x = move_left x.main_balance x.held_balance n
