-- ===== src/Wallets/Amounts.antt =====
-- An amount that is credited to a wallet or debited from it.
use auction_platform_backend.Prelude.{ℕ, ◌≡◌, ◌∙◌, refl, Option, some, List}
use auction_platform_backend.Prelude.Int.{pos, ◌≤ℤ◌, ltb_ℤ, leb_ℤ, sub_ge, add_ge}
use auction_platform_backend.Outcome.{
  return, wallet_not_found, amount_not_positive, insufficient_balance,
}
use auction_platform_backend.Outcome.Post.{Post, Post-and_then, Post-guarded, Post-required}
use auction_platform_backend.Account.{
  Wallet, WalletTransaction, deposit, withdrawal, add_to_main_balance, debit_from_main_balance,
}
use auction_platform_backend.Services.{Platform}
use auction_platform_backend.Wallets.{AmountInput, credit_wallet, debit_wallet}
use auction_platform_backend.Wallets.Ledger.{
  WalletLaws, Same, Balanced, Booked, Whatever, found-Post, log_entry-Booked,
}

module _ {W : Type 0} (p : Platform W) (purse : W → Option Wallet)
    (log lost : W → List WalletTransaction) (u : ℕ) (laws : WalletLaws p purse log lost u) where
  -- If the wallet's balances are those that its log accounts for, neither is below 0, and
  -- `creditWallet` succeeds on an amount that is not negative, then the balances stored are those
  -- that the log of before and one deposit of this amount account for, and neither is below 0;
  -- the deposit is in the log, or, if it could not be stored, among those that are lost.
  pub credit_wallet-Booked :
      (input : AmountInput) (w : W)
      → input.user_id ≡ u
      → pos 0 ≤ℤ input.amount
      → Balanced p purse log lost u w
      → Post
          (λ out w'. Booked p purse log lost u deposit input.amount w w')
          (λ w'. Unit {0})
          (credit_wallet p input w)
  unfolding credit_wallet add_to_main_balance
  credit_wallet-Booked input w i n b = rw i (
      Post-and_then
        (λ o w'. Same p purse log lost u w w' × ((x : Wallet) → o ≡ some x → purse w ≡ some x))
        Given (Whatever p purse log lost u) (p.wallets.find_by_user_id u w) _
        (found-Post p purse log lost u laws w)
        (λ o w1 (same, f).
          Post-required Given (Whatever p purse log lost u) o wallet_not_found w1 _ tt (λ x q.
            let sound = b x (f x q) in
            log_entry-Booked p purse log lost u laws
              (λ y. return (add_to_main_balance input.amount x)) Given x
              (add_to_main_balance input.amount x) input.amount deposit w w1 (same.0 ∙ f x q) same
              sound refl refl refl (add_ge x.main_balance input.amount sound.3 n) sound.4
              (λ y w' g. g))))
    where
      Given : {A : Type 0} → A → W → Type 0
      Given a w' = Booked p purse log lost u deposit input.amount w w'

  -- If the wallet's balances are those that its log accounts for, neither is below 0, and
  -- `debitWallet` succeeds, then the balances stored are those that the log of before and one
  -- withdrawal of this amount account for, and neither is below 0; the withdrawal is in the log,
  -- or, if it could not be stored, among those that are lost.
  pub debit_wallet-Booked :
      (input : AmountInput) (w : W)
      → input.user_id ≡ u
      → Balanced p purse log lost u w
      → Post
          (λ out w'. Booked p purse log lost u withdrawal input.amount w w')
          (λ w'. Unit {0})
          (debit_wallet p input w)
  unfolding debit_wallet debit_from_main_balance
  debit_wallet-Booked input w i b = rw i (
      Post-and_then
        (λ o w'. Same p purse log lost u w w' × ((x : Wallet) → o ≡ some x → purse w ≡ some x))
        Taken (Whatever p purse log lost u) (p.wallets.find_by_user_id u w) _
        (found-Post p purse log lost u laws w)
        (λ o w1 (same, f).
          Post-required Taken (Whatever p purse log lost u) o wallet_not_found w1 _ tt (λ x q.
            Post-guarded Taken (Whatever p purse log lost u) (leb_ℤ input.amount (pos 0))
              amount_not_positive w1 _ tt
              (λ positive.
                Post-guarded Taken (Whatever p purse log lost u) (ltb_ℤ x.main_balance input.amount)
                  insufficient_balance w1 _ tt
                  (λ enough.
                    let sound = b x (f x q) in
                    log_entry-Booked p purse log lost u laws
                      (λ y. return (debit_from_main_balance input.amount x)) Taken x
                      (debit_from_main_balance input.amount x) input.amount withdrawal w w1
                      (same.0 ∙ f x q) same sound refl refl refl
                      (sub_ge x.main_balance input.amount enough) sound.4 (λ y w' g. g))))))
    where
      Taken : {A : Type 0} → A → W → Type 0
      Taken a w' = Booked p purse log lost u withdrawal input.amount w w'
