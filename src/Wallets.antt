-- ===== src/Wallets.antt =====
-- The use cases that move money between balances: src/application/usecases/wallet (creditWallet,
-- debitWallet, getOrCreateWallet) and, of src/application/usecases/auction, addAuctionParticipant,
-- which holds a deposit, and releaseParticipantsWallet, which gives the deposits back.
pub mod Ledger
pub mod Amounts
pub mod Joining
pub mod Total
use auction_platform_backend.Prelude.{
  ℕ, ◌*◌, Bool, true, false, Option, none, some, List, [], ◌∷◌, is_id, if◌then◌else◌,
}
use auction_platform_backend.Prelude.Int.{ℤ, pos, ltb_ℤ, leb_ℤ}
use auction_platform_backend.Outcome.{
  Result, ok, fail, M, return, settle, value_of, attempt, gives, gets, require, fail_if, ◌>>=◌,
  ◌>>◌, wallet_not_found, user_not_found, auction_not_found, amount_not_positive,
  insufficient_balance,
}
use auction_platform_backend.Account.{
  Wallet, WalletTransaction, WalletTransactionType, WalletCurrency, inr_currency, create_wallet,
  add_to_main_balance, debit_from_main_balance, hold_from_main_balance, release_held_balance,
}
use auction_platform_backend.Auction.{Auction}
use auction_platform_backend.Auction.Bid.{AuctionParticipant, ParticipantPaymentStatus}
use auction_platform_backend.Services.{Platform, User}

-- A user and an amount, the input of `creditWallet` and `debitWallet`.
pub record AmountInput : Type 0 where
  pub user_id : ℕ
  pub amount : ℤ

-- `WalletTransaction.create`, which does not fail.
abbrev pub entry : ℕ → Wallet → ℤ → WalletTransactionType → ℕ → WalletTransaction
entry id x n type_of now = record {
  id = id;
  wallet_id = x.id;
  amount = n;
  type_of = type_of;
  created_at = now;
}

-- `auction.getStartPrice() * ratio`, in ten-thousandths.
abbrev pub initial_deposit : Auction → ℕ → ℤ
initial_deposit a ratio = pos (a.start_price * ratio)

-- `AuctionParticipant.create({ ..., intialAmount: PAID })`, which does not fail.
abbrev pub participant : ℕ → ℕ → User → ℕ → AuctionParticipant
participant id auction_id user now = record {
  id = id;
  auction_id = auction_id;
  user_id = user.id;
  intial_amount = ParticipantPaymentStatus.paid;
  user_name = user.name;
  joined_at = now;
}

module _ {W : Type 0} (p : Platform W) where
  -- `WalletTransaction.create`, then `create` of the repository, whose result nothing reads.
  unfoldable pub log_entry : Wallet → ℤ → WalletTransactionType → M W (Result WalletTransaction)
  log_entry x n type_of = do
    id ← gives p.runtime.generate_id
    now ← gets p.runtime.now
    attempt (p.transactions.create (entry id x n type_of now))

  -- `CreditWalletUsecase.execute`; the output has the fields of the wallet.
  unfoldable pub credit_wallet : AmountInput → M W Wallet
  credit_wallet input = do
    found ← p.wallets.find_by_user_id input.user_id
    x ← require found wallet_not_found
    log_entry x input.amount WalletTransactionType.deposit
    saved ← p.wallets.save (add_to_main_balance input.amount x)
    return (add_to_main_balance input.amount x)

  -- `WalletService.creditWallet`, which reads no result of a save.
  unfoldable pub service_credit : ℕ → ℤ → M W (Unit {0})
  service_credit user n = do
    found ← p.wallets.find_by_user_id user
    x ← require found wallet_not_found
    log_entry x n WalletTransactionType.deposit
    saved ← attempt (p.wallets.save (add_to_main_balance n x))
    return tt

  -- `WalletService.debitWallet`, which does not test the balance.
  unfoldable pub service_debit : ℕ → ℤ → M W (Unit {0})
  service_debit user n = do
    found ← p.wallets.find_by_user_id user
    x ← require found wallet_not_found
    log_entry x n WalletTransactionType.withdrawal
    saved ← attempt (p.wallets.save (debit_from_main_balance n x))
    return tt

  -- `DebitWalletUsecase.execute`.
  unfoldable pub debit_wallet : AmountInput → M W Wallet
  debit_wallet input = do
    found ← p.wallets.find_by_user_id input.user_id
    x ← require found wallet_not_found
    fail_if (leb_ℤ input.amount (pos 0)) amount_not_positive
    fail_if (ltb_ℤ x.main_balance input.amount) insufficient_balance
    log_entry x input.amount WalletTransactionType.withdrawal
    saved ← p.wallets.save (debit_from_main_balance input.amount x)
    return (debit_from_main_balance input.amount x)

  -- A new wallet, empty.
  unfoldable pub open_wallet : ℕ → M W Wallet
  open_wallet user = do
    id ← gives p.runtime.generate_id
    x ← value_of (
        create_wallet (record {
          id = id;
          user_id = user;
          main_balance = pos 0;
          held_balance = pos 0;
          currency = inr_currency;
        }))
    saved ← p.wallets.save x
    return x

  -- `GetOrCreateWalletUsecase.execute`.
  unfoldable pub get_or_create_wallet : ℕ → M W Wallet
  get_or_create_wallet user = do
    found ← p.wallets.find_by_user_id user
    elim found [ some x ↦ return x | none ↦ open_wallet user ]

  -- `AddAuctionParticipantUsecase.execute` once the deposit is held: the log, the wallet, the
  -- participant, whose result nothing reads, and the participants read again.
  unfoldable pub store_participant : ℕ → User → Wallet → Wallet → ℤ → M W (List AuctionParticipant)
  store_participant auction_id user x held n = do
    log_entry x n WalletTransactionType.hold
    saved ← p.wallets.save held
    id ← gives p.runtime.generate_id
    now ← gets p.runtime.now
    stored ← attempt (p.participants.save (participant id auction_id user now))
    p.participants.find_by_auction_id auction_id

  -- `AddAuctionParticipantUsecase.execute`: the three rows are read before the first is tested.
  unfoldable pub add_auction_participant : ℕ → ℕ → M W (List AuctionParticipant)
  add_auction_participant auction_id user_id = do
    user_row ← attempt (p.users.find_by_id user_id)
    auction_row ← attempt (p.auctions.find_by_id auction_id)
    wallet_row ← attempt (p.wallets.find_by_user_id user_id)
    user_found ← settle user_row
    auction_found ← settle auction_row
    wallet_found ← settle wallet_row
    user ← require user_found user_not_found
    a ← require auction_found auction_not_found
    x ← require wallet_found wallet_not_found
    ratio ← p.config.auction_participant_initial_deposit_ratio
    held ← settle (hold_from_main_balance (initial_deposit a ratio) x)
    store_participant auction_id (record user { id = user_id }) x held (initial_deposit a ratio)

  -- A deposit given back. The entry of the log is made and not stored.
  unfoldable pub release_row : ℤ → Result (Option Wallet) → M W (Unit {0})
  release_row n (fail e) = return tt
  release_row n (ok none) = return tt
  release_row n (ok (some x)) = do
    id ← gives p.runtime.generate_id
    saved ← p.wallets.save (release_held_balance n x)
    return tt

  -- The loop over the participants, the winner left out.
  unfoldable pub release_each : Option ℕ → ℤ → List AuctionParticipant → M W (Unit {0})
  release_each winner n [] = return tt
  release_each winner n (x ∷ rest) = elim (is_id winner x.user_id) [
    | true ↦ release_each winner n rest
    | false ↦ attempt (p.wallets.find_by_user_id x.user_id) >>= λ row.
        release_row n row >>= λ u. release_each winner n rest
  ]

  -- `ReleaseParticipantsWalletUsecase.execute`.
  unfoldable pub release_participants : ℕ → M W (Unit {0})
  release_participants auction_id = do
    auction_row ← attempt (p.auctions.find_by_id auction_id)
    participants_row ← attempt (p.participants.find_by_auction_id auction_id)
    participants ← settle participants_row
    found ← settle auction_row
    a ← require found auction_not_found
    ratio ← p.config.auction_participant_initial_deposit_ratio
    release_each a.winner_id (initial_deposit a ratio) participants
