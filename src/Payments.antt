-- ===== src/Payments.antt =====
-- What a winner pays: src/application/strategies/payments (auctionPaymentAmountSplit.strategy.ts,
-- auctionPaymentStartegy.ts) and, of src/application/usecases/payments,
-- createPendingPaymentForAuction and verifyPayment.
pub mod Split
pub mod Verified
use auction_platform_backend.Prelude.{
  ℕ, ◌+◌, ◌-◌, ◌*◌, ◌/◌, Bool, true, false, Option, none, some, not, ◌||◌, ◌==◌, if◌then◌else◌,
}
use auction_platform_backend.Outcome.{
  Result, ok, fail, M, return, settle, gives, gets, require, fail_if, give_up, ◌>>=◌, ◌>>◌,
  payment_not_found, not_authorized_to_verify, only_pending_can_be_verified,
}
use auction_platform_backend.Payment.{
  Payment, PaymentPhase, PaymentStatus, PaymentFor, for_auction, create_payment, mark_as_completed,
  is_pending, is_completed,
}
use auction_platform_backend.Services.{Platform, Receipt}

-- `IAuctionWinningAmountSplit`.
pub record AmountSplit : Type 0 where
  pub deposit : ℕ
  pub balance : ℕ

-- `Math.floor(winAmount * ratio)` and the rest, the ratio in ten-thousandths.
unfoldable pub split_at : ℕ → ℕ → AmountSplit
split_at ratio win = record { deposit = win * ratio / 10000; balance = win - win * ratio / 10000 }

-- The input of `createPendingPaymentForAuction` and of the strategy.
pub record WinInput : Type 0 where
  pub user_id : ℕ
  pub auction_id : ℕ
  pub win_amount : ℕ
  pub ended_at : ℕ

-- The argument of `Payments.create` of both methods.
abbrev pub pending_payment : ℕ → WinInput → ℕ → PaymentPhase → ℕ → ℕ → Payment
pending_payment id input amount phase due_at now = record {
  id = id;
  user_id = input.user_id;
  amount = amount;
  currency = "INR";
  status = PaymentStatus.pending;
  for_payment = for_auction;
  reference_id = input.auction_id;
  phase = phase;
  due_at = due_at;
  created_at = now;
}

abbrev pub is_there : Option Payment → Bool
is_there none = false
is_there (some x) = true

-- The input of `verifyPayment`.
pub record VerifyInput : Type 0 where
  pub payment_id : ℕ
  pub user_id : ℕ
  pub order_id : ℕ
  pub gateway_payment_id : ℕ
  pub signature : ℕ

-- What the gateway is asked about.
abbrev pub receipt : VerifyInput → Payment → Receipt
receipt input x = record {
  user_id = x.user_id;
  order_id = input.order_id;
  payment_id = input.gateway_payment_id;
  signature = input.signature;
  reference_id = x.reference_id;
}

module _ {W : Type 0} (p : Platform W) where
  -- `splitWinningAmount`.
  unfoldable pub split_winning_amount : ℕ → M W AmountSplit
  split_winning_amount win = do
    ratio ← p.config.auction_winner_deposit_split_ratio
    return (split_at ratio win)

  -- `createDepositPayment`.
  unfoldable pub create_deposit_payment : WinInput → M W Payment
  create_deposit_payment input = do
    split ← split_winning_amount input.win_amount
    ms ← p.config.auction_payment_deposit_due_ms
    id ← gives p.runtime.generate_id
    now ← gets p.runtime.now
    settle (
        create_payment
          (pending_payment id input split.deposit PaymentPhase.deposit (input.ended_at + ms) now))

  -- `createBalancePayment`.
  unfoldable pub create_balance_payment : WinInput → M W Payment
  create_balance_payment input = do
    split ← split_winning_amount input.win_amount
    ms ← p.config.auction_payment_balance_due_ms
    id ← gives p.runtime.generate_id
    now ← gets p.runtime.now
    settle (
        create_payment
          (pending_payment id input split.balance PaymentPhase.balance (input.ended_at + ms) now))

  -- The two payments, made and stored one after the other.
  unfoldable pub create_both : WinInput → M W (Unit {0})
  create_both input = do
    first ← create_deposit_payment input
    stored ← p.payments.create first
    second ← create_balance_payment input
    stored_too ← p.payments.create second
    return tt

  -- `CreatePendingPaymentForAuctionUsecase.execute`; the user is never empty.
  unfoldable pub create_pending_payment : WinInput → M W (Unit {0})
  create_pending_payment input = do
    first ←
        p.payments.find_by_reference_user_and_phase input.auction_id input.user_id
          PaymentPhase.deposit
    second ←
        p.payments.find_by_reference_user_and_phase input.auction_id input.user_id
          PaymentPhase.balance
    if is_there first || is_there second then return tt else create_both input

  -- A pending payment, verified by the gateway, completed and stored.
  unfoldable pub complete_payment : VerifyInput → Payment → M W (Unit {0})
  complete_payment input x = do
    amount ← p.gateway.verify_payment (receipt input x)
    completed ← settle (mark_as_completed x)
    updated ← p.payments.update x.id completed
    return tt

  -- `VerifyPaymentUsecase.execute`.
  unfoldable pub verify_payment : VerifyInput → M W (Unit {0})
  verify_payment input = do
    found ← p.payments.find_by_id input.payment_id
    x ← require found payment_not_found
    fail_if (not (x.user_id == input.user_id)) not_authorized_to_verify
    if is_completed x.status then return tt else do
      fail_if (not (is_pending x.status)) only_pending_can_be_verified
      complete_payment input x
