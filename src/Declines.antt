-- ===== src/Declines.antt =====
-- A winner who declines to pay: src/application/usecases/payments/declinePayment.usecase.ts.
pub mod Settled
use auction_platform_backend.Prelude.{
  ℕ, Bool, true, false, Option, none, some, not, ◌&&◌, ◌==◌, is_id, if◌then◌else◌,
}
use auction_platform_backend.Outcome.{
  Result, ok, fail, M, return, settle, attempt, gives, gets, require, fail_if, or_catch, ◌>>=◌,
  ◌>>◌, payment_not_found, not_authorized_to_decline, only_pending_can_be_declined,
  unexpected_error,
}
use auction_platform_backend.Auction.{Auction, is_ended}
use auction_platform_backend.Payment.{
  Payment, PaymentStatus, is_pending, is_declined, mark_as_declined,
}
use auction_platform_backend.Fraud.{
  FraudReport, FraudReporterType, FraudReportSource, FraudReportStatus, medium, payment_critical,
}
use auction_platform_backend.Services.{Platform, FallbackJob}

pub record DeclineInput : Type 0 where
  pub payment_id : ℕ
  pub user_id : ℕ

-- The report of the system on a user who declines.
abbrev pub decline_report : ℕ → Payment → ℕ → FraudReport
decline_report id x now = record {
  id = id;
  reported_user_id = none;
  targeted_user_id = x.user_id;
  reporter_type = FraudReporterType.system;
  source = FraudReportSource.manual;
  category = payment_critical;
  level = medium;
  reason = "Payment declined";
  status = FraudReportStatus.opened;
  admin_decision = none;
  reviewed_by_id = none;
  reviewed_at = none;
  created_at = now;
}

abbrev pub job_of : Auction → DeclineInput → Payment → FallbackJob
job_of a input x = record { auction_id = a.id; declined_user_id = input.user_id; payment_id = x.id }

module _ {W : Type 0} (p : Platform W) where
  -- The fallback put in the queue, if the auction has ended and the user is its winner.
  unfoldable pub pass_on : DeclineInput → Payment → Result (Option Auction) → M W (Unit {0})
  pass_on input x (fail e) = return tt
  pass_on input x (ok none) = return tt
  pass_on input x (ok (some a)) =
      if is_ended a.status && is_id a.winner_id input.user_id
      then p.fallback_queue.enqueue (job_of a input x)
      else return tt

  unfoldable pub report_decline : DeclineInput → Payment → M W (Unit {0})
  report_decline input x = do
    user ← p.users.find_by_id input.user_id
    id ← gives p.runtime.generate_id
    now ← gets p.runtime.now
    saved ← p.reports.save (decline_report id x now)
    return tt

  -- A pending payment of the user: declined and stored, passed on, reported. Every payment is for
  -- an auction.
  unfoldable pub decline_pending : DeclineInput → Payment → M W (Unit {0})
  decline_pending input x = do
    x' ← settle (mark_as_declined x)
    updated ← p.payments.update x.id x'
    row ← attempt (p.auctions.find_by_id x.reference_id)
    pass_on input x row
    report_decline input x

  -- The block of `try`.
  unfoldable pub try_decline : DeclineInput → M W (Unit {0})
  try_decline input = do
    found ← p.payments.find_by_id input.payment_id
    x ← require found payment_not_found
    fail_if (not (x.user_id == input.user_id)) not_authorized_to_decline
    if is_declined x.status then return tt else do
      fail_if (not (is_pending x.status)) only_pending_can_be_declined
      decline_pending input x

  -- `DeclinePaymentUsecase.execute`.
  unfoldable pub decline_payment : DeclineInput → M W (Unit {0})
  decline_payment input = or_catch (try_decline input) unexpected_error
