-- ===== src/PublicPayments.antt =====
-- How an auction that is offered publicly is paid for or declined: of src/application/usecases
-- payments/createPaymentOrderForPublicFallbackAuction.ts,
-- payments/verifyPublicAuctionPayment.usecase.ts and
-- auction/declinePublicfallbackAuction.usecase.ts, with
-- src/domain/entities/auction/public-auction-fallback-participants.entity.ts and the order of
-- src/infrastructure/services/payments/razorpay.gateway.service.ts.
pub mod Sale
pub mod Once
pub mod Orders
use auction_platform_backend.Prelude.{
  ℕ, ◌+◌, ◌*◌, ◌/◌, Bool, true, false, Option, none, some, List, not, leb, ◌==◌, any, if◌then◌else◌,
}
use Prim.Native.String.{String}
use auction_platform_backend.Outcome.{
  Result, ok, fail, M, return, settle, value_of, attempt, gives, gets, require, fail_if, ◌>>=◌,
  ◌>>◌, auction_not_found, not_public_notification, previous_winner_cannot_pay, fallback_not_found,
  fallback_not_pending, fallback_not_pending_payment, participant_rejected, participant_not_pending,
  participant_not_found, payment_status_not_pending, amount_must_be_positive,
}
use auction_platform_backend.Auction.{
  Auction, AuctionStatus, sold, fallback_public_notification, set_status, set_winner,
}
use auction_platform_backend.Auction.Bid.{AuctionWinner}
use auction_platform_backend.Notice.{
  PublicFallbackAuction, PublicFallbackStatus, PublicFallbackPaymentStatus,
}
use auction_platform_backend.Payment.{
  Payment, PaymentStatus, PaymentPhase, for_auction, create_payment,
}
use auction_platform_backend.Services.{Platform}

pub data ParticipantStatus : Type 0 where
  accepted rejected pending : ParticipantStatus

pub data ParticipantPayment : Type 0 where
  pending paid : ParticipantPayment

pub record PublicParticipant : Type 0 where
  pub id : ℕ
  pub public_fallback_auction_id : ℕ
  pub user_id : ℕ
  pub status : ParticipantStatus
  pub payment_status : ParticipantPayment
  pub created_at : ℕ

abbrev pub is_rejected : ParticipantStatus → Bool
is_rejected rejected = true
is_rejected _ = false

abbrev pub is_unpaid : ParticipantPayment → Bool
is_unpaid pending = true
is_unpaid paid = false

abbrev pub awaits_payment : PublicFallbackPaymentStatus → Bool
awaits_payment PublicFallbackPaymentStatus.pending = true
awaits_payment _ = false

abbrev pub awaits_buyer : PublicFallbackStatus → Bool
awaits_buyer PublicFallbackStatus.pending = true
awaits_buyer _ = false

abbrev pub is_public : AuctionStatus → Bool
is_public fallback_public_notification = true
is_public _ = false

-- `PublicAuctionFallbackParticipants.setPaymentStatus(PAID)`.
unfoldable pub pay_as_participant : PublicParticipant → Result PublicParticipant
pay_as_participant x =
    if not (is_unpaid x.payment_status)
    then fail payment_status_not_pending
    else ok (record x { payment_status = paid })

-- `PublicFallbackAuction.setPaymentStatus(PAID)`.
unfoldable pub pay_fallback : PublicFallbackAuction → Result PublicFallbackAuction
pay_fallback f =
    if not (awaits_payment f.payment_status)
    then fail payment_status_not_pending
    else ok (record f {
      status = PublicFallbackStatus.accepted;
      payment_status = PublicFallbackPaymentStatus.paid;
    })

-- The output of `createOrder`; the key of the gateway is left out.
pub record Order : Type 0 where
  pub order_id : ℕ
  pub amount_in_paise : ℕ

pub record PublicInput : Type 0 where
  pub auction_id : ℕ
  pub user_id : ℕ

-- A participant that the code makes, `PublicAuctionFallbackParticipants.create`.
abbrev pub participant : ℕ → ℕ → ℕ → ParticipantStatus → ℕ → PublicParticipant
participant id auction_id user status now = record {
  id = id;
  public_fallback_auction_id = auction_id;
  user_id = user;
  status = status;
  payment_status = pending;
  created_at = now;
}

-- The payment of the rest, whose fraction of a unit is left out.
abbrev pub remaining_payment : ℕ → ℕ → PublicFallbackAuction → ℕ → ℕ → ℕ → Payment
remaining_payment id user f ratio ms now = record {
  id = id;
  user_id = user;
  amount = f.amount * ratio / 10000;
  currency = "INR";
  status = PaymentStatus.pending;
  for_payment = for_auction;
  reference_id = f.auction_id;
  phase = PaymentPhase.balance;
  due_at = now + ms;
  created_at = now;
}

-- `IFallbackAuctionRepo`, `IFallbackAuctionParticipantsRepo`, the orders of Razorpay, whose amounts
-- are in hundredths of the currency, and two settings in ten-thousandths, with the platform.
pub record PublicPlatform (W : Type 0) : Type 0 where
  pub platform : Platform W
  pub find_fallback : ℕ → M W (Option PublicFallbackAuction)
  pub save_fallback : PublicFallbackAuction → M W PublicFallbackAuction
  pub find_participant : ℕ → ℕ → M W (Option PublicParticipant)
  pub save_participant : PublicParticipant → M W PublicParticipant
  pub razorpay_order : ℕ → ℕ → ℕ → M W ℕ
  pub initial_split_ratio : M W ℕ
  pub remaining_split_ratio : M W ℕ

module _ {W : Type 0} (d : PublicPlatform W) where
  open d use {
    platform, find_fallback, save_fallback, find_participant, save_participant, razorpay_order,
    initial_split_ratio, remaining_split_ratio,
  }

  -- `RazorpayGatewayService.createOrder`, of an amount in ten-thousandths of the currency.
  unfoldable pub create_order : ℕ → ℕ → ℕ → M W Order
  create_order user amount reference = do
    fail_if (leb amount 0) amount_must_be_positive
    id ← razorpay_order user ((amount + 50) / 100) reference
    return (record { order_id = id; amount_in_paise = (amount + 50) / 100 })

  -- The order of a user who takes part already, or of one who does not yet.
  unfoldable pub order_for :
      PublicInput → PublicFallbackAuction → Option PublicParticipant → M W Order
  order_for input f (some x) = do
    fail_if (is_rejected x.status) participant_rejected
    fail_if (not (is_unpaid x.payment_status)) participant_not_pending
    ratio ← initial_split_ratio
    create_order input.user_id (f.amount * ratio) f.auction_id
  order_for input f none = do
    id ← gives platform.runtime.generate_id
    now ← gets platform.runtime.now
    saved ←
        attempt (
          save_participant
            (participant id f.auction_id input.user_id ParticipantStatus.pending now))
    create_order input.user_id (f.amount * 10000) f.auction_id

  -- `CreatePaymentOrderForPublicFallbackAuctionUsecase.execute`.
  unfoldable pub create_public_order : PublicInput → M W Order
  create_public_order input = do
    found ← platform.auctions.find_by_id input.auction_id
    a ← require found auction_not_found
    fail_if (not (is_public a.status)) not_public_notification
    winners ← platform.winners.find_all_by_auction_id input.auction_id
    fail_if (any (λ (x : AuctionWinner). x.user_id == input.user_id) winners)
        previous_winner_cannot_pay
    offered ← find_fallback input.auction_id
    f ← require offered fallback_not_found
    fail_if (not (awaits_buyer f.status)) fallback_not_pending
    fail_if (not (awaits_payment f.payment_status)) fallback_not_pending_payment
    joined ← find_participant input.auction_id input.user_id
    order_for input f joined

  -- The sale, once both rows are marked as paid.
  unfoldable pub sell : PublicParticipant → PublicFallbackAuction → Auction → M W (Unit {0})
  sell x f a = do
    a1 ← settle (set_winner x.user_id f.amount a)
    ratio_row ← attempt remaining_split_ratio
    ms_row ← attempt platform.config.auction_payment_balance_due_ms
    ratio ← settle ratio_row
    ms ← settle ms_row
    id ← gives platform.runtime.generate_id
    now ← gets platform.runtime.now
    rest ← settle (create_payment (remaining_payment id x.user_id f ratio ms now))
    a2 ← settle (set_status sold a1)
    stored ← attempt (platform.payments.create rest)
    saved ← attempt (platform.auctions.save a2)
    return tt

  -- `VerifyPublicAuctionPaymentUsecase.execute`. The failure of the second mark asks a successful
  -- result for its error, which throws.
  unfoldable pub verify_public_payment : PublicInput → M W (Unit {0})
  verify_public_payment input = do
    fallback_row ← attempt (find_fallback input.auction_id)
    participant_row ← attempt (find_participant input.auction_id input.user_id)
    auction_row ← attempt (platform.auctions.find_by_id input.auction_id)
    auction_found ← settle auction_row
    fallback_found ← settle fallback_row
    participant_found ← settle participant_row
    a ← require auction_found auction_not_found
    f ← require fallback_found fallback_not_found
    x ← require participant_found participant_not_found
    fail_if (not (awaits_payment f.payment_status)) fallback_not_pending_payment
    x' ← settle (pay_as_participant x)
    saved_participant ← attempt (save_participant x')
    f' ← value_of (pay_fallback f)
    saved_fallback ← attempt (save_fallback f')
    sell x' f' a

  -- `DeclinePublicFallbackAuctionUsecase.execute`.
  unfoldable pub decline_public_fallback : PublicInput → M W (Unit {0})
  decline_public_fallback input = do
    found ← platform.auctions.find_by_id input.auction_id
    a ← require found auction_not_found
    fail_if (not (is_public a.status)) not_public_notification
    id ← gives platform.runtime.generate_id
    now ← gets platform.runtime.now
    saved ←
        attempt
          (save_participant (participant id a.id input.user_id ParticipantStatus.rejected now))
    return tt
