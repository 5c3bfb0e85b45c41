-- ===== src/Auction/Bid.antt =====
-- The records around an auction: src/domain/entities/auction/bid.entity.ts,
-- auction-participant.entity.ts, auction-winner.entity.ts and auto-bid-config.entity.ts.
use auction_platform_backend.Prelude.{
  ℕ, zero, suc, Bool, true, false, Option, none, some, ltb, or_else, if◌then◌else◌,
}
use Prim.Native.String.{String}
use auction_platform_backend.Outcome.{
  Result, ok, fail, amount_and_encrypted, max_bid_amount_not_positive,
}

-- An encrypted amount is a cipher text that only the encryption service reads; it is never empty.
pub record Bid : Type 0 where
  pub id : ℕ
  pub auction_id : ℕ
  pub user_id : ℕ
  pub created_at : ℕ
  pub amount : Option ℕ
  pub encrypted_amount : Option ℕ

-- `amount && encryptedAmount`: an amount of zero counts as absent.
abbrev both_given : Option ℕ → Option ℕ → Bool
both_given amount none = false
both_given none (some _) = false
both_given (some zero) (some _) = false
both_given (some (suc _)) (some _) = true

unfoldable pub create_bid : Bid → Result Bid
create_bid b = if both_given b.amount b.encrypted_amount then fail amount_and_encrypted else ok b

-- `getAmount()`: a missing amount reads as 0.
abbrev pub get_amount : Bid → ℕ
get_amount b = or_else b.amount 0

pub data ParticipantPaymentStatus : Type 0 where
  pending paid : ParticipantPaymentStatus

pub record AuctionParticipant : Type 0 where
  pub id : ℕ
  pub auction_id : ℕ
  pub user_id : ℕ
  pub intial_amount : ParticipantPaymentStatus
  pub user_name : String
  pub joined_at : ℕ

unfoldable pub set_initial_amount :
    ParticipantPaymentStatus → AuctionParticipant → AuctionParticipant
set_initial_amount status p = record p { intial_amount = status }

abbrev pub is_paid : ParticipantPaymentStatus → Bool
is_paid paid = true
is_paid pending = false

pub data AuctionWinnerStatus : Type 0 where
  pending partial_payment_pending completed failed cancelled : AuctionWinnerStatus

pub record AuctionWinner : Type 0 where
  pub id : ℕ
  pub auction_id : ℕ
  pub user_id : ℕ
  pub amount : ℕ
  pub rank : ℕ
  pub status : AuctionWinnerStatus
  pub rejection_reason : Option String

pub data AutoBidStrategy : Type 0 where
  slow faster sniper : AutoBidStrategy

pub record AutoBidConfig : Type 0 where
  pub id : ℕ
  pub user_id : ℕ
  pub auction_id : ℕ
  pub max_bid_amount : ℕ
  pub strategy : AutoBidStrategy
  pub is_active : Bool
  pub created_at : ℕ
  pub updated_at : ℕ

unfoldable pub create_config : AutoBidConfig → Result AutoBidConfig
create_config c = if ltb 0 c.max_bid_amount then ok c else fail max_bid_amount_not_positive

-- `updateConfig`, which does not test the new maximum.
unfoldable pub update_config : AutoBidStrategy → ℕ → Bool → ℕ → AutoBidConfig → AutoBidConfig
update_config s max on now c = record c {
  strategy = s;
  max_bid_amount = max;
  is_active = on;
  updated_at = now;
}

unfoldable pub disable : ℕ → AutoBidConfig → AutoBidConfig
disable now c = record c { is_active = false; updated_at = now }
