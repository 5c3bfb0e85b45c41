-- ===== src/PlaceBid.antt =====
-- Placing a bid: src/application/usecases/auction/placeBid.usecase.ts.
pub mod Store
use auction_platform_backend.Prelude.{
  ℕ, ◌+◌, Bool, false, Option, none, some, List, [], ◌∷◌, ◌++◌, not, length,
}
use Prim.Native.String.{String}
use auction_platform_backend.Outcome.{
  M, return, gives, require, fail_if, or_catch, finally, ◌>>=◌, ◌>>◌, bid_limit_reached,
  bid_being_processed, manual_while_auto_bid, not_paid_participant, auction_not_found,
  unexpected_error,
}
use auction_platform_backend.Auction.{Auction}
use auction_platform_backend.Auction.Bid.{Bid, AuctionParticipant, AutoBidConfig, get_amount}
use auction_platform_backend.Bidding.{validate_and_create_bid}
use auction_platform_backend.AutoBid.{
  PlacedBid, placed_bid, has_paid, extend_if_late, handle_auction_place_bid,
}
use auction_platform_backend.Services.{Platform}

pub record PlaceBidInput : Type 0 where
  pub auction_id : ℕ
  pub user_id : ℕ
  pub user_name : String
  pub amount : ℕ

-- `IPlaceBidOutput`; `autoBidCount` is left unset where it is 0 here.
pub record PlaceBidOutput : Type 0 where
  pub bid : PlacedBid
  pub end_at : ℕ
  pub extension_count : ℕ
  pub next_bid_min : ℕ
  pub participants : List AuctionParticipant
  pub placed_bids : List PlacedBid
  pub final_bid : Option PlacedBid
  pub auto_bid_count : ℕ

-- `BID_LOCK_TTL_SECONDS` of src/application/constants/auction/bid.constants.ts.
abbrev pub bid_lock_ttl_seconds : ℕ
bid_lock_ttl_seconds = 5

-- `autoBidConfigResult.getValue()?.getIsActive()`
abbrev pub is_auto_bidding : Option AutoBidConfig → Bool
is_auto_bidding none = false
is_auto_bidding (some c) = c.is_active

-- `placedAutoBids[placedAutoBids.length - 1]`
abbrev pub last : PlacedBid → List PlacedBid → PlacedBid
last b [] = b
last b (c ∷ cs) = last c cs

-- The output before the automatic bids.
abbrev pub first_output : Bid → Auction → List AuctionParticipant → PlaceBidOutput
first_output b a ps = record {
  bid = placed_bid b a;
  end_at = a.end_at;
  extension_count = a.extension_count;
  next_bid_min = get_amount b + a.min_increment;
  participants = ps;
  placed_bids = placed_bid b a ∷ [];
  final_bid = none;
  auto_bid_count = 0;
}

-- The output with the automatic bids put in.
unfoldable pub with_auto_bids : Auction → PlaceBidOutput → List PlacedBid → PlaceBidOutput
with_auto_bids a out [] = out
with_auto_bids a out (b ∷ bs) = record out {
  placed_bids = out.placed_bids ++ b ∷ bs;
  final_bid = some (last b bs);
  auto_bid_count = length (b ∷ bs);
  end_at = (last b bs).end_at;
  extension_count = (last b bs).extension_count;
  next_bid_min = (last b bs).amount + a.min_increment;
}

module _ {W : Type 0} (p : Platform W) where
  -- From the stored bid to the output.
  unfoldable pub store_bid :
      PlaceBidInput → Bid → Auction → List AuctionParticipant → M W PlaceBidOutput
  store_bid input b a ps = do
    a' ← extend_if_late p a
    stored ← p.bids.create b
    answers ← handle_auction_place_bid p a' (some (get_amount b)) input.user_id
    return (with_auto_bids a' (first_output b a' ps) answers)

  -- Once the auction and its latest bid are read: the tests of the participant and the policy,
  -- then the bid.
  unfoldable pub check_and_store : PlaceBidInput → Option Auction → Option Bid → M W PlaceBidOutput
  check_and_store input found latest = do
    last_of_user ← p.bids.find_last_bids_by_user input.auction_id input.user_id
    ps ← p.participants.find_by_auction_id input.auction_id
    fail_if (not (has_paid input.user_id ps)) not_paid_participant
    a ← require found auction_not_found
    b ← validate_and_create_bid p a.auction_type a input.user_id input.amount latest last_of_user
    store_bid input b a ps

  -- What runs under the lock.
  unfoldable pub place_locked : PlaceBidInput → M W PlaceBidOutput
  place_locked input = do
    config ← p.configs.find_by_user_and_auction input.user_id input.auction_id
    fail_if (is_auto_bidding config) manual_while_auto_bid
    found ← p.auctions.find_by_id input.auction_id
    latest ← p.bids.find_latest_by_auction_id input.auction_id
    check_and_store input found latest

  -- The block of `try`.
  unfoldable pub try_place_bid : PlaceBidInput → ℕ → M W PlaceBidOutput
  try_place_bid input token = do
    allowed ← p.plans.can_place_bid input.user_id input.auction_id
    fail_if (not allowed) bid_limit_reached
    locked ← p.locks.lock input.auction_id token bid_lock_ttl_seconds
    fail_if (not locked) bid_being_processed
    place_locked input

  -- `PlaceBidUsecase.execute`.
  unfoldable pub place_bid : PlaceBidInput → M W PlaceBidOutput
  place_bid input = do
    token ← gives p.runtime.generate_id
    finally (or_catch (try_place_bid input token) unexpected_error)
        (p.locks.release input.auction_id token)
