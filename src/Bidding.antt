-- ===== src/Bidding.antt =====
-- Who may bid and when an auction is prolonged: src/domain/policies/auction
-- (place-bid-policy.service.ts, should-extend-auction.policy.ts) and the strategies of
-- src/application/strategies/auction that create a bid.
pub mod Policy
pub mod Strategy
use auction_platform_backend.Prelude.{
  ℕ, ◌+◌, ◌*◌, Bool, true, false, Option, none, some, ◌&&◌, not, ltb, leb, ◌==◌, or_else,
  if◌then◌else◌,
}
use auction_platform_backend.Prelude.Int.{ℤ, pos, sub_ℕ, ltb_ℤ, leb_ℤ}
use auction_platform_backend.Outcome.{
  Result, ok, fail, M, gets, gives, settle, value_of, ◌>>=◌, ◌>>◌, auction_not_active,
  auction_not_started, auction_ended, seller_cannot_place_bid, cooldown_wait, bid_below_min,
  only_one_bid_per_user,
}
use auction_platform_backend.Auction.{
  Auction, AuctionType, long, live, sealed, is_active, is_sealed,
}
use auction_platform_backend.Auction.Bid.{Bid, create_bid, get_amount}
use auction_platform_backend.Services.{Platform}

-- The argument of `canPlaceBid`, with the time at which it runs.
pub record BidRequest : Type 0 where
  pub auction : Auction
  pub user_id : ℕ
  pub user_bid_amount : ℕ
  pub latest_bid : Option Bid
  pub user_latest_bid : Option Bid
  pub now : ℕ

-- `now - createdAt < cooldown * 1000`, with the difference moved to the other side.
abbrev pub is_cooling : Option Bid → ℕ → ℕ → Bool
is_cooling none seconds now = false
is_cooling (some b) seconds now = ltb now (b.created_at + seconds * 1000)

-- `latestBid?.getAmount() ?? 0`
abbrev pub latest_amount : Option Bid → ℕ
latest_amount none = 0
latest_amount (some b) = get_amount b

abbrev pub is_own : Option Bid → ℕ → Bool
is_own none user = false
is_own (some b) user = b.user_id == user

unfoldable pub can_place_bid : BidRequest → Result (Unit {0})
can_place_bid r =
    if not (is_active a.status)
    then fail auction_not_active
    else if ltb r.now a.start_at
    then fail auction_not_started
    else if leb a.end_at r.now
    then fail auction_ended
    else if a.seller_id == r.user_id
    then fail seller_cannot_place_bid
    else if is_cooling r.user_latest_bid a.bid_cooldown_seconds r.now
    then fail (cooldown_wait a.bid_cooldown_seconds)
    else if not (is_sealed a.auction_type)
        && ltb r.user_bid_amount (latest_amount r.latest_bid + a.min_increment)
    then fail (bid_below_min r.user_bid_amount a.min_increment)
    else if is_sealed a.auction_type && is_own r.user_latest_bid r.user_id
    then fail only_one_bid_per_user
    else ok tt
  where
    open r use {auction as a}

-- `ShouldExtendAuctionPolicy.shouldExtendAuction`.
abbrev extends_long : Auction → ℤ → Bool
extends_long a remaining =
    if leb (a.anti_snip_seconds * 1000) 0
    then false
    else ltb_ℤ (pos 0) remaining
      && (leb_ℤ remaining (pos (a.anti_snip_seconds * 1000))
          && ltb a.extension_count a.max_extension_count)

abbrev extends_by_type : AuctionType → Auction → ℤ → Bool
extends_by_type long a remaining = extends_long a remaining
extends_by_type sealed a remaining = false
extends_by_type live a remaining = false

unfoldable pub should_extend : Auction → ℤ → Bool
should_extend a remaining = extends_by_type a.auction_type a remaining

-- `auction.getEndAt().getTime() - Date.now()`
abbrev pub remaining_ms : Auction → ℕ → ℤ
remaining_ms a now = sub_ℕ a.end_at now

-- The auction that a late bid prolongs: later by the anti-snip window, one extension more.
unfoldable pub extended : Auction → Auction
extended a = record a {
  end_at = a.end_at + a.anti_snip_seconds * 1000;
  extension_count = a.extension_count + 1;
}

module _ {W : Type 0} (p : Platform W) where
  -- `LongAuctionPlaceBidStrategy.validateAndCreateBid`.
  unfoldable pub long_create_bid : Auction → ℕ → ℕ → Option Bid → Option Bid → M W Bid
  long_create_bid a user amount latest user_latest = do
    now ← gets p.runtime.now
    settle (
        can_place_bid (record {
          auction = a;
          user_id = user;
          user_bid_amount = amount;
          latest_bid = latest;
          user_latest_bid = user_latest;
          now = now;
        }))
    id ← gives p.runtime.generate_id
    settle (
        create_bid (record {
          id = id;
          auction_id = a.id;
          user_id = user;
          created_at = now;
          amount = some amount;
          encrypted_amount = none;
        }))

  -- `SealedAuctionPlaceBidStartegy.validateAndCreateBid`.
  unfoldable pub sealed_create_bid : Auction → ℕ → ℕ → Option Bid → Option Bid → M W Bid
  sealed_create_bid a user amount latest user_latest = do
    now ← gets p.runtime.now
    settle (
        can_place_bid (record {
          auction = a;
          user_id = user;
          user_bid_amount = amount;
          latest_bid = latest;
          user_latest_bid = user_latest;
          now = now;
        }))
    id ← gives p.runtime.generate_id
    cipher ← value_of (p.encryption.encrypt amount)
    settle (
        create_bid (record {
          id = id;
          auction_id = a.id;
          user_id = user;
          created_at = now;
          amount = none;
          encrypted_amount = some cipher;
        }))

  -- `PlaceBidStartegyFactory.getStrategy(type).validateAndCreateBid`.
  unfoldable pub validate_and_create_bid :
      AuctionType → Auction → ℕ → ℕ → Option Bid → Option Bid → M W Bid
  validate_and_create_bid long = long_create_bid
  validate_and_create_bid sealed = sealed_create_bid
  validate_and_create_bid live = long_create_bid
