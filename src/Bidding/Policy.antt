-- ===== src/Bidding/Policy.antt =====
-- What the bidding policy admits.
use auction_platform_backend.Prelude.{
  ℕ, ◌+◌, ◌*◌, ◌≤◌, ◌<◌, ◌≡◌, ◌≢◌, Option, none, some, true, false, arith,
}
use auction_platform_backend.Outcome.{ok}
use auction_platform_backend.Auction.{Auction, active, long, create, is_sealed}
use auction_platform_backend.Auction.Bid.{Bid}
use auction_platform_backend.Bidding.{
  BidRequest, can_place_bid, latest_amount, should_extend, remaining_ms, extended,
}

-- A user's last bid is old enough.
abbrev pub IsCool : Option Bid → ℕ → ℕ → Type 0
IsCool none seconds now = Unit
IsCool (some b) seconds now = b.created_at + seconds * 1000 ≤ now

-- A sealed auction takes one bid of each user.
abbrev pub IsNotOwn : Option Bid → ℕ → Type 0
IsNotOwn none user = Unit
IsNotOwn (some b) user = b.user_id ≢ user

-- The conditions under which a user may bid, as the rules of the platform state them.
pub record MayBid (r : BidRequest) : Type 0 where
  pub running : r.auction.status ≡ active
  pub started : r.auction.start_at ≤ r.now
  pub not_over : r.now < r.auction.end_at
  pub not_seller : r.auction.seller_id ≢ r.user_id
  pub cool : IsCool r.user_latest_bid r.auction.bid_cooldown_seconds r.now
  pub raises :
      is_sealed r.auction.auction_type ≡ false
      → latest_amount r.latest_bid + r.auction.min_increment ≤ r.user_bid_amount
  pub first : is_sealed r.auction.auction_type ≡ true → IsNotOwn r.user_latest_bid r.user_id

pub can_place_bid_sound : (r : BidRequest) → can_place_bid r ≡ ok tt → MayBid r
unfolding can_place_bid
can_place_bid_sound r h = ground arith

pub can_place_bid_complete : (r : BidRequest) → MayBid r → can_place_bid r ≡ ok tt
unfolding can_place_bid
can_place_bid_complete r m = ground arith

-- `canPlaceBid` succeeds exactly when the auction is active, has started and is not over, the
-- user is not its seller and has waited for the cooldown, and the amount is at least the latest
-- amount plus the minimal increment (in an open auction) or the user has not bid before (in a
-- sealed one).
pub can_place_bid-MayBid :
    (r : BidRequest) → (can_place_bid r ≡ ok tt → MayBid r) × (MayBid r → can_place_bid r ≡ ok tt)
can_place_bid-MayBid r = (can_place_bid_sound r, can_place_bid_complete r)

-- A prolonged auction ends later than now and by at most one window, keeps its count of
-- extensions within the maximum, and `Auction.create` accepts it if it accepted the auction.
pub should_extend-extended :
    (a : Auction) (now : ℕ)
    → create a ≡ ok a
    → should_extend a (remaining_ms a now) ≡ true
    → (a.auction_type ≡ long)
      × (now < a.end_at)
      × (a.end_at ≤ now + a.anti_snip_seconds * 1000)
      × (now + a.anti_snip_seconds * 1000 < (extended a).end_at)
      × ((extended a).extension_count ≤ a.max_extension_count)
      × (create (extended a) ≡ ok (extended a))
unfolding should_extend extended create
should_extend-extended a now c h = ground arith
