-- ===== src/AutoBid.antt =====
-- Automatic bids that answer a bid: src/infrastructure/services/auction/autoBid.service.ts.
pub mod Within
pub mod Chain
pub mod Store
pub mod Answers
pub mod Ends
use auction_platform_backend.Prelude.{
  ℕ, ◌+◌, ◌*◌, Bool, true, false, Option, none, some, List, [], ◌∷◌, ◌++◌, ◌&&◌, not, ltb, leb,
  ◌==◌, find, if◌then◌else◌,
}
use auction_platform_backend.Outcome.{
  Result, ok, fail, M, return, gets, settle, attempt, value_of, ◌>>=◌, ◌>>◌,
}
use auction_platform_backend.Auction.{Auction, create, is_long}
use auction_platform_backend.Auction.Bid.{
  Bid, AuctionParticipant, AutoBidConfig, get_amount, is_paid,
}
use auction_platform_backend.Bidding.{
  should_extend, remaining_ms, extended, validate_and_create_bid,
}
use auction_platform_backend.Services.{Platform}

-- `IAutoBid`, which is also an entry of `placedBids` in the output of a bid. The amount that
-- `getAmount` reads is never null.
pub record PlacedBid : Type 0 where
  pub id : ℕ
  pub auction_id : ℕ
  pub user_id : ℕ
  pub amount : ℕ
  pub created_at : ℕ
  pub end_at : ℕ
  pub extension_count : ℕ

abbrev pub placed_bid : Bid → Auction → PlacedBid
placed_bid b a = record {
  id = b.id;
  auction_id = b.auction_id;
  user_id = b.user_id;
  amount = get_amount b;
  created_at = b.created_at;
  end_at = a.end_at;
  extension_count = a.extension_count;
}

-- `participant && participant.getIntialAmount() === PAID`, for the first row of the user.
abbrev pub is_paid_row : Option AuctionParticipant → Bool
is_paid_row none = false
is_paid_row (some p) = is_paid p.intial_amount

abbrev pub has_paid : ℕ → List AuctionParticipant → Bool
has_paid user ps = is_paid_row (find (λ p. p.user_id == user) ps)

-- `latestBidAmount != null ? latestBidAmount + minIncrement : startPrice`
abbrev pub next_min : Option ℕ → Auction → ℕ
next_min none a = a.start_price
next_min (some x) a = x + a.min_increment

-- `isBidInAntiSnippingTime`: `endAt - now <= window`, with the difference moved.
abbrev pub is_in_anti_snip_time : Auction → ℕ → Bool
is_in_anti_snip_time a now = leb a.end_at (now + a.anti_snip_seconds * 1000)

-- Where the loop over the configurations stands: `currentAmount`, `currentTriggeringUserId`,
-- `currentAuction`.
pub record Turn : Type 0 where
  pub amount : Option ℕ
  pub user_id : ℕ
  pub auction : Auction

module _ {W : Type 0} (p : Platform W) where
  -- A bid in the last seconds of a long auction prolongs it, and the auction is stored anew.
  unfoldable pub extend_if_late : Auction → M W Auction
  extend_if_late a = do
    now ← gets p.runtime.now
    if should_extend a (remaining_ms a now)
        then settle (create (extended a)) >>= p.auctions.save
        else return a

  -- What `placeAutoBidForConfig` does with the outcome of the strategy: a refused bid is no error.
  unfoldable pub place_created : Auction → Result Bid → M W (Option PlacedBid × Auction)
  place_created a (fail e) = return (none, a)
  place_created a (ok b) = do
    a' ← extend_if_late a
    stored ← p.bids.create b
    return (some (placed_bid b a'), a')

  -- `placeAutoBidForConfig`.
  unfoldable pub place_auto_bid :
      AutoBidConfig → Auction → Option ℕ → M W (Option PlacedBid × Auction)
  place_auto_bid config a latest_amount = do
    latest ← p.bids.find_latest_by_auction_id a.id
    last_of_user ← p.bids.find_last_bids_by_user a.id config.user_id
    let amount = next_min latest_amount a
    if ltb config.max_bid_amount amount
        then return (none, a)
        else attempt
            (validate_and_create_bid p a.auction_type a config.user_id amount latest last_of_user)
          >>= place_created a

  -- The configuration may bid at this turn.
  abbrev pub may_answer : List AuctionParticipant → AutoBidConfig → Turn → Bool
  may_answer ps config t =
      config.is_active && (not (config.user_id == t.user_id) && has_paid config.user_id ps)

  -- How the loop goes on after `placeAutoBidForConfig`.
  abbrev pub next_turn : Turn → Result (Option PlacedBid × Auction) → Turn
  next_turn t (ok (some b, a)) = record { amount = some b.amount; user_id = b.user_id; auction = a }
  next_turn t (ok (none, a)) = t
  next_turn t (fail e) = t

  abbrev pub placed : Result (Option PlacedBid × Auction) → List PlacedBid
  placed (ok (some b, a)) = b ∷ []
  placed (ok (none, a)) = []
  placed (fail e) = []

  -- The loop `for (const config of sortedConfigs)`.
  unfoldable pub answer_all :
      List AuctionParticipant → List AutoBidConfig → Turn → List PlacedBid → M W (List PlacedBid)
  answer_all ps [] t acc = return acc
  answer_all ps (config ∷ rest) t acc = elim (may_answer ps config t) [
    | true ↦ attempt (place_auto_bid config t.auction t.amount) >>= λ r.
        answer_all ps rest (next_turn t r) (acc ++ placed r)
    | false ↦ answer_all ps rest t acc
  ]

  -- In the anti-snip window only the first configuration answers; `getValue` on a failed
  -- placement throws.
  unfoldable pub answer_first : Auction → Option ℕ → List AutoBidConfig → M W (List PlacedBid)
  answer_first a latest_amount [] = return []
  answer_first a latest_amount (config ∷ rest) = do
    r ← attempt (place_auto_bid config a latest_amount)
    answer ← value_of r
    return (placed (ok answer))

  -- `handleAuctionPlaceBid`.
  unfoldable pub handle_auction_place_bid : Auction → Option ℕ → ℕ → M W (List PlacedBid)
  handle_auction_place_bid a latest_amount user =
      if not (is_long a.auction_type) then return [] else do
        ps ← p.participants.find_by_auction_id a.id
        sorted ← p.configs.find_active_by_auction_id a.id
        now ← gets p.runtime.now
        if is_in_anti_snip_time a now
            then (do
              answers ← answer_first a latest_amount sorted
              p.configs.disable_all_active_by_auction_id a.id
              return answers)
            else answer_all ps sorted
                (record { amount = latest_amount; user_id = user; auction = a }) []
