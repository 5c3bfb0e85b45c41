-- ===== src/Bidding/Strategy.antt =====
-- What the strategies that create a bid give: a bid that the policy admits.
use auction_platform_backend.Prelude.{ℕ, ◌≡◌, refl, Option, none, some, false}
use auction_platform_backend.Outcome.{Result, ok, fail}
use auction_platform_backend.Outcome.Post.{Post}
use auction_platform_backend.Auction.{Auction, AuctionType, long, live, sealed, is_sealed}
use auction_platform_backend.Auction.Bid.{Bid, create_bid}
use auction_platform_backend.Bidding.{
  BidRequest, can_place_bid, long_create_bid, validate_and_create_bid,
}
use auction_platform_backend.Bidding.Policy.{MayBid, can_place_bid_sound}
use auction_platform_backend.Services.{Platform}

module _ {W : Type 0} (p : Platform W) (a : Auction) (user amount : ℕ)
    (latest last : Option Bid) where
  abbrev pub request : ℕ → BidRequest
  request now = record {
    auction = a;
    user_id = user;
    user_bid_amount = amount;
    latest_bid = latest;
    user_latest_bid = last;
    now = now;
  }

  -- The bid that an open auction stores: of this user, of this amount, made now.
  abbrev pub IsBidOf : W → Bid → Type 0
  IsBidOf w b =
      (b.auction_id ≡ a.id)
      × (b.user_id ≡ user)
      × (b.amount ≡ some amount)
      × (b.encrypted_amount ≡ none)
      × (b.created_at ≡ p.runtime.now w)

  pub long_create_bid-Admitted :
      (w : W)
      → Post
          (λ b w'.
            MayBid (request (p.runtime.now w)) × IsBidOf w b × (w' ≡ (p.runtime.generate_id w).1))
          (λ w'. w' ≡ w)
          (long_create_bid p a user amount latest last w)
  unfolding long_create_bid create_bid
  long_create_bid-Admitted w = go (can_place_bid (request (p.runtime.now w))) refl
    where
      go :
          (r : Result (Unit {0}))
          → can_place_bid (request (p.runtime.now w)) ≡ r
          → Post
              (λ b w'.
                MayBid (request (p.runtime.now w))
                × IsBidOf w b
                × (w' ≡ (p.runtime.generate_id w).1))
              (λ w'. w' ≡ w)
              (long_create_bid p a user amount latest last w)
      go (ok u) e = rw e (can_place_bid_sound _ e, (refl, refl, refl, refl, refl), refl)
      go (fail x) e = rw e refl

  -- What an admitted bid and the world after it are, for a strategy that ran at `w`.
  abbrev pub Admitted : W → Bid → W → Type 0
  Admitted w b w' =
      MayBid (request (p.runtime.now w)) × IsBidOf w b × (w' ≡ (p.runtime.generate_id w).1)

  pub open_create_bid-Admitted :
      (t : AuctionType) (w : W)
      → is_sealed t ≡ false
      → Post (Admitted w) (λ w'. w' ≡ w) (validate_and_create_bid p t a user amount latest last w)
  unfolding validate_and_create_bid
  open_create_bid-Admitted long w h = long_create_bid-Admitted w
  open_create_bid-Admitted live w h = long_create_bid-Admitted w
  open_create_bid-Admitted sealed w h = cc
