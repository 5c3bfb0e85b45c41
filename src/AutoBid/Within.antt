-- ===== src/AutoBid/Within.antt =====
-- What an attempt of one configuration places: a bid of its user within its maximum.
use auction_platform_backend.Prelude.{
  ℕ, ◌≤◌, ◌≡◌, ap, refl, Bool, true, false, ltb, or_else, Option, none, some, arith, if◌then◌else◌,
}
use auction_platform_backend.Outcome.{
  Result, ok, fail, Outcome, done, failed, thrown, attempt, attempted, value_of, return, ◌>>=◌,
}
use auction_platform_backend.Outcome.Post.{Post, Post-and_then, Post-settled, Post-weaken}
use auction_platform_backend.Auction.{Auction, AuctionType, long, live, sealed}
use auction_platform_backend.Auction.Bid.{Bid, AutoBidConfig, get_amount, create_bid}
use auction_platform_backend.Bidding.{
  can_place_bid, validate_and_create_bid, long_create_bid, sealed_create_bid,
}
use auction_platform_backend.Bidding.Strategy.{request, Admitted, long_create_bid-Admitted}
use auction_platform_backend.Services.{Platform}
use auction_platform_backend.AutoBid.{
  PlacedBid, next_min, extend_if_late, place_created, place_auto_bid,
}

module _ {W : Type 0} (p : Platform W) where
  abbrev pub Whatever : W → Type 0
  Whatever w = Unit {0}

  -- A bid of a user, of at most an amount.
  abbrev Bounded : ℕ → ℕ → Bid → W → Type 0
  Bounded user n b w = (b.user_id ≡ user) × (get_amount b ≤ n)

  long-Bounded :
      (a : Auction) (user n : ℕ) (latest last : Option Bid) (w : W)
      → Post (Bounded user n) Whatever (long_create_bid p a user n latest last w)
  long-Bounded a user n latest last w =
      Post-weaken (Admitted p a user n latest last w) (λ w'. w' ≡ w) (Bounded user n) Whatever
        (long_create_bid p a user n latest last w)
        (long_create_bid-Admitted p a user n latest last w)
        (λ b w' (m, (i, u, x, cipher, at), e). (u, omega (arith, ap (λ o. or_else o 0) x)))
        (λ w' e. tt)

  sealed-Bounded :
      (a : Auction) (user n : ℕ) (latest last : Option Bid) (w : W)
      → Post (Bounded user n) Whatever (sealed_create_bid p a user n latest last w)
  unfolding sealed_create_bid create_bid
  sealed-Bounded a user n latest last w =
      Post-settled (Bounded user n) Whatever
        (can_place_bid (request p a user n latest last (p.runtime.now w))) w _ tt
        (λ u q.
          Post-and_then (λ c w'. Unit {0}) (Bounded user n) Whatever
            (value_of (p.encryption.encrypt n) (p.runtime.generate_id w).1) _
            (valued (p.encryption.encrypt n) (p.runtime.generate_id w).1)
            (λ c w' u'. (refl, omega arith)))
    where
      valued : (r : Result ℕ) (w' : W) → Post (λ c w''. Unit {0}) Whatever (value_of r w')
      valued (ok c) w' = tt
      valued (fail e) w' = tt

  created-Bounded :
      (t : AuctionType) (a : Auction) (user n : ℕ) (latest last : Option Bid) (w : W)
      → Post (Bounded user n) Whatever (validate_and_create_bid p t a user n latest last w)
  unfolding validate_and_create_bid
  created-Bounded long a user n latest last w = long-Bounded a user n latest last w
  created-Bounded live a user n latest last w = long-Bounded a user n latest last w
  created-Bounded sealed a user n latest last w = sealed-Bounded a user n latest last w

  -- What an attempt of a configuration gives: nothing, or a bid of its user within its maximum.
  abbrev pub IsWithin : AutoBidConfig → Option PlacedBid → Type 0
  IsWithin c none = Unit
  IsWithin c (some b) = (b.user_id ≡ c.user_id) × (b.amount ≤ c.max_bid_amount)

  abbrev pub Within : AutoBidConfig → Option PlacedBid × Auction → W → Type 0
  Within c x w = IsWithin c x.0

  anyhow : {A : Type 0} (r : Outcome A × W) → Post (λ (x : A) w. Unit {0}) Whatever r
  anyhow (done x, w) = tt
  anyhow (failed e, w) = tt
  anyhow (thrown, w) = tt

  place_created-Within :
      (c : AutoBidConfig) (a : Auction) (n : ℕ) (r : Result Bid) (w : W)
      → n ≤ c.max_bid_amount
      → ((b : Bid) → r ≡ ok b → (b.user_id ≡ c.user_id) × (get_amount b ≤ n))
      → Post (Within c) Whatever (place_created p a r w)
  unfolding place_created
  place_created-Within c a n (fail e) w h f = tt
  place_created-Within c a n (ok b) w h f =
      Post-and_then (λ a' w'. Unit {0}) (Within c) Whatever (extend_if_late p a w) _
        (anyhow (extend_if_late p a w))
        (λ a' w1 u1.
          Post-and_then (λ x w'. Unit {0}) (Within c) Whatever (p.bids.create b w1) _
            (anyhow (p.bids.create b w1))
            (λ x w2 u2. let (i, m) = f b refl in (i, omega (arith, m, h))))

  pub place_auto_bid-Within :
      (c : AutoBidConfig) (a : Auction) (amount : Option ℕ) (w : W)
      → Post (Within c) Whatever (place_auto_bid p c a amount w)
  unfolding place_auto_bid
  place_auto_bid-Within c a amount w =
      Post-and_then (λ x w'. Unit {0}) (Within c) Whatever (p.bids.find_latest_by_auction_id a.id w)
        _ (anyhow (p.bids.find_latest_by_auction_id a.id w))
        (λ latest w1 u1.
          Post-and_then (λ x w'. Unit {0}) (Within c) Whatever
            (p.bids.find_last_bids_by_user a.id c.user_id w1) _
            (anyhow (p.bids.find_last_bids_by_user a.id c.user_id w1))
            (λ last w2 u2. chosen latest last w2 (ltb c.max_bid_amount (next_min amount a)) refl))
    where
      kept :
          (n : ℕ) (r : Outcome Bid × W)
          → Post (Bounded c.user_id n) Whatever r
          → Post
              (λ r w'. (b : Bid) → r ≡ ok b → (b.user_id ≡ c.user_id) × (get_amount b ≤ n))
              Whatever
              (attempted r)
      kept n (done b', w') h = λ b e. let same : b ≡ b' = cc in rw same h
      kept n (failed x, w') h = λ b e. cc
      kept n (thrown, w') h = tt

      chosen :
          (latest last : Option Bid) (w2 : W) (t : Bool)
          → ltb c.max_bid_amount (next_min amount a) ≡ t
          → Post (Within c) Whatever (
              (if t
                  then return (none, a)
                  else (attempt (
                        validate_and_create_bid p a.auction_type a c.user_id
                          (next_min amount a)
                          latest
                          last)
                      >>= place_created p a))
                w2)
      chosen latest last w2 true e = tt
      chosen latest last w2 false e =
          let n = next_min amount a in
          Post-and_then
            (λ r w'. (b : Bid) → r ≡ ok b → (b.user_id ≡ c.user_id) × (get_amount b ≤ n)) (Within c)
            Whatever
            (attempt (validate_and_create_bid p a.auction_type a c.user_id n latest last) w2) _
            (kept n (validate_and_create_bid p a.auction_type a c.user_id n latest last w2)
              (created-Bounded a.auction_type a c.user_id n latest last w2))
            (λ r w3 f. place_created-Within c a n r w3 (ground arith) f)
