-- ===== src/PlaceBid/Store.antt =====
-- The bids of an open auction keep rising through `place_bid`.
use auction_platform_backend.Prelude.{ℕ, ◌+◌, ◌≤◌, ◌≡◌, refl, not, Option, some, List}
use auction_platform_backend.Outcome.{
  Outcome, done, failed, thrown, or_catch, and_then, manual_while_auto_bid, not_paid_participant,
  auction_not_found, unexpected_error, bid_limit_reached, bid_being_processed,
}
use auction_platform_backend.Outcome.Post.{
  Post, Post-and_then, Post-guarded, Post-required, Post-caught, Post-both, Post-weaken,
}
use auction_platform_backend.Auction.{Auction}
use auction_platform_backend.Auction.Bid.{Bid, AuctionParticipant, get_amount}
use auction_platform_backend.Bidding.{validate_and_create_bid}
use auction_platform_backend.Services.{Platform}
use auction_platform_backend.BidStore.{
  IsCalm, top, IsRising, IsLatest, IsOpen, BidLaws, Rises, calm-Post, IsLatest-read,
}
use auction_platform_backend.AutoBid.{has_paid, extend_if_late, handle_auction_place_bid}
use auction_platform_backend.AutoBid.Store.{
  OpenAt, extend_if_late-Open, create-Good, created-raised,
}
use auction_platform_backend.AutoBid.Answers.{calm-Good, handle-Good}
use auction_platform_backend.PlaceBid.{
  PlaceBidInput, PlaceBidOutput, store_bid, place_locked, check_and_store, try_place_bid, place_bid,
  is_auto_bidding, bid_lock_ttl_seconds,
}

module _ {W : Type 0} (p : Platform W) (view : W → List Bid) (k inc : ℕ)
    (laws : BidLaws p view k inc) where
  abbrev Good : W → Type 0
  Good = Rises p view k inc

  abbrev Open : Auction → Type 0
  Open = IsOpen p view k inc

  -- Rising bids, whatever the call gives.
  abbrev Q : {A : Type 0} → A → W → Type 0
  Q x w = Good w

  store_bid-Good :
      (input : PlaceBidInput) (b : Bid) (a : Auction) (ps : List AuctionParticipant) (v : List Bid)
      (w : W)
      → Open a
      → IsRising inc v
      → view w ≡ v
      → top v + inc ≤ get_amount b
      → Post Q Good (store_bid p input b a ps w)
  unfolding store_bid
  store_bid-Good input b a ps v w o h e t =
      Post-and_then (OpenAt p view k inc laws v) Q Good (extend_if_late p a w) _
        (extend_if_late-Open p view k inc laws a v w o h e)
        (λ a' w1 (o', e1).
          Post-and_then Q Q Good (p.bids.create b w1) _
            (any (p.bids.create b w1) (create-Good p view k inc laws b v w1 h t e1))
            (λ stored w2 g2.
              Post-and_then Q Q Good
                (handle_auction_place_bid p a' (some (get_amount b)) input.user_id w2) _
                (handle-Good p view k inc laws a' (some (get_amount b)) input.user_id w2 o' g2)
                (λ answers w3 g3. g3)))
    where
      any : (r : Outcome Bid × W) → Good r.1 → Post Q Good r
      any (done b', w') g = g
      any (failed x, w') g = g
      any (thrown, w') g = g

  module _ (input : PlaceBidInput) (same : input.auction_id ≡ k) where
    -- The stored auction, read with the bids as they were.
    find_read :
        (v : List Bid) (w : W)
        → IsRising inc v
        → view w ≡ v
        → Post
            (λ o w'. (view w' ≡ v) × ((a : Auction) → o ≡ some a → Open a))
            Good
            (p.auctions.find_by_id input.auction_id w)
    find_read v w h e = rw same (
        Post-both (λ o w'. view w' ≡ v) Good (λ o w'. (a : Auction) → o ≡ some a → Open a)
          (λ w'. Unit {0}) (p.auctions.find_by_id k w)
          (calm-Post p view k inc v (p.auctions.find_by_id k) (laws.find_by_id_calm k) h w e)
          (laws.stored_law w))

    checked-Good :
        (found : Option Auction) (latest : Option Bid) (v : List Bid) (w : W)
        → ((a : Auction) → found ≡ some a → Open a)
        → IsLatest v latest
        → IsRising inc v
        → view w ≡ v
        → Post Q Good (check_and_store p input found latest w)
    unfolding check_and_store
    checked-Good found latest v w opened l h e =
        Post-and_then Still Q Good (p.bids.find_last_bids_by_user input.auction_id input.user_id w)
          _
          (calm-Post p view k inc v (p.bids.find_last_bids_by_user input.auction_id input.user_id)
            (laws.find_last_calm input.auction_id input.user_id) h w e)
          (λ last w1 e1.
            Post-and_then Still Q Good (p.participants.find_by_auction_id input.auction_id w1) _
              (calm-Post p view k inc v (p.participants.find_by_auction_id input.auction_id)
                (laws.participants_calm input.auction_id) h w1 e1)
              (λ ps w2 e2.
                Post-guarded Q Good (not (has_paid input.user_id ps)) not_paid_participant w2 _
                  (rw e2 h)
                  (λ paid.
                    Post-required Q Good found auction_not_found w2 _ (rw e2 h)
                      (λ a f. created a last ps w2 (opened a f) e2))))
      where
        Still : {A : Type 0} → A → W → Type 0
        Still x w' = view w' ≡ v

        created :
            (a : Auction) (last : Option Bid) (ps : List AuctionParticipant) (w' : W)
            → Open a
            → view w' ≡ v
            → Post Q Good (
                and_then
                  (validate_and_create_bid p a.auction_type a input.user_id input.amount latest last
                    w')
                  (λ b. store_bid p input b a ps))
        created a last ps w' o e' =
            Post-and_then (λ b w''. (view w'' ≡ v) × (top v + inc ≤ get_amount b)) Q Good
              (validate_and_create_bid p a.auction_type a input.user_id input.amount latest last w')
              _
              (Post-weaken (λ b w''. (view w'' ≡ v) × (top v + inc ≤ get_amount b))
                (λ w''. view w'' ≡ v) (λ b w''. (view w'' ≡ v) × (top v + inc ≤ get_amount b)) Good
                (validate_and_create_bid p a.auction_type a input.user_id input.amount latest last
                  w')
                (created-raised p view k inc laws a input.user_id input.amount latest last v w' o h
                  e' l)
                (λ b w'' q. q) (λ w'' q. rw q h))
              (λ b w'' (q, t). store_bid-Good input b a ps v w'' o h q t)

    place_locked-Good : (w : W) → Good w → Post Q Good (place_locked p input w)
    unfolding place_locked
    place_locked-Good w h =
        Post-and_then Still Q Good
          (p.configs.find_by_user_and_auction input.user_id input.auction_id w) _
          (calm-Post p view k inc (view w)
            (p.configs.find_by_user_and_auction input.user_id input.auction_id)
            (laws.find_config_calm input.user_id input.auction_id) h w refl)
          (λ config w1 e1.
            Post-guarded Q Good (is_auto_bidding config) manual_while_auto_bid w1 _ (rw e1 h)
              (λ idle.
                Post-and_then (λ o w'. (view w' ≡ view w) × ((a : Auction) → o ≡ some a → Open a)) Q
                  Good (p.auctions.find_by_id input.auction_id w1) _ (find_read (view w) w1 h e1)
                  (λ found w2 (e2, opened).
                    Post-and_then (λ o w'. (view w' ≡ view w) × IsLatest (view w) o) Q Good
                      (p.bids.find_latest_by_auction_id input.auction_id w2) _
                      (IsLatest-read p view k inc laws input.auction_id (view w) w2 same h e2)
                      (λ latest w3 (e3, l). checked-Good found latest (view w) w3 opened l h e3))))
      where
        Still : {A : Type 0} → A → W → Type 0
        Still x w' = view w' ≡ view w

    try_place_bid-Good :
        ((u i : ℕ) → IsCalm view (p.plans.can_place_bid u i))
        → ((i t n : ℕ) → IsCalm view (p.locks.lock i t n))
        → (token : ℕ) (w : W) → Good w
        → Post Q Good (try_place_bid p input token w)
    unfolding try_place_bid
    try_place_bid-Good plan_calm lock_calm token w h =
        Post-and_then Q Q Good (p.plans.can_place_bid input.user_id input.auction_id w) _
          (calm-Good p view k inc laws (p.plans.can_place_bid input.user_id input.auction_id) w
            (plan_calm input.user_id input.auction_id) h)
          (λ allowed w1 g1. Post-guarded Q Good (not allowed) bid_limit_reached w1 _ g1 (λ within.
            Post-and_then Q Q Good (p.locks.lock input.auction_id token bid_lock_ttl_seconds w1) _
              (calm-Good p view k inc laws
                (p.locks.lock input.auction_id token bid_lock_ttl_seconds) w1
                (lock_calm input.auction_id token bid_lock_ttl_seconds) g1)
              (λ locked w2 g2.
                Post-guarded Q Good (not locked) bid_being_processed w2 _ g2
                  (λ held. place_locked-Good w2 g2))))

    -- Let the bids of an open auction, newest first, each be at least `inc` above the one before.
    -- Then they are so after `place_bid` too, the automatic bids included, and however it ends:
    -- with a result, a failure or a throw.
    pub place_bid-IsRising :
        ((u i : ℕ) → IsCalm view (p.plans.can_place_bid u i))
        → ((i t n : ℕ) → IsCalm view (p.locks.lock i t n))
        → ((i t : ℕ) (w : W) → view (p.locks.release i t w) ≡ view w)
        → (w : W) → IsRising inc (view w)
        → IsRising inc (view (place_bid p input w).1)
    unfolding place_bid
    place_bid-IsRising plan_calm lock_calm release_calm w h =
        let (token, w1) = p.runtime.generate_id w in
        rw
          (release_calm input.auction_id token
            (or_catch (try_place_bid p input token) unexpected_error w1).1)
          (ended (or_catch (try_place_bid p input token) unexpected_error w1) (
            Post-caught Q Good (try_place_bid p input token w1) unexpected_error
              (try_place_bid-Good plan_calm lock_calm token w1 (rw (laws.generate_id_calm w) h))))
      where
        ended : (r : Outcome PlaceBidOutput × W) → Post Q Good r → Good r.1
        ended (done x, w') g = g
        ended (failed e, w') g = g
        ended (thrown, w') g = g
