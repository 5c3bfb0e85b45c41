-- ===== src/AutoBid/Store.antt =====
-- The bids of an auction keep rising through the automatic bids.
use auction_platform_backend.Prelude.{
  ℕ, ◌+◌, ◌≤◌, ◌≡◌, ◌∙◌, ltb, refl, inl, inr, Option, some, List, Bool-cases, arith,
}
use auction_platform_backend.Outcome.{
  Result, ok, fail, Outcome, done, failed, thrown, attempt, settle, and_then, return, ◌>>=◌,
}
use auction_platform_backend.Outcome.Post.{
  Post, Post-and_then, Post-weaken, Post-both, Post-attempted,
}
use auction_platform_backend.Auction.{Auction, create}
use auction_platform_backend.Auction.Bid.{Bid, get_amount, AutoBidConfig}
use auction_platform_backend.Bidding.{
  validate_and_create_bid, should_extend, remaining_ms, extended,
}
use auction_platform_backend.Services.{Platform}
use auction_platform_backend.Bidding.Policy.{MayBid}
use auction_platform_backend.Bidding.Strategy.{request, Admitted, open_create_bid-Admitted}
use auction_platform_backend.BidStore.{
  top, IsLatest, IsLatest-read, latest-top, IsRising, IsOpen, BidLaws, Rises, calm-Post,
}
use auction_platform_backend.AutoBid.{
  next_min, PlacedBid, extend_if_late, place_created, placed_bid, place_auto_bid,
}

module _ {W : Type 0} (p : Platform W) (view : W → List Bid) (k inc : ℕ)
    (laws : BidLaws p view k inc) where
  abbrev pub Open : Auction → Type 0
  Open = IsOpen p view k inc

  abbrev pub Good : W → Type 0
  Good = Rises p view k inc

  -- An open auction, and the bids as they were.
  abbrev pub OpenAt : List Bid → Auction → W → Type 0
  OpenAt v a w = Open a × (view w ≡ v)

  -- An open auction, and rising bids.
  abbrev pub Answered : Option PlacedBid × Auction → W → Type 0
  Answered x w = Open x.1 × Good w

  extended-Open : (a : Auction) → Open a → Open (extended a)
  unfolding extended
  extended-Open a o = ground arith

  created-Open : (a a' : Auction) → create a ≡ ok a' → Open a → Open a'
  unfolding create
  created-Open a a' e o = ground arith

  pub extend_if_late-Open :
      (a : Auction) (v : List Bid) (w : W)
      → Open a
      → IsRising inc v
      → view w ≡ v
      → Post (OpenAt v) Good (extend_if_late p a w)
  unfolding extend_if_late
  extend_if_late-Open a v w o h e =
      elim (Bool-cases (should_extend a (remaining_ms a (p.runtime.now w)))) [
        | inl late ↦ rw late (
            Post-and_then (λ a' w'. (create (extended a) ≡ ok a') × (w' ≡ w)) _ Good _
              p.auctions.save (settled (create (extended a)))
              (λ a' w' (c, q).
                rw q (saved a' (created-Open (extended a) a' c (extended-Open a o)))))
        | inr early ↦ rw early (o, e)
      ]
    where
      settled : (r : Result Auction) → Post (λ a' w'. (r ≡ ok a') × (w' ≡ w)) Good (settle r w)
      settled (ok a') = (refl, refl)
      settled (fail x) = rw e h

      saved : (a' : Auction) → Open a' → Post (OpenAt v) Good (p.auctions.save a' w)
      saved a' o' =
          Post-weaken (λ a'' w'. (view w' ≡ v) × Open a'') Good (OpenAt v) Good
            (p.auctions.save a' w)
            (Post-both (λ a'' w'. view w' ≡ v) Good (λ a'' w'. Open a'') (λ w'. Unit {0})
              (p.auctions.save a' w)
              (calm-Post p view k inc v (p.auctions.save a') (laws.save_calm a') h w e)
              (laws.saved_law a' w o'))
            (λ a'' w' (q, o''). (o'', q)) (λ w' g. g)

  -- Storing a bid that tops the others.
  pub create-Good :
      (b : Bid) (v : List Bid) (w : W)
      → IsRising inc v
      → top v + inc ≤ get_amount b
      → view w ≡ v
      → Good (p.bids.create b w).1
  create-Good b v w h t e = elim (laws.create_law b w) [
    | inl same ↦ rw (same, e) h
    | inr more ↦ rw (more, e) (t, h)
  ]

  place_created-Good :
      (a : Auction) (r : Result Bid) (v : List Bid) (w : W)
      → Open a
      → IsRising inc v
      → view w ≡ v
      → ((b : Bid) → r ≡ ok b → top v + inc ≤ get_amount b)
      → Post Answered Good (place_created p a r w)
  unfolding place_created
  place_created-Good a (fail x) v w o h e t = (o, rw e h)
  place_created-Good a (ok b) v w o h e t =
      Post-and_then (OpenAt v) Answered Good (extend_if_late p a w) _
        (extend_if_late-Open a v w o h e)
        (λ a' w' (o', e').
          stored a' w' o' (create-Good b v w' h (t b refl) e') (p.bids.create b w') refl)
    where
      stored :
          (a' : Auction) (w' : W)
          → Open a'
          → Good (p.bids.create b w').1
          → (r : Outcome Bid × W) → p.bids.create b w' ≡ r
          → Post Answered Good (and_then r (λ stored. return (some (placed_bid b a'), a')))
      stored a' w' o' g (done b', w'') q = (o', rw q at g)
      stored a' w' o' g (failed x, w'') q = rw q at g
      stored a' w' o' g (thrown, w'') q = rw q at g

  raised :
      (a : Auction) (user n : ℕ) (latest last : Option Bid) (v : List Bid) (now : ℕ) (b : Bid)
      → Open a
      → IsRising inc v
      → IsLatest v latest
      → MayBid (request p a user n latest last now)
      → b.amount ≡ some n
      → top v + inc ≤ get_amount b
  raised a user n latest last v now b o h l m e =
      rw e (omega (arith, latest-top inc v latest h l, m.raises o.unsealed, o.increment))

  pub created-raised :
      (a : Auction) (user n : ℕ) (latest last : Option Bid) (v : List Bid) (w : W)
      → Open a
      → IsRising inc v
      → view w ≡ v
      → IsLatest v latest
      → Post
          (λ b w'. (view w' ≡ v) × (top v + inc ≤ get_amount b))
          (λ w'. view w' ≡ v)
          (validate_and_create_bid p a.auction_type a user n latest last w)
  created-raised a user n latest last v w o h e l =
      Post-weaken (Admitted p a user n latest last w) (λ w'. w' ≡ w)
        (λ b w'. (view w' ≡ v) × (top v + inc ≤ get_amount b)) (λ w'. view w' ≡ v)
        (validate_and_create_bid p a.auction_type a user n latest last w)
        (open_create_bid-Admitted p a user n latest last a.auction_type w o.unsealed)
        (λ b w' (m, i, q). (
          rw q (laws.generate_id_calm w ∙ e),
          raised a user n latest last v (p.runtime.now w) b o h l m i.2,
        ))
        (λ w' q. rw q e)

  answer-Good :
      (config : AutoBidConfig) (a : Auction) (n : ℕ) (latest last : Option Bid) (v : List Bid)
      (w : W)
      → Open a
      → IsRising inc v
      → view w ≡ v
      → IsLatest v latest
      → Post Answered Good (
          (attempt (validate_and_create_bid p a.auction_type a config.user_id n latest last)
              >>= place_created p a)
            w)
  answer-Good config a n latest last v w o h e l =
      Post-and_then Ready Answered Good
        (attempt (validate_and_create_bid p a.auction_type a config.user_id n latest last) w)
        (place_created p a)
        (Post-attempted (λ b w'. (view w' ≡ v) × (top v + inc ≤ get_amount b)) (λ w'. view w' ≡ v)
          Ready Good (validate_and_create_bid p a.auction_type a config.user_id n latest last w)
          (created-raised a config.user_id n latest last v w o h e l)
          (λ b w' (q, t). (q, λ b' c. rw (same b b' c) at t)) (λ x w' q. (q, λ b' c. cc))
          (λ w' q. rw q h))
        (λ r w' (q, t). place_created-Good a r v w' o h q t)
    where
      same : (b b' : Bid) → Result.ok b ≡ ok b' → b ≡ b'
      same b b' c = cc

      Ready : Result Bid → W → Type 0
      Ready r w' = (view w' ≡ v) × ((b : Bid) → r ≡ ok b → top v + inc ≤ get_amount b)

  pub place_auto_bid-Good :
      (config : AutoBidConfig) (a : Auction) (amount : Option ℕ) (w : W)
      → Open a
      → Good w
      → Post Answered Good (place_auto_bid p config a amount w)
  unfolding place_auto_bid
  place_auto_bid-Good config a amount w o h =
      Post-and_then (λ o w'. (view w' ≡ view w) × IsLatest (view w) o) Answered Good
        (p.bids.find_latest_by_auction_id a.id w) _
        (IsLatest-read p view k inc laws a.id (view w) w o.same h refl)
        (λ latest w1 (e1, l).
          Post-and_then (λ o w'. view w' ≡ view w) Answered Good
            (p.bids.find_last_bids_by_user a.id config.user_id w1) _
            (calm-Post p view k inc (view w) (p.bids.find_last_bids_by_user a.id config.user_id)
              (laws.find_last_calm a.id config.user_id) h w1 e1)
            (λ last w2 e2. elim (Bool-cases (ltb config.max_bid_amount (next_min amount a))) [
              | inl above ↦ rw above (o, rw e2 h)
              | inr within ↦
                  rw within
                    (answer-Good config a (next_min amount a) latest last (view w) w2 o h e2 l)
            ]))
