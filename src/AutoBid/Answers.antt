-- ===== src/AutoBid/Answers.antt =====
-- The stored bids under the automatic answers to a bid.
use auction_platform_backend.Prelude.{
  ℕ, ◌≡◌, refl, inl, inr, Option, none, some, List, [], ◌∷◌, ◌++◌, Bool-cases,
}
use auction_platform_backend.Outcome.{Result, ok, fail, M, value_of, attempt}
use auction_platform_backend.Outcome.Post.{Post, Post-and_then, Post-weaken, Post-attempted}
use auction_platform_backend.Auction.{Auction, is_long}
use auction_platform_backend.Auction.Bid.{Bid, AuctionParticipant, AutoBidConfig}
use auction_platform_backend.Services.{Platform}
use auction_platform_backend.BidStore.{IsCalm, IsOpen, BidLaws, Rises, calm-Post}
use auction_platform_backend.AutoBid.{
  is_in_anti_snip_time, may_answer, next_turn, placed, Turn, PlacedBid, place_auto_bid, answer_all,
  answer_first, handle_auction_place_bid,
}
use auction_platform_backend.AutoBid.Store.{Answered, place_auto_bid-Good}

module _ {W : Type 0} (p : Platform W) (view : W → List Bid) (k inc : ℕ)
    (laws : BidLaws p view k inc) where
  abbrev Open : Auction → Type 0
  Open = IsOpen p view k inc

  abbrev Good : W → Type 0
  Good = Rises p view k inc

  -- Every automatic bid is stored in its place, whatever the order of the configurations.
  answer_all-Good :
      (ps : List AuctionParticipant) (cs : List AutoBidConfig) (t : Turn) (acc : List PlacedBid)
      (w : W)
      → Open t.auction
      → Good w
      → Post (λ x w'. Good w') Good (answer_all p ps cs t acc w)
  unfolding answer_all
  answer_all-Good ps [] t acc w o h = h
  answer_all-Good ps (c ∷ cs) t acc w o h = elim (Bool-cases (may_answer p ps c t)) [
    | inl yes' ↦
        rw (yes', answer_all)
          (Post-and_then Kept (λ x w'. Good w') Good
            (attempt (place_auto_bid p c t.auction t.amount) w) _
            (Post-attempted (Answered p view k inc laws) Good Kept Good
              (place_auto_bid p c t.auction t.amount w)
              (place_auto_bid-Good p view k inc laws c t.auction t.amount w o h)
              (λ x w' (o', g). (next_turn-Open x o', g)) (λ x w' g. (o, g)) (λ w' g. g))
            (λ r w' (o', g). answer_all-Good ps cs (next_turn p t r) (acc ++ placed p r) w' o' g))
    | inr no' ↦ rw (no', answer_all) (answer_all-Good ps cs t acc w o h)
  ]
    where
      Kept : Result (Option PlacedBid × Auction) → W → Type 0
      Kept r w' = Open (next_turn p t r).auction × Good w'

      next_turn-Open :
          (x : Option PlacedBid × Auction) → Open x.1 → Open (next_turn p t (ok x)).auction
      next_turn-Open (some b, a) o' = o'
      next_turn-Open (none, a) o' = o

  answer_first-Good :
      (a : Auction) (n : Option ℕ) (cs : List AutoBidConfig) (w : W)
      → Open a
      → Good w
      → Post (λ x w'. Good w') Good (answer_first p a n cs w)
  unfolding answer_first
  answer_first-Good a n [] w o h = h
  answer_first-Good a n (c ∷ cs) w o h =
      Post-and_then (λ r w'. Good w') (λ x w'. Good w') Good (attempt (place_auto_bid p c a n) w) _
        (Post-attempted (Answered p view k inc laws) Good (λ r w'. Good w') Good
          (place_auto_bid p c a n w) (place_auto_bid-Good p view k inc laws c a n w o h)
          (λ x w' g. g.1) (λ x w' g. g) (λ w' g. g))
        (λ r w' g.
          Post-and_then (λ x w''. Good w'') (λ x w''. Good w'') Good (value_of r w') _
            (valued r w' g) (λ x w'' g'. g'))
    where
      valued :
          (r : Result (Option PlacedBid × Auction)) (w' : W)
          → Good w'
          → Post (λ x w''. Good w'') Good (value_of r w')
      valued (ok x) w' g = g
      valued (fail e) w' g = g

  pub calm-Good :
      {A : Type 0} (m : M W A) (w : W) → IsCalm view m → Good w → Post (λ x w'. Good w') Good (m w)
  calm-Good m w calm h =
      Post-weaken (λ x w'. view w' ≡ view w) Good (λ x w'. Good w') Good (m w)
        (calm-Post p view k inc (view w) m calm h w refl) (λ x w' e. rw e h) (λ w' g. g)

  pub handle-Good :
      (a : Auction) (n : Option ℕ) (user : ℕ) (w : W)
      → Open a
      → Good w
      → Post (λ x w'. Good w') Good (handle_auction_place_bid p a n user w)
  unfolding handle_auction_place_bid
  handle-Good a n user w o h = elim (Bool-cases (is_long a.auction_type)) [
    | inr other ↦ rw other h
    | inl long' ↦ rw long' (
        Post-and_then Q Q Good (p.participants.find_by_auction_id a.id w) _
          (calm-Good (p.participants.find_by_auction_id a.id) w (laws.participants_calm a.id) h)
          (λ ps w1 g1.
            Post-and_then Q Q Good (p.configs.find_active_by_auction_id a.id w1) _
              (calm-Good (p.configs.find_active_by_auction_id a.id) w1 (laws.find_active_calm a.id)
                g1)
              (λ cs w2 g2. elim (Bool-cases (is_in_anti_snip_time a (p.runtime.now w2))) [
                | inr early ↦ rw early (
                    answer_all-Good ps cs (record { amount = n; user_id = user; auction = a }) [] w2
                      o g2)
                | inl late ↦ rw late (
                    Post-and_then Q Q Good (answer_first p a n cs w2) _
                      (answer_first-Good a n cs w2 o g2)
                      (λ x w3 g3.
                        Post-and_then Q Q Good (p.configs.disable_all_active_by_auction_id a.id w3)
                          _
                          (calm-Good (p.configs.disable_all_active_by_auction_id a.id) w3
                            (laws.disable_calm a.id) g3)
                          (λ u w4 g4. g4)))
              ])))
  ]
    where
      Q : {A : Type 0} → A → W → Type 0
      Q x w' = Good w'
