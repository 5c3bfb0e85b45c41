-- ===== src/Tests/Bidding.antt =====
-- Bidding at concrete inputs.
use auction_platform_backend.Prelude.{
  ◌&&◌, ◌==◌, Bool, All, Member, head, tail, Bool-cases, map, if◌then◌else◌, ℕ, ◌+◌, ◌*◌, ◌<◌, ◌≤◌,
  ◌≡◌, ◌≢◌, refl, inl, inr, true, false, Option, none, some, List, [], ◌∷◌, leb, arith,
}
use auction_platform_backend.Auction.Bid.{Bid, get_amount, create_bid}
use auction_platform_backend.Outcome.{done, ok}
use auction_platform_backend.Auction.{Auction, is_long, long, create}
use auction_platform_backend.Outcome.Post.{Post}
use auction_platform_backend.AutoBid.Ends.{SavedLaws, last_end, extend_all, extend_all-IsClosed}
use auction_platform_backend.AutoBid.Chain.{Answers, answer_all-Answers}
use auction_platform_backend.Bidding.Policy.{MayBid, can_place_bid-MayBid, should_extend-extended}
use auction_platform_backend.Services.{Platform}
use auction_platform_backend.BidStore.{IsLatest, IsRising, BidLaws}
use auction_platform_backend.PlaceBid.{
  PlaceBidInput, place_bid, try_place_bid, place_locked, check_and_store, store_bid, with_auto_bids,
}
use auction_platform_backend.AutoBid.{
  extend_if_late, place_created, place_auto_bid, answer_all, answer_first, handle_auction_place_bid,
  Turn,
}
use auction_platform_backend.Bidding.{
  validate_and_create_bid, long_create_bid, can_place_bid, should_extend, BidRequest, remaining_ms,
  extended,
}
use auction_platform_backend.PlaceBid.Store.{place_bid-IsRising}
use auction_platform_backend.Tests.Memory.{greatest, latest_of, take_lock, World, memory}
use auction_platform_backend.Tests.Samples.{evening, atlas, offer}

abbrev first_bid : PlaceBidInput
first_bid = record { auction_id = 7; user_id = 1; user_name = "ann"; amount = 610 }

-- The same memory, with a table of auctions that gives out open auctions with steps of 10 only.
abbrev gives_out : Auction → Bool
gives_out a = is_long a.auction_type && (leb 10 a.min_increment && a.id == 7)

abbrev open_memory : Platform World
open_memory = record memory {
  auctions = record {
    find_by_id = λ i w. (done (if gives_out w.stored then some w.stored else none), w);
    save = λ a w. (done a, record w { stored = a });
    find_overdue_active_auctions = λ n now w. (done (w.stored ∷ []), w);
  };
}

greatest-Member : (b : Bid) (bs : List Bid) → Member (greatest b bs) (b ∷ bs)
greatest-Member b [] = head
greatest-Member b (c ∷ cs) = elim (Bool-cases (leb (get_amount b) (get_amount c))) [
  | inl above ↦ rw above (tail (greatest-Member c cs))
  | inr below ↦ rw below (skip (greatest-Member b cs))
]
  where
    skip : {x : Bid} → Member x (b ∷ cs) → Member x (b ∷ c ∷ cs)
    skip head = head
    skip (tail m) = tail (tail m)

-- `greatest` of a list that begins with `b` is at least `m`, and at least every element.
abbrev Tops : ℕ → Bid → List Bid → List Bid → Type 0
Tops m b bs xs =
    (m ≤ get_amount (greatest b bs)) × All (λ x. get_amount x ≤ get_amount (greatest b bs)) xs

greatest_step :
    (b c : Bid) (cs : List Bid) (m : ℕ) (t : Bool)
    → leb (get_amount b) (get_amount c) ≡ t
    → m ≤ get_amount b
    → ((n : ℕ) → n ≤ get_amount c → Tops n c cs cs)
    → ((n : ℕ) → n ≤ get_amount b → Tops n b cs cs)
    → Tops m (if t then c else b) cs (c ∷ cs)
greatest_step b c cs m true e h above below =
    ((above m (ground arith)).0, above (get_amount c) (omega arith))
greatest_step b c cs m false e h above below = ((below m h).0, below (get_amount c) (ground arith))

greatest_ge : (b : Bid) (bs : List Bid) (m : ℕ) → m ≤ get_amount b → Tops m b bs bs
greatest_ge b [] m h = (h, tt)
greatest_ge b (c ∷ cs) m h =
    greatest_step b c cs m (leb (get_amount b) (get_amount c)) refl h (greatest_ge c cs)
      (greatest_ge b cs)

latest_of-IsLatest : (bs : List Bid) → IsLatest bs (latest_of bs)
latest_of-IsLatest [] = refl
latest_of-IsLatest (b ∷ bs) = (greatest-Member b bs, greatest_ge b bs (get_amount b) (omega arith))

open_memory-BidLaws : BidLaws open_memory (λ (w : World). w.bids) 7 10
open_memory-BidLaws = record {
  generate_id_calm = λ w. refl;
  find_by_id_calm = λ i w. refl;
  save_calm = λ a w. refl;
  find_latest_calm = λ i w. refl;
  find_last_calm = λ i u w. refl;
  participants_calm = λ i w. refl;
  find_config_calm = λ u i w. refl;
  find_active_calm = λ i w. refl;
  disable_calm = λ i w. refl;
  latest_law = λ w. latest_of-IsLatest w.bids;
  create_law = λ b w. inr refl;
  stored_law = λ w a e. ground arith;
  saved_law = λ a w o. o;
}

take_lock-bids : (t : ℕ) (w : World) (held : Option ℕ) → (take_lock held t w).1.bids ≡ w.bids
take_lock-bids t w none = refl
take_lock-bids t w (some x) = refl

place_bid-IsRising_example : IsRising 10 (place_bid open_memory first_bid evening).1.bids
place_bid-IsRising_example =
    place_bid-IsRising open_memory (λ (w : World). w.bids) 7 10 open_memory-BidLaws first_bid refl
      (λ u i w. refl) (λ i t n w. take_lock-bids t w w.lock_held) (λ i t w. refl) evening
      (omega arith)

placed_amounts :
    map get_amount (place_bid open_memory first_bid evening).1.bids
    ≡ 630 ∷ 620 ∷ 610 ∷ 600 ∷ 500 ∷ []
unfolding place_bid try_place_bid place_locked check_and_store store_bid extend_if_late
    place_created place_auto_bid answer_all answer_first handle_auction_place_bid
    validate_and_create_bid long_create_bid can_place_bid create_bid should_extend with_auto_bids
placed_amounts = refl

-- User 1 offers 610 at 20,000 ms.
abbrev fresh_offer : BidRequest
fresh_offer = record {
  auction = atlas;
  user_id = 1;
  user_bid_amount = 610;
  latest_bid = some (offer 2 600 1500);
  user_latest_bid = some (offer 1 500 1200);
  now = 20000;
}

can_place_bid-MayBid_example :
    (can_place_bid fresh_offer ≡ ok tt → MayBid fresh_offer)
    × (MayBid fresh_offer → can_place_bid fresh_offer ≡ ok tt)
can_place_bid-MayBid_example = can_place_bid-MayBid fresh_offer

accepted : create atlas ≡ ok atlas
unfolding create
accepted = refl

prolongs : should_extend atlas (remaining_ms atlas 50000) ≡ true
unfolding should_extend
prolongs = refl

should_extend-extended_example :
    (atlas.auction_type ≡ long)
    × (50000 < atlas.end_at)
    × (atlas.end_at ≤ 50000 + atlas.anti_snip_seconds * 1000)
    × (50000 + atlas.anti_snip_seconds * 1000 < (extended atlas).end_at)
    × ((extended atlas).extension_count ≤ atlas.max_extension_count)
    × (create (extended atlas) ≡ ok (extended atlas))
should_extend-extended_example = should_extend-extended atlas 50000 accepted prolongs

-- After the bid of user 1 at 610.
abbrev open_turn : Turn
open_turn = record { amount = some 610; user_id = 1; auction = atlas }

answer_all-Answers_example :
    Post
      (λ out w'. Answers evening.participants 1 evening.configs out)
      (λ w'. Unit {0})
      (answer_all open_memory evening.participants evening.configs open_turn [] evening)
answer_all-Answers_example =
    answer_all-Answers open_memory evening.participants evening.configs open_turn evening

memory-SavedLaws : SavedLaws memory
memory-SavedLaws = record { saved_law = λ a w. refl }

-- Bids at 50, 110, 170 and 230 seconds: the auction may be prolonged three times.
abbrev late_evenings : List World
late_evenings = map (λ at. record evening { clock = at * 1000 }) (50 ∷ 110 ∷ 170 ∷ 230 ∷ [])

late_end : (extend_all memory late_evenings atlas).end_at ≡ 280000
unfolding extend_all extend_if_late should_extend extended create
late_end = refl

abbrev last_offer : BidRequest
last_offer = record fresh_offer { auction = extend_all memory late_evenings atlas; now = 280000 }

extend_all-IsClosed_example :
    ((extend_all memory late_evenings atlas).end_at ≤ last_end atlas)
    × (can_place_bid last_offer ≢ ok tt)
extend_all-IsClosed_example =
    extend_all-IsClosed memory memory-SavedLaws late_evenings atlas last_offer accepted refl
      (omega arith)
