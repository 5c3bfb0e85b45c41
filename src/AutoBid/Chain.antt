-- ===== src/AutoBid/Chain.antt =====
-- Which bids the automatic bidding places: each configuration at most one, within its maximum, and
-- no user against himself.
use auction_platform_backend.Prelude.{
  ℕ, ◌≤◌, ◌≡◌, ◌≢◌, ◌∙◌, sym, ap, refl, Bool, true, false, not, ◌&&◌, ◌==◌, Option, none, some,
  List, [], ◌∷◌, ◌++◌, length, arith,
}
use auction_platform_backend.Outcome.{Result, ok, fail, M, attempt, ◌>>=◌}
use auction_platform_backend.Outcome.Post.{Post, Post-and_then, Post-weaken, Post-attempted}
use auction_platform_backend.Auction.{Auction}
use auction_platform_backend.Auction.Bid.{AuctionParticipant, AutoBidConfig}
use auction_platform_backend.Services.{Platform}
use auction_platform_backend.AutoBid.{
  PlacedBid, has_paid, Turn, place_auto_bid, may_answer, next_turn, placed, answer_all,
}
use auction_platform_backend.AutoBid.Within.{Whatever, IsWithin, Within, place_auto_bid-Within}

-- A placed bid that a configuration allows: active, of its user, who has paid, within its maximum.
abbrev pub IsAnswerOf : List AuctionParticipant → PlacedBid → AutoBidConfig → Type 0
IsAnswerOf ps b c =
    (c.is_active ≡ true)
    × (has_paid c.user_id ps ≡ true)
    × (b.user_id ≡ c.user_id)
    × (b.amount ≤ c.max_bid_amount)

-- Bids that answer the configurations in their order, each configuration at most once, and none of
-- them by the user who bid just before.
pub data Answers (ps : List AuctionParticipant)
    : ℕ → List AutoBidConfig → List PlacedBid → Type 0 where
  over : {user : ℕ} → Answers ps user [] []
  skip :
      {user : ℕ} {c : AutoBidConfig} {cs : List AutoBidConfig} {bs : List PlacedBid}
      → Answers ps user cs bs
      → Answers ps user (c ∷ cs) bs
  answer :
      {user : ℕ} {c : AutoBidConfig} {cs : List AutoBidConfig} {b : PlacedBid} {bs : List PlacedBid}
      → IsAnswerOf ps b c
      → b.user_id ≢ user
      → Answers ps b.user_id cs bs
      → Answers ps user (c ∷ cs) (b ∷ bs)

-- There are no more answers than configurations.
pub Answers-length :
    {ps : List AuctionParticipant} {user : ℕ} {cs : List AutoBidConfig} {bs : List PlacedBid}
    → Answers ps user cs bs
    → length bs ≤ length cs
Answers-length over = omega arith
Answers-length (skip h) = omega (arith, Answers-length h)
Answers-length (answer a n h) = omega (arith, Answers-length h)

module _ {W : Type 0} (p : Platform W) where
  -- What the loop has placed after `acc`.
  abbrev After :
      List AuctionParticipant
      → ℕ
      → List AutoBidConfig
      → List PlacedBid
      → List PlacedBid
      → W
      → Type 0
  After ps user cs acc out w = (new : List PlacedBid) × (out ≡ acc ++ new) × Answers ps user cs new

  may_answer_ok :
      (ps : List AuctionParticipant) (c : AutoBidConfig) (t : Turn)
      → may_answer p ps c t ≡ true
      → (c.is_active ≡ true) × (c.user_id ≢ t.user_id) × (has_paid c.user_id ps ≡ true)
  may_answer_ok ps c t h =
      go c.is_active (c.user_id == t.user_id) (has_paid c.user_id ps) refl refl refl h
    where
      go :
          (x y z : Bool)
          → c.is_active ≡ x
          → (c.user_id == t.user_id) ≡ y
          → has_paid c.user_id ps ≡ z
          → (x && (not y && z)) ≡ true
          → (c.is_active ≡ true) × (c.user_id ≢ t.user_id) × (has_paid c.user_id ps ≡ true)
      go true false true e1 e2 e3 h' = (e1, ground arith, e3)
      go true false false e1 e2 e3 h' = cc
      go true true z e1 e2 e3 h' = cc
      go false y z e1 e2 e3 h' = cc

  append_assoc : (xs ys zs : List PlacedBid) → (xs ++ ys) ++ zs ≡ xs ++ (ys ++ zs)
  append_assoc [] ys zs = refl
  append_assoc (x ∷ xs) ys zs = ap (λ l. x ∷ l) (append_assoc xs ys zs)

  append_nil : (xs : List PlacedBid) → xs ≡ xs ++ []
  append_nil [] = refl
  append_nil (x ∷ xs) = ap (λ l. x ∷ l) (append_nil xs)

  -- One configuration's answer in front of those that follow.
  step_After :
      (ps : List AuctionParticipant) (c : AutoBidConfig) (cs : List AutoBidConfig) (t : Turn)
      (acc : List PlacedBid) (r : Result (Option PlacedBid × Auction)) (out : List PlacedBid)
      (w : W)
      → may_answer p ps c t ≡ true
      → ((x : Option PlacedBid × Auction) → r ≡ ok x → IsWithin p c x.0)
      → After ps (next_turn p t r).user_id cs (acc ++ placed p r) out w
      → After ps t.user_id (c ∷ cs) acc out w
  step_After ps c cs t acc (ok (some b, a)) out w m f (new, e, h) =
      let (on, other, paid) = may_answer_ok ps c t m in
      let (i, n) = f (some b, a) refl in
      (
        b ∷ new,
        e ∙ append_assoc acc (b ∷ []) new,
        answer (on, paid, i, n) (λ q. other (sym i ∙ q)) h,
      )
  step_After ps c cs t acc (ok (none, a)) out w m f (new, e, h) =
      (new, e ∙ append_assoc acc [] new, skip h)
  step_After ps c cs t acc (fail x) out w m f (new, e, h) =
      (new, e ∙ append_assoc acc [] new, skip h)

  loop_After :
      (ps : List AuctionParticipant) (cs : List AutoBidConfig) (t : Turn) (acc : List PlacedBid)
      (w : W)
      → Post (After ps t.user_id cs acc) (Whatever p) (answer_all p ps cs t acc w)
  unfolding answer_all
  loop_After ps [] t acc w = ([], append_nil acc, over)
  loop_After ps (c ∷ cs) t acc w = chosen (may_answer p ps c t) refl (loop_After ps cs)
    where
      chosen :
          (b : Bool)
          → may_answer p ps c t ≡ b
          → ((t' : Turn) (acc' : List PlacedBid) (w' : W)
              → Post (After ps t'.user_id cs acc') (Whatever p) (answer_all p ps cs t' acc' w'))
          → Post (After ps t.user_id (c ∷ cs) acc) (Whatever p) (
              elim b as (λ z. M W (List PlacedBid)) [
                | true ↦ attempt (place_auto_bid p c t.auction t.amount) >>= λ r.
                    answer_all p ps cs (next_turn p t r) (acc ++ placed p r)
                | false ↦ answer_all p ps cs t acc
              ]
                w)
      chosen false e ih =
          Post-weaken (After ps t.user_id cs acc) (Whatever p) (After ps t.user_id (c ∷ cs) acc)
            (Whatever p) (answer_all p ps cs t acc w) (ih t acc w)
            (λ out w' (new, q, h). (new, q, skip h)) (λ w' u. tt)
      chosen true e ih =
          Post-and_then (λ r w'. (x : Option PlacedBid × Auction) → r ≡ ok x → IsWithin p c x.0)
            (After ps t.user_id (c ∷ cs) acc) (Whatever p)
            (attempt (place_auto_bid p c t.auction t.amount) w) _
            (Post-attempted (Within p c) (Whatever p)
              (λ r w'. (x : Option PlacedBid × Auction) → r ≡ ok x → IsWithin p c x.0) (Whatever p)
              (place_auto_bid p c t.auction t.amount w)
              (place_auto_bid-Within p c t.auction t.amount w)
              (λ x w' h y q. let same : y ≡ x = cc in rw same h) (λ x w' h y q. cc) (λ w' h. tt))
            (λ r w1 f.
              Post-weaken (After ps (next_turn p t r).user_id cs (acc ++ placed p r)) (Whatever p)
                (After ps t.user_id (c ∷ cs) acc) (Whatever p)
                (answer_all p ps cs (next_turn p t r) (acc ++ placed p r) w1)
                (ih (next_turn p t r) (acc ++ placed p r) w1)
                (λ out w' h. step_After ps c cs t acc r out w' e f h) (λ w' u. tt))

  -- The bids that the loop over the configurations places answer them in their order: each
  -- configuration at most once, if it is active, its user has paid and did not place the bid just
  -- before, and within its maximum.
  pub answer_all-Answers :
      (ps : List AuctionParticipant) (cs : List AutoBidConfig) (t : Turn) (w : W)
      → Post (λ out w'. Answers ps t.user_id cs out) (λ w'. Unit {0}) (answer_all p ps cs t [] w)
  answer_all-Answers ps cs t w =
      Post-weaken (After ps t.user_id cs []) (Whatever p) (λ out w'. Answers ps t.user_id cs out)
        (Whatever p) (answer_all p ps cs t [] w) (loop_After ps cs t [] w)
        (λ out w' (new, e, h). rw e h) (λ w' u. tt)
