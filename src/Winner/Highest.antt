-- ===== src/Winner/Highest.antt =====
-- The winner of an auction is a bidder of the greatest amount.
use auction_platform_backend.Prelude.{
  ℕ, ◌≤◌, ◌≡◌, ◌∙◌, sym, ap, refl, ◌⊎◌, inl, inr, Bool, true, false, Option, none, some, List, [],
  ◌∷◌, ltb, All, Member, head, tail, Bool-cases, arith, if◌then◌else◌,
}
use auction_platform_backend.Outcome.{Result, ok, fail}
use auction_platform_backend.Auction.Bid.{Bid, get_amount}
use auction_platform_backend.Services.{EncryptionService}
use auction_platform_backend.Winner.{
  WinnerResult, max_bid, long_winner, decrypt_amount, step_of, sealed_step, sealed_winner_from,
  sealed_winner, no_winner,
}

-- `max_bid` is the first bid given or one of the list.
pub max_bid-Member : (b : Bid) (bs : List Bid) → Member (max_bid b bs) (b ∷ bs)
unfolding max_bid
max_bid-Member b [] = head
max_bid-Member b (c ∷ cs) = elim (Bool-cases (ltb (get_amount b) (get_amount c))) [
  | inl above ↦ rw above (tail (max_bid-Member c cs))
  | inr below ↦ rw below (skip (max_bid-Member b cs))
]
  where
    skip : {x : Bid} → Member x (b ∷ cs) → Member x (b ∷ c ∷ cs)
    skip head = head
    skip (tail m) = tail (tail m)

-- No amount is above that of `x`.
abbrev pub IsMax : List Bid → Bid → Type 0
IsMax bs x = All (λ b. get_amount b ≤ get_amount x) bs

IsMax-step :
    (b c : Bid) (cs : List Bid) (m : ℕ) (t : Bool)
    → ltb (get_amount b) (get_amount c) ≡ t
    → m ≤ get_amount b
    → ((n : ℕ) → n ≤ get_amount c → (n ≤ get_amount (max_bid c cs)) × IsMax cs (max_bid c cs))
    → ((n : ℕ) → n ≤ get_amount b → (n ≤ get_amount (max_bid b cs)) × IsMax cs (max_bid b cs))
    → (m ≤ get_amount (max_bid (if t then c else b) cs))
      × IsMax (c ∷ cs) (max_bid (if t then c else b) cs)
IsMax-step b c cs m true e h above below =
    let (q, r) = above (get_amount c) (omega arith) in ((above m (ground arith)).0, (q, r))
IsMax-step b c cs m false e h above below =
    let (q, r) = below (get_amount c) (ground arith) in ((below m h).0, (q, r))

max_bid-IsMax_from :
    (b : Bid) (bs : List Bid) (m : ℕ)
    → m ≤ get_amount b
    → (m ≤ get_amount (max_bid b bs)) × IsMax bs (max_bid b bs)
unfolding max_bid
max_bid-IsMax_from b [] m h = (h, tt)
max_bid-IsMax_from b (c ∷ cs) m h =
    IsMax-step b c cs m (ltb (get_amount b) (get_amount c)) refl h (max_bid-IsMax_from c cs)
      (max_bid-IsMax_from b cs)

pub max_bid-IsMax : (b : Bid) (bs : List Bid) → IsMax (b ∷ bs) (max_bid b bs)
max_bid-IsMax b bs = max_bid-IsMax_from b bs (get_amount b) (omega arith)

-- `max_bid` of a list from its own first element is one of the list.
pub max_bid-in : (b : Bid) (bs : List Bid) → Member (max_bid b (b ∷ bs)) (b ∷ bs)
max_bid-in b bs = shed (max_bid-Member b (b ∷ bs))
  where
    shed : {x : Bid} → Member x (b ∷ b ∷ bs) → Member x (b ∷ bs)
    shed head = head
    shed (tail m) = m

-- What a winner of open bids is: a bidder of the greatest amount, or nobody.
abbrev pub IsHighest : List Bid → WinnerResult → Type 0
IsHighest bs r =
    ((bs ≡ []) × (r.winner_id ≡ none) × (r.win_amount ≡ 0))
    ⊎ ((x : Bid) × Member x bs
        × IsMax bs x
        × (r.winner_id ≡ some x.user_id)
        × (r.win_amount ≡ get_amount x))

-- The winner of an open auction is the user of one of its bids, that bid has the greatest amount
-- of all, and the amount won is that of the bid; nobody wins exactly if there is no bid.
pub long_winner-IsHighest : (bs : List Bid) → IsHighest bs (long_winner bs)
unfolding long_winner
long_winner-IsHighest [] = inl (refl, refl, refl)
long_winner-IsHighest (b ∷ bs) =
    inr (max_bid b (b ∷ bs), max_bid-in b bs, (max_bid-IsMax b (b ∷ bs)).1, refl, refl)

-- What the amounts of sealed bids are to a result: at most its amount.
abbrev pub IsCovered : EncryptionService → WinnerResult → Bid → Type 0
IsCovered enc r b =
    (c n : ℕ) → b.encrypted_amount ≡ some c → decrypt_amount enc c ≡ ok n → n ≤ r.win_amount

-- The bid from which a result comes.
abbrev pub IsWonBy : EncryptionService → WinnerResult → Bid → Type 0
IsWonBy enc r b =
    (c : ℕ) × (b.encrypted_amount ≡ some c)
    × (decrypt_amount enc c ≡ ok r.win_amount)
    × (r.winner_id ≡ some b.user_id)

abbrev pub Highest : EncryptionService → WinnerResult → WinnerResult → List Bid → Type 0
Highest enc best r bs =
    (best.win_amount ≤ r.win_amount)
    × All (IsCovered enc r) bs
    × ((r ≡ best) ⊎ ((x : Bid) × Member x bs × IsWonBy enc r x))

step_amount :
    (best next : WinnerResult) (user : ℕ) (r : Result ℕ)
    → step_of best user r ≡ ok next
    → (best.win_amount ≤ next.win_amount)
      × ((n : ℕ) → r ≡ ok n → n ≤ next.win_amount)
      × ((next ≡ best) ⊎ ((r ≡ ok next.win_amount) × (next.winner_id ≡ some user)))
step_amount best next user (ok n) h = (ground arith, (λ m e. ground arith), ground arith)
step_amount best next user (fail e) h = ground arith

sealed_step-Highest :
    (enc : EncryptionService) (best next : WinnerResult) (b : Bid) (o : Option ℕ)
    → b.encrypted_amount ≡ o
    → sealed_step enc best b.user_id o ≡ ok next
    → (best.win_amount ≤ next.win_amount)
      × IsCovered enc next b
      × ((next ≡ best) ⊎ IsWonBy enc next b)
unfolding sealed_step
sealed_step-Highest enc best next b none e h =
    let same : next ≡ best = cc in
    (omega (arith, ap (λ (r : WinnerResult). r.win_amount) same), (λ c n e' d. cc), inl same)
sealed_step-Highest enc best next b (some c) e h =
    let (up, covered, from) = step_amount best next b.user_id (decrypt_amount enc c) h in
    (
      up,
      (λ c' n e' d. let same : c' ≡ c = cc in covered n (ap (decrypt_amount enc) (sym same) ∙ d)),
      elim from [ inl same ↦ inl same | inr (d, u) ↦ inr (c, e, d, u) ],
    )

IsCovered-up :
    (enc : EncryptionService) (r r' : WinnerResult) (b : Bid)
    → r.win_amount ≤ r'.win_amount
    → IsCovered enc r b
    → IsCovered enc r' b
IsCovered-up enc r r' b h k c n e d = omega (arith, k c n e d)

won_again :
    (enc : EncryptionService) (r s : WinnerResult) (b : Bid)
    → r ≡ s
    → IsWonBy enc s b
    → IsWonBy enc r b
won_again enc r s b e h = rw e h

winner_step :
    (enc : EncryptionService) (b : Bid) (bs : List Bid) (best r : WinnerResult)
    (s : Result WinnerResult)
    → sealed_step enc best b.user_id b.encrypted_amount ≡ s
    → elim s [ ok next ↦ sealed_winner_from enc next bs | fail e ↦ fail e ] ≡ ok r
    → ((next : WinnerResult) → sealed_winner_from enc next bs ≡ ok r → Highest enc next r bs)
    → Highest enc best r (b ∷ bs)
winner_step enc b bs best r (fail e) q h k = cc
winner_step enc b bs best r (ok next) q h k =
    let (up, covered, from) = sealed_step-Highest enc best next b b.encrypted_amount refl q in
    let (up', all, from') = k next h in
    (
      omega (arith, up, up'),
      (IsCovered-up enc next r b up' covered, all),
      elim from' [
        | inr (x, m, won) ↦ inr (x, tail m, won)
        | inl same ↦ elim from [
          | inl same' ↦ inl (same ∙ same')
          | inr won ↦ inr (b, head, won_again enc r next b same won)
        ]
      ],
    )

pub winner_from-Highest :
    (enc : EncryptionService) (bs : List Bid) (best r : WinnerResult)
    → sealed_winner_from enc best bs ≡ ok r
    → Highest enc best r bs
unfolding sealed_winner_from
winner_from-Highest enc [] best r h =
    let same : r ≡ best = cc in
    (omega (arith, ap (λ (x : WinnerResult). x.win_amount) same), tt, inl same)
winner_from-Highest enc (b ∷ bs) best r h =
    winner_step enc b bs best r (sealed_step enc best b.user_id b.encrypted_amount) refl h
      (λ next. winner_from-Highest enc bs next r)

-- If the winner of a sealed auction is found, then no bid that has a cipher decrypts to more than
-- the amount won; and the winner is nobody, with amount 0, or the user of a bid that decrypts to
-- exactly the amount won.
pub sealed_winner-Highest :
    (enc : EncryptionService) (bs : List Bid) (r : WinnerResult)
    → sealed_winner enc bs ≡ ok r
    → All (IsCovered enc r) bs × ((r ≡ no_winner) ⊎ ((x : Bid) × Member x bs × IsWonBy enc r x))
unfolding sealed_winner
sealed_winner-Highest enc bs r h =
    let (up, covered, from) = winner_from-Highest enc bs no_winner r h in (covered, from)
