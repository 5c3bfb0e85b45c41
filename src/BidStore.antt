-- ===== src/BidStore.antt =====
-- What the bidding code relies on of the stored bids of one auction: documented behaviour of the
-- repositories (src/infrastructure/repositories/auction/bid.repo.ts and auction.repo.ts), as
-- laws over a view of the world. And the order that the bidding rules keep among those bids.
use auction_platform_backend.Prelude.{
  ℕ, ◌+◌, ◌≤◌, ◌≡◌, ◌∙◌, refl, ◌⊎◌, Option, none, some, false, List, [], ◌∷◌, All, Member,
  All-Member, arith,
}
use auction_platform_backend.Outcome.{M, Outcome, done, failed, thrown}
use auction_platform_backend.Outcome.Post.{Post, Post-both}
use auction_platform_backend.Auction.{Auction, is_sealed}
use auction_platform_backend.Auction.Bid.{Bid, get_amount}
use auction_platform_backend.Bidding.{latest_amount}
use auction_platform_backend.Services.{Platform}

-- The amount of the newest bid.
abbrev pub top : List Bid → ℕ
top [] = 0
top (b ∷ bs) = get_amount b

-- Bids, newest first, each at least `inc` above the one before it.
abbrev pub IsRising : ℕ → List Bid → Type 0
IsRising inc [] = Unit
IsRising inc (b ∷ bs) = (top bs + inc ≤ get_amount b) × IsRising inc bs

-- A bid of the greatest amount, or none where there is no bid: `orderBy: { amount: 'desc' }`.
abbrev pub IsLatest : List Bid → Option Bid → Type 0
IsLatest bs none = bs ≡ []
IsLatest bs (some b) = Member b bs × All (λ c. get_amount c ≤ get_amount b) bs

lower :
    (x y : ℕ) (cs : List Bid)
    → x ≤ y
    → All (λ c. get_amount c ≤ x) cs
    → All (λ c. get_amount c ≤ y) cs
lower x y [] h a = tt
lower x y (c ∷ cs) h a = (omega (arith, a.0), lower x y cs h a.1)

-- In a rising list no amount is above that of the newest bid.
below_top : (inc : ℕ) (bs : List Bid) → IsRising inc bs → All (λ c. get_amount c ≤ top bs) bs
below_top inc [] h = tt
below_top inc (b ∷ bs) h =
    (omega arith, lower (top bs) (get_amount b) bs (omega (arith, h.0)) (below_top inc bs h.1))

no-Member : {A : Type 0} {x : A} → Member x [] → ⊥
no-Member m = elim m [ ]

-- So the bid of the greatest amount is as high as the newest one.
pub latest-top :
    (inc : ℕ) (bs : List Bid) (o : Option Bid)
    → IsRising inc bs
    → IsLatest bs o
    → latest_amount o ≡ top bs
latest-top inc [] none h l = refl
latest-top inc (b ∷ bs) none h l = cc
latest-top inc [] (some c) h l = absurd (no-Member l.0)
latest-top inc (b ∷ bs) (some c) h l =
    omega
      (arith, l.1.0, All-Member (λ d. get_amount d ≤ get_amount b) (below_top inc (b ∷ bs) h) l.0)

-- A call that leaves the view alone, however it ends.
abbrev pub IsCalm : {W A : Type 0} → (W → List Bid) → M W A → Type 0
IsCalm {W = W} view m = (w : W) → view (m w).1 ≡ view w

module _ {W : Type 0} (p : Platform W) (view : W → List Bid) (k inc : ℕ) where
  -- An auction of the view: an open one, whose minimal increment is at least `inc`.
  pub record IsOpen (a : Auction) : Type 0 where
    pub same : a.id ≡ k
    pub unsealed : is_sealed a.auction_type ≡ false
    pub increment : inc ≤ a.min_increment

  -- The laws: only the creation of a bid changes the bids of the auction, by at most that bid; the
  -- latest bid is one of greatest amount; the auction stored under `k` is open, and `save` gives
  -- back an open auction for an open one.
  pub record BidLaws : Type 0 where
    pub generate_id_calm : (w : W) → view (p.runtime.generate_id w).1 ≡ view w
    pub find_by_id_calm : (i : ℕ) → IsCalm view (p.auctions.find_by_id i)
    pub save_calm : (a : Auction) → IsCalm view (p.auctions.save a)
    pub find_latest_calm : (i : ℕ) → IsCalm view (p.bids.find_latest_by_auction_id i)
    pub find_last_calm : (i u : ℕ) → IsCalm view (p.bids.find_last_bids_by_user i u)
    pub participants_calm : (i : ℕ) → IsCalm view (p.participants.find_by_auction_id i)
    pub find_config_calm : (u i : ℕ) → IsCalm view (p.configs.find_by_user_and_auction u i)
    pub find_active_calm : (i : ℕ) → IsCalm view (p.configs.find_active_by_auction_id i)
    pub disable_calm : (i : ℕ) → IsCalm view (p.configs.disable_all_active_by_auction_id i)
    pub latest_law :
        (w : W)
        → Post (λ o w'. IsLatest (view w) o) (λ w'. Unit {0}) (p.bids.find_latest_by_auction_id k w)
    pub create_law :
        (b : Bid) (w : W)
        → (view (p.bids.create b w).1 ≡ view w) ⊎ (view (p.bids.create b w).1 ≡ b ∷ view w)
    pub stored_law :
        (w : W)
        → Post
            (λ o w'. (a : Auction) → o ≡ some a → IsOpen a)
            (λ w'. Unit {0})
            (p.auctions.find_by_id k w)
    pub saved_law :
        (a : Auction) (w : W)
        → IsOpen a
        → Post (λ a' w'. IsOpen a') (λ w'. Unit {0}) (p.auctions.save a w)

  abbrev pub Rises : W → Type 0
  Rises w = IsRising inc (view w)

  -- A calm call keeps the view, and with it the order of the bids.
  pub calm-Post :
      {A : Type 0} (v : List Bid) (m : M W A)
      → IsCalm view m
      → IsRising inc v
      → (w : W) → view w ≡ v
      → Post (λ a w'. view w' ≡ v) Rises (m w)
  calm-Post v m calm h w e = from (m w) (calm w ∙ e)
    where
      from : {A : Type 0} (r : Outcome A × W) → view r.1 ≡ v → Post (λ a w'. view w' ≡ v) Rises r
      from (done a, w') p = p
      from (failed x, w') p = rw p h
      from (thrown, w') p = rw p h

  -- Reading the latest bid of the auction.
  pub IsLatest-read :
      BidLaws
      → (i : ℕ) (v : List Bid) (w : W) → i ≡ k
      → IsRising inc v
      → view w ≡ v
      → Post (λ o w'. (view w' ≡ v) × IsLatest v o) Rises (p.bids.find_latest_by_auction_id i w)
  IsLatest-read laws i v w q h e = rw q (
      Post-both (λ o w'. view w' ≡ v) Rises (λ o w'. IsLatest v o) (λ w'. Unit {0})
        (p.bids.find_latest_by_auction_id k w)
        (calm-Post v (p.bids.find_latest_by_auction_id k) (laws.find_latest_calm k) h w e)
        (rw e at (laws.latest_law w)))
