-- ===== src/Ending/Status.antt =====
-- The status of a stored auction moves along the auction's life cycle, whatever a use case does
-- and however it ends.
use auction_platform_backend.Prelude.{
  ℕ, ◌≡◌, ◌∙◌, ◌⊎◌, inl, inr, true, false, Option, some, All, arith,
}
use auction_platform_backend.Outcome.{
  Result, ok, Outcome, done, failed, thrown, M, attempt, attempted,
}
use auction_platform_backend.Outcome.Post.{Post, Post-settled, Post-both}
use auction_platform_backend.Auction.{
  Auction, AuctionStatus, draft, active, paused, ended, failed_auction, fallback_ended,
  fallback_public_notification, is_ended, create,
}
use auction_platform_backend.Auction.Bid.{AuctionWinner}
use auction_platform_backend.Services.{Platform, AuctionEnded}
use auction_platform_backend.Ending.{is_open, create_and_save}

-- The life cycle: the moves that the platform allows between two states.
pub data Move : AuctionStatus → AuctionStatus → Type 0 where
  stay : {s : AuctionStatus} → Move s s
  publish : Move draft active
  pause : Move active paused
  resume : Move paused active
  close : {s : AuctionStatus} → is_open s ≡ true → Move s ended
  fail_it : {s : AuctionStatus} → is_ended s ≡ false → Move s failed_auction
  fall_back : Move ended fallback_ended
  offer_publicly : Move fallback_ended fallback_public_notification

pub made_same : (a a' : Auction) → create a ≡ ok a' → a' ≡ a
unfolding create
made_same a a' h = ground arith

module _ {W : Type 0} (p : Platform W) (view : W → AuctionStatus) (k : ℕ) where
  abbrev pub KeepsView : {A : Type 0} → M W A → Type 0
  KeepsView m = (w : W) → view (m w).1 ≡ view w

  -- What the use cases rely on of the stored status of auction `k`: a read gives it, only a save of
  -- that auction changes it, and then to the status saved.
  pub record StatusLaws : Type 0 where
    pub id_keeps : (w : W) → view (p.runtime.generate_id w).1 ≡ view w
    pub find_keeps : (i : ℕ) → KeepsView (p.auctions.find_by_id i)
    pub bids_keep : (i : ℕ) → KeepsView (p.bids.find_all_by_auction_id i)
    pub winner_keeps : (x : AuctionWinner) → KeepsView (p.winners.save x)
    pub min_keeps : KeepsView p.config.auction_min_start_price
    pub max_keeps : KeepsView p.config.auction_max_max_extension_count
    pub publish_keeps : (e : AuctionEnded) (w : W) → view (p.events.publish e w) ≡ view w
    pub size_keeps : KeepsView p.config.auction_expiry_batch_size
    pub overdue_keeps : (n t : ℕ) → KeepsView (p.auctions.find_overdue_active_auctions n t)
    pub overdue_law :
        (n t : ℕ) (w : W)
        → Post
            (λ rows w'. All (λ a. a.id ≡ k → a.status ≡ view w) rows)
            (λ w'. Unit {0})
            (p.auctions.find_overdue_active_auctions n t w)
    pub found_law :
        (i : ℕ) (w : W)
        → Post
            (λ o w'. (a : Auction) → o ≡ some a → a.id ≡ k → a.status ≡ view w)
            (λ w'. Unit {0})
            (p.auctions.find_by_id i w)
    pub save_law :
        (a : Auction) (w : W)
        → (view (p.auctions.save a w).1 ≡ view w)
          ⊎ ((a.id ≡ k) × (view (p.auctions.save a w).1 ≡ a.status))

  -- The status has moved from `s`.
  abbrev pub Goes : AuctionStatus → W → Type 0
  Goes s w = Move s (view w)

  -- The status is still `s`.
  abbrev pub Rests : AuctionStatus → {A : Type 0} → A → W → Type 0
  Rests s x w = view w ≡ s

  abbrev pub Went : AuctionStatus → {A : Type 0} → A → W → Type 0
  Went s x w = Move s (view w)

  pub rest-Goes : (s : AuctionStatus) (w : W) → view w ≡ s → Goes s w
  rest-Goes s w e = rw e stay

  pub any-Post :
      {A : Type 0} (Q : W → Type 0) (r : Outcome A × W) → Q r.1 → Post (λ (x : A) w. Q w) Q r
  any-Post Q (done x, w) q = q
  any-Post Q (failed e, w) q = q
  any-Post Q (thrown, w) q = q

  pub keeps_Post :
      {A : Type 0} (s : AuctionStatus) (m : M W A)
      → KeepsView m
      → (w : W) → view w ≡ s
      → Post (Rests s) (Goes s) (m w)
  keeps_Post s m calm w e = go (m w) (calm w ∙ e)
    where
      go : {A : Type 0} (r : Outcome A × W) → view r.1 ≡ s → Post (Rests s) (Goes s) r
      go (done x, w') q = q
      go (failed x, w') q = rest-Goes s w' q
      go (thrown, w') q = rest-Goes s w' q

  module _ (laws : StatusLaws) where
    pub found-Post :
        (s : AuctionStatus) (i : ℕ) (w : W)
        → view w ≡ s
        → Post
            (λ o w'. (view w' ≡ s) × ((a : Auction) → o ≡ some a → a.id ≡ k → a.status ≡ s))
            (Goes s)
            (p.auctions.find_by_id i w)
    found-Post s i w e =
        Post-both (λ o w'. view w' ≡ s) (Goes s)
          (λ o w'. (a : Auction) → o ≡ some a → a.id ≡ k → a.status ≡ s) (λ w'. Unit {0})
          (p.auctions.find_by_id i w)
          (keeps_Post s (p.auctions.find_by_id i) (laws.find_keeps i) w e)
          (rw e at (laws.found_law i w))

    -- Saving an auction moves the status as that auction's status allows.
    pub create_and_save-Goes :
        (s : AuctionStatus) (a : Auction) (w : W)
        → view w ≡ s
        → (a.id ≡ k → Move s a.status)
        → Post (Went s) (Goes s) (create_and_save p a w)
    unfolding create_and_save
    create_and_save-Goes s a w e h =
        Post-settled (Went s) (Goes s) (create a) w _ (rest-Goes s w e)
          (λ a' q. any-Post (Goes s) (p.auctions.save a' w) (saved a' (made_same a a' q)))
      where
        saved : (a' : Auction) → a' ≡ a → Goes s (p.auctions.save a' w).1
        saved a' q = rw q (elim (laws.save_law a w) [
          | inl same ↦ rest-Goes s (p.auctions.save a w).1 (same ∙ e)
          | inr (i, x) ↦ rw x (h i)
        ])

    -- A row read with its failure kept.
    abbrev pub Row : AuctionStatus → Result (Option Auction) → W → Type 0
    Row s r w' = (view w' ≡ s) × ((a : Auction) → r ≡ ok (some a) → a.id ≡ k → a.status ≡ s)

    pub Row-Post :
        (s : AuctionStatus) (i : ℕ) (w : W)
        → view w ≡ s
        → Post (Row s) (Goes s) (attempt (p.auctions.find_by_id i) w)
    Row-Post s i w e =
        kept (p.auctions.find_by_id i w) (laws.find_keeps i w ∙ e) (rw e at (laws.found_law i w))
      where
        kept :
            (r : Outcome (Option Auction) × W)
            → view r.1 ≡ s
            → Post (λ o w'. (a : Auction) → o ≡ some a → a.id ≡ k → a.status ≡ s) (λ w'. Unit {0}) r
            → Post (Row s) (Goes s) (attempted r)
        kept (done o, w') q f = (q, λ a e'. f a cc)
        kept (failed x, w') q f = (q, λ a e'. cc)
        kept (thrown, w') q f = rest-Goes s w' q
