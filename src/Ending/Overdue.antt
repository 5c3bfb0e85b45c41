-- ===== src/Ending/Overdue.antt =====
-- The stored status under expireOverdueAuctions.
use auction_platform_backend.Prelude.{
  ℕ, ◌≡◌, ◌∙◌, sym, ap, refl, inl, Bool, true, false, not, List, [], ◌∷◌, All, if◌then◌else◌,
}
use auction_platform_backend.Outcome.{attempt, return, ◌>>=◌}
use auction_platform_backend.Outcome.Post.{
  Post, Post-and_then, Post-weaken, Post-attempted, Post-both,
}
use auction_platform_backend.Auction.{Auction, AuctionStatus}
use auction_platform_backend.Services.{Platform}
use auction_platform_backend.Winner.{validate_and_get_winner}
use auction_platform_backend.Ending.{
  is_open, expire_with, end_overdue_auction, end_each, count_end, expire_overdue_auctions,
}
use auction_platform_backend.Ending.Status.{StatusLaws, Goes, Went}
use auction_platform_backend.Ending.Closing.{
  Closes, Closed, Closes-Goes, winner-Closed, rests, expire_with-Closes,
}

module _ {W : Type 0} (p : Platform W) (view : W → AuctionStatus) (k : ℕ)
    (laws : StatusLaws p view k) where
  overdue-Closes :
      (s : AuctionStatus) (a : Auction) (w : W)
      → (a.id ≡ k → a.status ≡ s)
      → Closes p view k laws s w
      → Post (Closed p view k laws s) (Closes p view k laws s) (end_overdue_auction p a w)
  unfolding end_overdue_auction
  overdue-Closes s a w f h = go (is_open a.status) refl
    where
      go :
          (t : Bool)
          → is_open a.status ≡ t
          → Post (Closed p view k laws s) (Closes p view k laws s) (
              (if not t
                  then return tt
                  else validate_and_get_winner p a >>= λ r. expire_with p a r r.winner_id)
                w)
      go false e = h
      go true e =
          Post-and_then (Closed p view k laws s) (Closed p view k laws s) (Closes p view k laws s)
            (validate_and_get_winner p a w) _ (winner-Closed p view k laws s a w h)
            (λ r w' h'.
              expire_with-Closes p view k laws s a r r.winner_id w'
                (λ i. ap is_open (sym (f i)) ∙ e) h')

  -- Each overdue auction is one whose status was read as it was.
  end_each-Closes :
      (s : AuctionStatus) (rest : List Auction) (counts : ℕ × ℕ) (w : W)
      → All (λ a. a.id ≡ k → a.status ≡ s) rest
      → Closes p view k laws s w
      → Post (Closed p view k laws s) (Closes p view k laws s) (end_each p rest counts w)
  unfolding end_each
  end_each-Closes s [] counts w f h = h
  end_each-Closes s (a ∷ rest) counts w f h =
      Post-and_then (Closed p view k laws s) (Closed p view k laws s) (Closes p view k laws s)
        (attempt (end_overdue_auction p a) w) _
        (Post-attempted (Closed p view k laws s) (Closes p view k laws s) (Closed p view k laws s)
          (Closes p view k laws s) (end_overdue_auction p a w) (overdue-Closes s a w f.0 h)
          (λ x w' h'. h') (λ x w' h'. h') (λ w' h'. h'))
        (λ r w' h'. end_each-Closes s rest (count_end p r counts) w' f.1 h')

  overdue_rows-Closes :
      (s : AuctionStatus) (n t : ℕ) (w : W)
      → view w ≡ s
      → Post
          (λ rows w'. (view w' ≡ s) × All (λ a. a.id ≡ k → a.status ≡ s) rows)
          (Closes p view k laws s)
          (p.auctions.find_overdue_active_auctions n t w)
  overdue_rows-Closes s n t w e =
      Post-both (λ o w'. view w' ≡ s) (Closes p view k laws s)
        (λ rows w'. All (λ a. a.id ≡ k → a.status ≡ s) rows) (λ w'. Unit {0})
        (p.auctions.find_overdue_active_auctions n t w)
        (rests p view k laws s (p.auctions.find_overdue_active_auctions n t w)
          (laws.overdue_keeps n t w ∙ e))
        (rw e at (laws.overdue_law n t w))

  pub expire-Goes :
      (s : AuctionStatus) (w : W)
      → view w ≡ s
      → Post (Went p view k s) (Goes p view k s) (expire_overdue_auctions p w)
  unfolding expire_overdue_auctions
  expire-Goes s w e =
      Post-weaken (Closed p view k laws s) (Closes p view k laws s) (Went p view k s)
        (Goes p view k s) (expire_overdue_auctions p w)
        (Post-and_then (λ n w'. view w' ≡ s) (Closed p view k laws s) (Closes p view k laws s)
          (p.config.auction_expiry_batch_size w) _
          (rests p view k laws s (p.config.auction_expiry_batch_size w) (laws.size_keeps w ∙ e))
          (λ n w1 e1.
            Post-and_then (λ rows w'. (view w' ≡ s) × All (λ a. a.id ≡ k → a.status ≡ s) rows)
              (Closed p view k laws s) (Closes p view k laws s)
              (p.auctions.find_overdue_active_auctions n (p.runtime.now w1) w1) _
              (overdue_rows-Closes s n (p.runtime.now w1) w1 e1)
              (λ rows w2 (e2, f).
                Post-and_then (Closed p view k laws s) (Closed p view k laws s)
                  (Closes p view k laws s) (end_each p rows (0, 0) w2) _
                  (end_each-Closes s rows (0, 0) w2 f (inl e2)) (λ c w3 h3. h3))))
        (λ x w' h. Closes-Goes p view k laws s w' h) (λ w' h. Closes-Goes p view k laws s w' h)
