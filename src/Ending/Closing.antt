-- ===== src/Ending/Closing.antt =====
-- Ending an auction moves its status to ENDED, from an open one only.
use auction_platform_backend.Prelude.{
  ℕ, ◌≡◌, ◌∙◌, sym, ap, refl, ◌⊎◌, inl, inr, Bool, true, false, not, Option, none, some,
  if◌then◌else◌, arith,
}
use auction_platform_backend.Outcome.{
  Result, ok, fail, Outcome, done, failed, thrown, M, settle, return, auction_not_found,
  not_authorized, only_active_can_be_ended,
}
use auction_platform_backend.Outcome.Post.{
  Post, Post-and_then, Post-guarded, Post-required, Post-settled, Post-weaken, Post-both,
}
use auction_platform_backend.Auction.{Auction, AuctionStatus, ended, is_sealed, create}
use auction_platform_backend.Services.{Platform}
use auction_platform_backend.Winner.{
  WinnerResult, validate_and_get_winner, long_winner, sealed_winner,
}
use auction_platform_backend.Ending.{
  OwnerInput, closed, is_stranger, is_open, create_and_save, record_winner, ranked_winner,
  close_auction, end_with, end_auction, expire_with,
}
use auction_platform_backend.Ending.Status.{Move, StatusLaws, KeepsView, Goes, Went, made_same}

module _ {W : Type 0} (p : Platform W) (view : W → AuctionStatus) (k : ℕ)
    (laws : StatusLaws p view k) where
  -- The status is still `s`, or it was open and is ended by now.
  abbrev pub Closes : AuctionStatus → W → Type 0
  Closes s w = (view w ≡ s) ⊎ ((is_open s ≡ true) × (view w ≡ ended))

  abbrev pub Closed : AuctionStatus → {A : Type 0} → A → W → Type 0
  Closed s x w = Closes s w

  pub Closes-Goes : (s : AuctionStatus) (w : W) → Closes s w → Goes p view k s w
  Closes-Goes s w (inl e) = rw e Move.stay
  Closes-Goes s w (inr (o, e)) = rw e (Move.close o)

  any-Post :
      {A : Type 0} (s : AuctionStatus) (r : Outcome A × W)
      → Closes s r.1
      → Post (Closed s) (Closes s) r
  any-Post s (done x, w) q = q
  any-Post s (failed e, w) q = q
  any-Post s (thrown, w) q = q

  after : (s : AuctionStatus) (w w' : W) → view w' ≡ view w → Closes s w → Closes s w'
  after s w w' e (inl q) = inl (e ∙ q)
  after s w w' e (inr (o, q)) = inr (o, e ∙ q)

  keeps_Closed :
      {A : Type 0} (s : AuctionStatus) (m : M W A)
      → KeepsView p view k m
      → (w : W) → Closes s w
      → Post (Closed s) (Closes s) (m w)
  keeps_Closed s m calm w h = any-Post s (m w) (after s w (m w).1 (calm w) h)

  pub winner-Closed :
      (s : AuctionStatus) (a : Auction) (w : W)
      → Closes s w
      → Post (Closed s) (Closes s) (validate_and_get_winner p a w)
  unfolding validate_and_get_winner
  winner-Closed s a w h =
      Post-and_then (Closed s) (Closed s) (Closes s) (p.bids.find_all_by_auction_id a.id w) _
        (keeps_Closed s (p.bids.find_all_by_auction_id a.id) (laws.bids_keep a.id) w h)
        (λ bids w' h'.
          chosen (is_sealed a.auction_type) (sealed_winner p.encryption bids) (long_winner bids) w'
            h')
    where
      chosen :
          (t : Bool) (r : Result WinnerResult) (x : WinnerResult) (w' : W)
          → Closes s w'
          → Post (Closed s) (Closes s) ((if t then settle r else return x) w')
      chosen true (ok r) x w' h' = h'
      chosen true (fail e) x w' h' = h'
      chosen false r x w' h' = h'

  recorded-Closed :
      (s : AuctionStatus) (a : Auction) (user amount : ℕ) (w : W)
      → Closes s w
      → Post (Closed s) (Closes s) (record_winner p a user amount w)
  unfolding record_winner
  recorded-Closed s a user amount w h =
      let (id, w') = p.runtime.generate_id w in
      keeps_Closed s (p.winners.save (ranked_winner id a user amount 1))
        (laws.winner_keeps (ranked_winner id a user amount 1)) w' (after s w w' (laws.id_keeps w) h)

  -- Saving an ended auction.
  saved-Closes :
      (s : AuctionStatus) (a : Auction) (w : W)
      → (a.id ≡ k → is_open s ≡ true)
      → a.status ≡ ended
      → Closes s w
      → Post (Closed s) (Closes s) (create_and_save p a w)
  unfolding create_and_save
  saved-Closes s a w o e h =
      Post-settled (Closed s) (Closes s) (create a) w _ h
        (λ a' q. any-Post s (p.auctions.save a' w) (saved a' (made_same a a' q)))
    where
      saved : (a' : Auction) → a' ≡ a → Closes s (p.auctions.save a' w).1
      saved a' q = rw q (elim (laws.save_law a w) [
        | inl same ↦ after s w (p.auctions.save a w).1 same h
        | inr (i, x) ↦ inr (o i, x ∙ e)
      ])

  close_auction-Closes :
      (s : AuctionStatus) (a : Auction) (winner amount : Option ℕ) (n : ℕ) (w : W)
      → (a.id ≡ k → is_open s ≡ true)
      → Closes s w
      → Post (Closed s) (Closes s) (close_auction p a winner amount n w)
  unfolding close_auction
  close_auction-Closes s a winner amount n w o h =
      Post-and_then (Closed s) (Closed s) (Closes s) (create_and_save p (closed winner amount a) w)
        _ (saved-Closes s (closed winner amount a) w o refl h)
        (λ saved w' h'. after s w' (p.events.publish _ w') (laws.publish_keeps _ w') h')

  end_with-Closes :
      (s : AuctionStatus) (a : Auction) (r : WinnerResult) (o : Option ℕ) (w : W)
      → (a.id ≡ k → is_open s ≡ true)
      → Closes s w
      → Post (Closed s) (Closes s) (end_with p a r o w)
  unfolding end_with
  end_with-Closes s a r none w o h = h
  end_with-Closes s a r (some user) w o h =
      Post-and_then (Closed s) (Closed s) (Closes s) (record_winner p a user r.win_amount w) _
        (recorded-Closed s a user r.win_amount w h)
        (λ x w1 h1.
          Post-and_then (Closed s) (Closed s) (Closes s)
            (close_auction p a (some user) (some r.win_amount) r.win_amount w1) _
            (close_auction-Closes s a (some user) (some r.win_amount) r.win_amount w1 o h1)
            (λ y w2 h2. h2))

  pub expire_with-Closes :
      (s : AuctionStatus) (a : Auction) (r : WinnerResult) (o : Option ℕ) (w : W)
      → (a.id ≡ k → is_open s ≡ true)
      → Closes s w
      → Post (Closed s) (Closes s) (expire_with p a r o w)
  unfolding expire_with
  expire_with-Closes s a r none w o h =
      Post-and_then (Closed s) (Closed s) (Closes s) (close_auction p a none none r.win_amount w) _
        (close_auction-Closes s a none none r.win_amount w o h) (λ y w2 h2. h2)
  expire_with-Closes s a r (some user) w o h =
      Post-and_then (Closed s) (Closed s) (Closes s) (record_winner p a user r.win_amount w) _
        (recorded-Closed s a user r.win_amount w h)
        (λ x w1 h1.
          Post-and_then (Closed s) (Closed s) (Closes s)
            (close_auction p a (some user) (some r.win_amount) r.win_amount w1) _
            (close_auction-Closes s a (some user) (some r.win_amount) r.win_amount w1 o h1)
            (λ y w2 h2. h2))

  pub rests :
      {A : Type 0} (s : AuctionStatus) (r : Outcome A × W)
      → view r.1 ≡ s
      → Post (λ x w'. view w' ≡ s) (Closes s) r
  rests s (done x, w') q = q
  rests s (failed x, w') q = inl q
  rests s (thrown, w') q = inl q

  found-Closes :
      (s : AuctionStatus) (i : ℕ) (w : W)
      → view w ≡ s
      → Post
          (λ o w'. (view w' ≡ s) × ((a : Auction) → o ≡ some a → a.id ≡ k → a.status ≡ s))
          (Closes s)
          (p.auctions.find_by_id i w)
  found-Closes s i w e =
      Post-both (λ o w'. view w' ≡ s) (Closes s)
        (λ o w'. (a : Auction) → o ≡ some a → a.id ≡ k → a.status ≡ s) (λ w'. Unit {0})
        (p.auctions.find_by_id i w) (rests s (p.auctions.find_by_id i w) (laws.find_keeps i w ∙ e))
        (rw e at (laws.found_law i w))

  not-false : (t : Bool) → not t ≡ false → t ≡ true
  not-false t h = ground arith

  pub end_auction-Goes :
      (input : OwnerInput) (s : AuctionStatus) (w : W)
      → view w ≡ s
      → Post (Went p view k s) (Goes p view k s) (end_auction p input w)
  unfolding end_auction
  end_auction-Goes input s w e =
      Post-weaken (Closed s) (Closes s) (Went p view k s) (Goes p view k s) (end_auction p input w)
        (Post-and_then
          (λ o w'. (view w' ≡ s) × ((a : Auction) → o ≡ some a → a.id ≡ k → a.status ≡ s))
          (Closed s) (Closes s) (p.auctions.find_by_id input.auction_id w) _
          (found-Closes s input.auction_id w e)
          (λ o w1 (e1, f).
            Post-required (Closed s) (Closes s) o auction_not_found w1 _ (inl e1) (λ a q.
              Post-guarded (Closed s) (Closes s) (is_stranger input a) not_authorized w1 _ (inl e1)
                (λ own.
                  Post-guarded (Closed s) (Closes s) (not (is_open a.status))
                    only_active_can_be_ended w1 _ (inl e1)
                    (λ live.
                      Post-and_then (Closed s) (Closed s) (Closes s)
                        (validate_and_get_winner p a w1) _ (winner-Closed s a w1 (inl e1))
                        (λ r w2 h2.
                          end_with-Closes s a r r.winner_id w2
                            (λ i. ap is_open (sym (f a q i)) ∙ not-false (is_open a.status) live)
                            h2))))))
        (λ x w' h. Closes-Goes s w' h) (λ w' h. Closes-Goes s w' h)
