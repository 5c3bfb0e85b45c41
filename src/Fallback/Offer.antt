-- ===== src/Fallback/Offer.antt =====
-- The stored status under processFallbackPublicNotification.
use auction_platform_backend.Prelude.{ℕ, ◌≡◌, ◌∙◌, sym, ap, inl, inr, not, Option, some, List}
use auction_platform_backend.Outcome.{
  Result, ok, fail, and_then, attempt, value_of, ◌>>=◌, auction_not_found, unexpected_error,
}
use auction_platform_backend.Outcome.Post.{
  Post, Post-and_then, Post-required, Post-settled, Post-thrown, Post-caught,
}
use auction_platform_backend.Auction.{
  Auction, AuctionStatus, fallback_ended, fallback_public_notification, is_fallback_ended,
  set_status,
}
use auction_platform_backend.Auction.Bid.{AuctionWinner}
use auction_platform_backend.Notice.{another_chance, checkout_room}
use auction_platform_backend.Services.{Platform}
use auction_platform_backend.Winner.{has_won}
use auction_platform_backend.Ending.Status.{
  Move, StatusLaws, Goes, Row, Row-Post, rest-Goes, any-Post, keeps_Post,
}
use auction_platform_backend.Fallback.{
  offer_row, notify_each, offer_publicly, process_public_notification,
}
use auction_platform_backend.Fallback.Calm.{CalmLaws, Calm-notify_each}
use auction_platform_backend.Fallback.Status.{calm_Post, offered_of, fallback_of}

module _ {W : Type 0} (p : Platform W) (view : W → AuctionStatus) (k : ℕ)
    (laws : StatusLaws p view k) (calm : CalmLaws p view k) (s : AuctionStatus) where
  abbrev End : W → Type 0
  End = Goes p view k s

  abbrev Moved : {A : Type 0} → A → W → Type 0
  Moved x w = Goes p view k s w

  abbrev Still : {A : Type 0} → A → W → Type 0
  Still x w = view w ≡ s

  -- The auction offered publicly, saved, and the participants notified.
  offered-Goes :
      (i : ℕ) (a a' : Auction) (winners : List AuctionWinner) (w : W)
      → view w ≡ s
      → (a.id ≡ k → a.status ≡ s)
      → a.status ≡ fallback_ended
      → set_status fallback_public_notification a ≡ ok a'
      → Post Moved End (
          and_then
            (p.public_fallbacks.save
              (offer_row
                (p.runtime.generate_id w).0
                a
                i
                (p.runtime.now (p.runtime.generate_id w).1))
              (p.runtime.generate_id w).1)
            (λ stored. p.auctions.save a' >>= λ saved. p.participants.find_by_auction_id i >>= λ ps.
              notify_each p (has_won winners) (another_chance a.title) (checkout_room a.title) ps))
  offered-Goes i a a' winners w e f over set =
      let (id, w0) = p.runtime.generate_id w in
      let row = offer_row id a i (p.runtime.now w0) in
      Post-and_then Still Moved End (p.public_fallbacks.save row w0) _
        (keeps_Post p view k s (p.public_fallbacks.save row) (calm.offer_calm row) w0
          (laws.id_keeps w ∙ e))
        (λ stored w1 e1.
          Post-and_then Moved Moved End (p.auctions.save a' w1) _
            (any-Post p view k End (p.auctions.save a' w1) (saved w1 e1))
            (λ x w2 g2.
              Post-and_then Moved Moved End (p.participants.find_by_auction_id i w2) _
                (calm_Post p view k laws calm s (p.participants.find_by_auction_id i)
                  (calm.participants_calm i) w2 g2)
                (λ ps w3 g3.
                  calm_Post p view k laws calm s
                    (notify_each p (has_won winners) (another_chance a.title)
                      (checkout_room a.title) ps)
                    (Calm-notify_each p view k calm (has_won winners) (another_chance a.title)
                      (checkout_room a.title) ps)
                    w3 g3)))
    where
      saved : (w1 : W) → view w1 ≡ s → End (p.auctions.save a' w1).1
      saved w1 e1 =
          let (same, status) = offered_of a a' set in
          elim (laws.save_law a' w1) [
            | inl kept ↦ rest-Goes p view k s (p.auctions.save a' w1).1 (kept ∙ e1)
            | inr (j, now) ↦
                rw (now ∙ status) (rw (sym (f (sym same ∙ j)) ∙ over) Move.offer_publicly)
          ]

  offer_publicly-Goes : (i : ℕ) (w : W) → view w ≡ s → Post Moved End (offer_publicly p i w)
  unfolding offer_publicly
  offer_publicly-Goes i w e =
      Post-and_then (Row p view k laws s) Moved End (attempt (p.auctions.find_by_id i) w) _
        (Row-Post p view k laws s i w e)
        (λ r w1 (e1, f).
          Post-and_then
            (λ o w'. (view w' ≡ s) × ((a : Auction) → o ≡ some a → a.id ≡ k → a.status ≡ s)) Moved
            End (value_of r w1) _ (valued r w1 e1 f)
            (λ o w2 (e2, f2).
              Post-required Moved End o auction_not_found w2 _ (rest-Goes p view k s w2 e2) (λ a q.
                Post-thrown Moved End (not (is_fallback_ended a.status)) w2 _
                  (rest-Goes p view k s w2 e2)
                  (λ over.
                    Post-and_then Still Moved End (p.winners.find_all_by_auction_id i w2) _
                      (keeps_Post p view k s (p.winners.find_all_by_auction_id i)
                        (calm.winners_calm i) w2 e2)
                      (λ winners w3 e3.
                        Post-settled Moved End (set_status fallback_public_notification a) w3 _
                          (rest-Goes p view k s w3 e3)
                          (λ a' set.
                            offered-Goes i a a' winners w3 e3 (f2 a q) (fallback_of a.status over)
                              set))))))
    where
      valued :
          (r : Result (Option Auction)) (w1 : W)
          → view w1 ≡ s
          → ((a : Auction) → r ≡ ok (some a) → a.id ≡ k → a.status ≡ s)
          → Post
              (λ o w'. (view w' ≡ s) × ((a : Auction) → o ≡ some a → a.id ≡ k → a.status ≡ s))
              End
              (value_of r w1)
      valued (ok o) w1 e1 f = (e1, λ a q. f a (ap ok q))
      valued (fail x) w1 e1 f = rest-Goes p view k s w1 e1

  pub process_public_notification-Goes :
      (i : ℕ) (w : W) → view w ≡ s → Post Moved End (process_public_notification p i w)
  unfolding process_public_notification
  process_public_notification-Goes i w e =
      Post-caught Moved End (offer_publicly p i w) unexpected_error (offer_publicly-Goes i w e)
