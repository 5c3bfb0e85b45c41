-- ===== src/Fallback/Status.antt =====
-- The fallback moves the stored status of an auction along its life cycle.
use auction_platform_backend.Prelude.{
  ℕ, zero, suc, ◌≡◌, ◌∙◌, sym, refl, Bool, true, false, not, Option, none, some, is_id,
  if◌then◌else◌, arith,
}
use auction_platform_backend.Outcome.{ok, M, return, ◌>>=◌, ◌>>◌, auction_not_found}
use auction_platform_backend.Outcome.Post.{Post, Post-and_then, Post-required}
use auction_platform_backend.Auction.{
  Auction, AuctionStatus, ended, fallback_ended, fallback_public_notification, is_ended,
  is_fallback_ended, set_status,
}
use auction_platform_backend.Notice.{you_won}
use auction_platform_backend.Services.{Platform}
use auction_platform_backend.Winner.{FallbackWinner, get_fallback_winner}
use auction_platform_backend.Payments.{WinInput, create_pending_payment}
use auction_platform_backend.Ending.{create_and_save, ranked_winner}
use auction_platform_backend.Ending.Status.{
  Move, KeepsView, StatusLaws, Goes, rest-Goes, any-Post, keeps_Post, found-Post,
  create_and_save-Goes,
}
use auction_platform_backend.Fallback.{
  given_up, crowned, notify, crown, crown_if, settle_fallback, process_winner_fallback,
}
use auction_platform_backend.Fallback.Calm.{
  CalmLaws, Calm-create_pending, Calm-notify, Calm-get_fallback_winner,
}

ended_of : (t : AuctionStatus) → not (is_ended t) ≡ false → t ≡ ended
ended_of t h = ground arith

pub fallback_of : (t : AuctionStatus) → not (is_fallback_ended t) ≡ false → t ≡ fallback_ended
fallback_of t h = ground arith

pub offered_of :
    (a a' : Auction)
    → set_status fallback_public_notification a ≡ ok a'
    → (a'.id ≡ a.id) × (a'.status ≡ fallback_public_notification)
unfolding set_status
offered_of a a' h = ground arith

module _ {W : Type 0} (p : Platform W) (view : W → AuctionStatus) (k : ℕ)
    (laws : StatusLaws p view k) (calm : CalmLaws p view k) (s : AuctionStatus) where
  abbrev End : W → Type 0
  End = Goes p view k s

  abbrev Moved : {A : Type 0} → A → W → Type 0
  Moved x w = Goes p view k s w

  abbrev Still : {A : Type 0} → A → W → Type 0
  Still x w = view w ≡ s

  -- A call that leaves the status alone, after a move.
  pub calm_Post :
      {A : Type 0} (m : M W A) → KeepsView p view k m → (w : W) → End w → Post Moved End (m w)
  calm_Post m h w g = any-Post p view k End (m w) (rw (h w) g)

  crown-Goes :
      (i : ℕ) (a : Auction) (rank user n : ℕ) (w : W)
      → view w ≡ s
      → (a.id ≡ k → a.status ≡ s)
      → Post Moved End (crown p i a rank user n w)
  unfolding crown
  crown-Goes i a rank user n w e f =
      let (id, w0) = p.runtime.generate_id w in
      Post-and_then Moved Moved End (create_and_save p (crowned user n a) w0) _
        (create_and_save-Goes p view k laws s (crowned user n a) w0 (laws.id_keeps w ∙ e)
          (λ j. rw (f j) Move.stay))
        (λ saved w1 g1.
          Post-and_then Moved Moved End (p.winners.save (ranked_winner id a user n rank) w1) _
            (calm_Post (p.winners.save (ranked_winner id a user n rank))
              (laws.winner_keeps (ranked_winner id a user n rank)) w1 g1)
            (λ winner w2 g2.
              let input : WinInput = record {
                user_id = user;
                auction_id = i;
                win_amount = n;
                ended_at = a.end_at;
              } in
              Post-and_then Moved Moved End (create_pending_payment p input w2) _
                (calm_Post (create_pending_payment p input)
                  (Calm-create_pending p view k calm input) w2 g2)
                (λ u w3 g3.
                  calm_Post (notify p user (you_won a.title) (you_won a.title))
                    (Calm-notify p view k calm user (you_won a.title) (you_won a.title)) w3 g3)))

  crown_if-Goes :
      (i : ℕ) (a : Auction) (rank : ℕ) (o amount : Option ℕ) (w : W)
      → view w ≡ s
      → (a.id ≡ k → a.status ≡ s)
      → Post Moved End (crown_if p i a rank o amount w)
  unfolding crown_if
  crown_if-Goes i a rank (some user) (some (suc n)) w e f = crown-Goes i a rank user (suc n) w e f
  crown_if-Goes i a rank (some user) (some zero) w e f = rest-Goes p view k s w e
  crown_if-Goes i a rank (some user) none w e f = rest-Goes p view k s w e
  crown_if-Goes i a rank none amount w e f = rest-Goes p view k s w e

  settle_fallback-Goes :
      (i : ℕ) (a : Auction) (f : FallbackWinner) (w : W)
      → view w ≡ s
      → (a.id ≡ k → a.status ≡ s)
      → a.status ≡ ended
      → Post Moved End (settle_fallback p i a f w)
  unfolding settle_fallback
  settle_fallback-Goes i a f w e q over = go f.is_fallback_failed
    where
      go :
          (t : Bool)
          → Post Moved End (
              (if t
                  then (create_and_save p (given_up a) >>= λ saved. return tt)
                  else crown_if p i a f.rank f.winner_id f.win_amount)
                w)
      go true =
          Post-and_then Moved Moved End (create_and_save p (given_up a) w) _
            (create_and_save-Goes p view k laws s (given_up a) w e
              (λ j. rw (sym (q j) ∙ over) Move.fall_back))
            (λ saved w1 g. g)
      go false = crown_if-Goes i a f.rank f.winner_id f.win_amount w e q

  pub process_winner_fallback-Goes :
      (i declined : ℕ) (w : W)
      → view w ≡ s
      → Post Moved End (process_winner_fallback p i declined w)
  unfolding process_winner_fallback
  process_winner_fallback-Goes i declined w e =
      Post-and_then (λ o w'. (view w' ≡ s) × ((a : Auction) → o ≡ some a → a.id ≡ k → a.status ≡ s))
        Moved End (p.auctions.find_by_id i w) _ (found-Post p view k laws s i w e)
        (λ o w1 (e1, f).
          Post-required Moved End o auction_not_found w1 _ (rest-Goes p view k s w1 e1) (λ a q.
            chosen a (not (is_ended a.status)) (not (is_id a.winner_id declined)) refl w1 e1
              (f a q)))
    where
      chosen :
          (a : Auction) (t u : Bool)
          → not (is_ended a.status) ≡ t
          → (w1 : W) → view w1 ≡ s
          → (a.id ≡ k → a.status ≡ s)
          → Post Moved End (
              (if t
                  then return tt
                  else if u
                  then return tt
                  else (p.payments.decline_all_pending_for_auction_user i declined
                      >> (get_fallback_winner p i >>= λ x. settle_fallback p i a x)))
                w1)
      chosen a true u live w1 e1 f = rest-Goes p view k s w1 e1
      chosen a false true live w1 e1 f = rest-Goes p view k s w1 e1
      chosen a false false live w1 e1 f =
          Post-and_then Still Moved End
            (p.payments.decline_all_pending_for_auction_user i declined w1) _
            (keeps_Post p view k s (p.payments.decline_all_pending_for_auction_user i declined)
              (calm.decline_calm i declined) w1 e1)
            (λ u w2 e2.
              Post-and_then Still Moved End (get_fallback_winner p i w2) _
                (keeps_Post p view k s (get_fallback_winner p i)
                  (Calm-get_fallback_winner p view k calm i) w2 e2)
                (λ x w3 e3. settle_fallback-Goes i a x w3 e3 f (ended_of a.status live)))
