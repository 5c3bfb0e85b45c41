-- ===== src/Ending/Moves.antt =====
-- The use cases that publish, pause, resume and fail an auction move its stored status.
use auction_platform_backend.Prelude.{
  ℕ, ◌≡◌, ◌∙◌, sym, ap, inl, inr, Bool, true, false, not, Option, some, ltb, leb, ◌==◌, arith,
}
use auction_platform_backend.Outcome.{
  Result, ok, fail, Outcome, done, failed, thrown, M, and_then, attempt, fail_if, return,
  auction_not_found, not_authorized, not_authorized_to_publish, only_active_can_be_paused,
  only_paused_can_be_resumed, only_draft_can_be_published, end_time_already_passed,
  start_price_too_low, max_extension_count_too_high,
}
use auction_platform_backend.Outcome.Post.{
  Post, Post-and_then, Post-guarded, Post-required, Post-settled, Post-attempted,
}
use auction_platform_backend.Auction.{
  Auction, AuctionStatus, draft, active, paused, failed_auction, is_active, is_paused, is_draft,
  is_ended, set_status,
}
use auction_platform_backend.Services.{Platform}
use auction_platform_backend.Ending.{
  OwnerInput, moved, is_stranger, create_and_save, pause_auction, resume_auction, validate_pricing,
  publish_auction, fail_auction, status_output,
}
use auction_platform_backend.Ending.Status.{
  Move, KeepsView, StatusLaws, Goes, Went, Rests, Row, Row-Post, rest-Goes, any-Post, found-Post,
  create_and_save-Goes,
}

module _ {W : Type 0} (p : Platform W) (view : W → AuctionStatus) (k : ℕ)
    (laws : StatusLaws p view k) where
  active_of : (t : AuctionStatus) → not (is_active t) ≡ false → t ≡ active
  active_of t h = ground arith

  paused_of : (t : AuctionStatus) → not (is_paused t) ≡ false → t ≡ paused
  paused_of t h = ground arith

  draft_of : (t : AuctionStatus) → not (is_draft t) ≡ false → t ≡ draft
  draft_of t h = ground arith

  -- A copy in another state, saved.
  save_moved :
      (s t : AuctionStatus) (a : Auction) (w : W)
      → view w ≡ s
      → (a.id ≡ k → Move s t)
      → Post
          (Went p view k s)
          (Goes p view k s)
          (and_then (create_and_save p (moved t a) w) (λ x. return (status_output x)))
  save_moved s t a w e h =
      Post-and_then (Went p view k s) (Went p view k s) (Goes p view k s)
        (create_and_save p (moved t a) w) _ (create_and_save-Goes p view k laws s (moved t a) w e h)
        (λ x w' g. g)

  pub pause_auction-Goes :
      (input : OwnerInput) (s : AuctionStatus) (w : W)
      → view w ≡ s
      → Post (Went p view k s) (Goes p view k s) (pause_auction p input w)
  unfolding pause_auction
  pause_auction-Goes input s w e =
      Post-and_then (λ o w'. (view w' ≡ s) × ((a : Auction) → o ≡ some a → a.id ≡ k → a.status ≡ s))
        (Went p view k s) (Goes p view k s) (p.auctions.find_by_id input.auction_id w) _
        (found-Post p view k laws s input.auction_id w e)
        (λ o w1 (e1, f).
          Post-required (Went p view k s) (Goes p view k s) o auction_not_found w1 _
            (rest-Goes p view k s w1 e1)
            (λ a q.
              Post-guarded (Went p view k s) (Goes p view k s) (is_stranger input a) not_authorized
                w1 _ (rest-Goes p view k s w1 e1)
                (λ own.
                  Post-guarded (Went p view k s) (Goes p view k s) (not (is_active a.status))
                    only_active_can_be_paused w1 _ (rest-Goes p view k s w1 e1)
                    (λ live.
                      save_moved s paused a w1 e1
                        (λ i. rw (sym (f a q i) ∙ active_of a.status live) Move.pause)))))

  pub resume_auction-Goes :
      (input : OwnerInput) (s : AuctionStatus) (w : W)
      → view w ≡ s
      → Post (Went p view k s) (Goes p view k s) (resume_auction p input w)
  unfolding resume_auction
  resume_auction-Goes input s w e =
      Post-and_then (λ o w'. (view w' ≡ s) × ((a : Auction) → o ≡ some a → a.id ≡ k → a.status ≡ s))
        (Went p view k s) (Goes p view k s) (p.auctions.find_by_id input.auction_id w) _
        (found-Post p view k laws s input.auction_id w e)
        (λ o w1 (e1, f).
          Post-required (Went p view k s) (Goes p view k s) o auction_not_found w1 _
            (rest-Goes p view k s w1 e1)
            (λ a q.
              Post-guarded (Went p view k s) (Goes p view k s) (is_stranger input a) not_authorized
                w1 _ (rest-Goes p view k s w1 e1)
                (λ own.
                  Post-guarded (Went p view k s) (Goes p view k s) (not (is_paused a.status))
                    only_paused_can_be_resumed w1 _ (rest-Goes p view k s w1 e1)
                    (λ still.
                      save_moved s active a w1 e1
                        (λ i. rw (sym (f a q i) ∙ paused_of a.status still) Move.resume)))))

  -- A setting read with its failure kept.
  setting-Post :
      (s : AuctionStatus) (m : M W ℕ) (w : W)
      → KeepsView p view k m
      → view w ≡ s
      → Post (Rests p view k s {A = Result ℕ}) (Goes p view k s) (attempt m w)
  setting-Post s m w calm e =
      Post-attempted (Rests p view k s) (λ w'. view w' ≡ s) (Rests p view k s) (Goes p view k s)
        (m w) (kept (m w) (calm w ∙ e)) (λ a w' q. q) (λ x w' q. q)
        (λ w' q. rest-Goes p view k s w' q)
    where
      kept : (r : Outcome ℕ × W) → view r.1 ≡ s → Post (Rests p view k s) (λ w'. view w' ≡ s) r
      kept (done x, w') q = q
      kept (failed x, w') q = q
      kept (thrown, w') q = q

  pricing-Post :
      (s : AuctionStatus) (a : Auction) (w : W)
      → view w ≡ s
      → Post (Rests p view k s) (Goes p view k s) (validate_pricing p a w)
  unfolding validate_pricing
  pricing-Post s a w e =
      Post-and_then (Rests p view k s) (Rests p view k s) (Goes p view k s)
        (attempt p.config.auction_min_start_price w) _
        (setting-Post s p.config.auction_min_start_price w laws.min_keeps e)
        (λ min w1 e1.
          Post-and_then (Rests p view k s) (Rests p view k s) (Goes p view k s)
            (attempt p.config.auction_max_max_extension_count w1) _
            (setting-Post s p.config.auction_max_max_extension_count w1 laws.max_keeps e1)
            (λ max w2 e2.
              Post-settled (Rests p view k s) (Goes p view k s) min w2 _
                (rest-Goes p view k s w2 e2)
                (λ lo q.
                  Post-settled (Rests p view k s) (Goes p view k s) max w2 _
                    (rest-Goes p view k s w2 e2)
                    (λ hi q'.
                      Post-guarded (Rests p view k s) (Goes p view k s) (ltb a.start_price lo)
                        start_price_too_low w2 _ (rest-Goes p view k s w2 e2)
                        (λ dear. last (ltb hi a.max_extension_count) w2 e2)))))
    where
      last :
          (c : Bool) (w' : W)
          → view w' ≡ s
          → Post (Rests p view k s) (Goes p view k s) (fail_if c max_extension_count_too_high w')
      last true w' q = rest-Goes p view k s w' q
      last false w' q = q

  pub publish_auction-Goes :
      (i u : ℕ) (s : AuctionStatus) (w : W)
      → view w ≡ s
      → Post (Went p view k s) (Goes p view k s) (publish_auction p i u w)
  unfolding publish_auction
  publish_auction-Goes i u s w e =
      Post-and_then (λ o w'. (view w' ≡ s) × ((a : Auction) → o ≡ some a → a.id ≡ k → a.status ≡ s))
        (Went p view k s) (Goes p view k s) (p.auctions.find_by_id i w) _
        (found-Post p view k laws s i w e)
        (λ o w1 (e1, f).
          Post-required (Went p view k s) (Goes p view k s) o auction_not_found w1 _
            (rest-Goes p view k s w1 e1)
            (λ a q.
              Post-guarded (Went p view k s) (Goes p view k s) (not (a.seller_id == u))
                not_authorized_to_publish w1 _ (rest-Goes p view k s w1 e1)
                (λ own.
                  Post-guarded (Went p view k s) (Goes p view k s) (not (is_draft a.status))
                    only_draft_can_be_published w1 _ (rest-Goes p view k s w1 e1)
                    (λ new.
                      Post-guarded (Went p view k s) (Goes p view k s)
                        (leb a.end_at (p.runtime.now w1)) end_time_already_passed w1 _
                        (rest-Goes p view k s w1 e1)
                        (λ early.
                          Post-and_then (Rests p view k s) (Went p view k s) (Goes p view k s)
                            (validate_pricing p a w1) _ (pricing-Post s a w1 e1)
                            (λ ok' w2 e2.
                              save_moved s active a w2 e2
                                (λ j. rw (sym (f a q j) ∙ draft_of a.status new) Move.publish)))))))

  failed_of :
      (a a' : Auction)
      → set_status failed_auction a ≡ ok a'
      → (a'.id ≡ a.id) × (a'.status ≡ failed_auction) × (is_ended a.status ≡ false)
  unfolding set_status
  failed_of a a' h = ground arith

  -- The message of a failed read replaced.
  renamed_ok :
      (r : Result (Option Auction)) (o : Option Auction)
      → elim r [ ok x ↦ ok x | fail e ↦ fail auction_not_found ] ≡ ok o
      → r ≡ ok o
  renamed_ok (ok x) o h = h
  renamed_ok (fail e) o h = cc

  pub fail_auction-Goes :
      (i : ℕ) (s : AuctionStatus) (w : W)
      → view w ≡ s
      → Post (Went p view k s) (Goes p view k s) (fail_auction p i w)
  unfolding fail_auction
  fail_auction-Goes i s w e =
      Post-and_then (Row p view k laws s) (Went p view k s) (Goes p view k s)
        (attempt (p.auctions.find_by_id i) w) _ (Row-Post p view k laws s i w e)
        (λ r w1 (e1, f).
          Post-settled (Went p view k s) (Goes p view k s)
            (elim r [ ok x ↦ ok x | fail x ↦ fail auction_not_found ]) w1 _
            (rest-Goes p view k s w1 e1)
            (λ o q.
              Post-required (Went p view k s) (Goes p view k s) o auction_not_found w1 _
                (rest-Goes p view k s w1 e1)
                (λ a q'.
                  Post-settled (Went p view k s) (Goes p view k s) (set_status failed_auction a) w1
                    _ (rest-Goes p view k s w1 e1)
                    (λ a' set. save_failed s r o a a' w1 e1 f q q' set))))
    where
      save_failed :
          (s : AuctionStatus) (r : Result (Option Auction)) (o : Option Auction) (a a' : Auction)
          (w1 : W)
          → view w1 ≡ s
          → ((b : Auction) → r ≡ ok (some b) → b.id ≡ k → b.status ≡ s)
          → elim r [ ok x ↦ ok x | fail x ↦ fail auction_not_found ] ≡ ok o
          → o ≡ some a
          → set_status failed_auction a ≡ ok a'
          → Post
              (Went p view k s)
              (Goes p view k s)
              (and_then (p.auctions.save a' w1) (λ x. return (status_output a')))
      save_failed s r o a a' w1 e1 f q q' set =
          Post-and_then (Went p view k s) (Went p view k s) (Goes p view k s)
            (p.auctions.save a' w1) _
            (any-Post p view k (Goes p view k s) (p.auctions.save a' w1)
              (elim (laws.save_law a' w1) [
                | inl same ↦ rest-Goes p view k s (p.auctions.save a' w1).1 (same ∙ e1)
                | inr (i', x) ↦
                    let (j, t, live) = failed_of a a' set in
                    rw (x ∙ t) (
                      Move.fail_it
                        (ap is_ended (sym (f a (renamed_ok r o q ∙ ap ok q') (sym j ∙ i'))) ∙ live))
              ]))
            (λ x w2 g. g)
