-- ===== src/Life.antt =====
-- Any run of the use cases that change an auction's status.
use auction_platform_backend.Prelude.{ℕ, ◌≡◌, refl, Bool, true, false, List, [], ◌∷◌}
use auction_platform_backend.Outcome.{Outcome, done, failed, thrown}
use auction_platform_backend.Outcome.Post.{Post}
use auction_platform_backend.Auction.{
  AuctionStatus, ended, failed_auction, fallback_ended, fallback_public_notification,
}
use auction_platform_backend.Services.{Platform}
use auction_platform_backend.Ending.{
  OwnerInput, pause_auction, resume_auction, publish_auction, fail_auction, end_auction,
  expire_overdue_auctions,
}
use auction_platform_backend.Ending.Status.{Move, StatusLaws, Goes, Went}
use auction_platform_backend.Ending.Moves.{
  pause_auction-Goes, resume_auction-Goes, publish_auction-Goes, fail_auction-Goes,
}
use auction_platform_backend.Fallback.{process_winner_fallback, process_public_notification}
use auction_platform_backend.Fallback.Calm.{CalmLaws}
use auction_platform_backend.Fallback.Status.{process_winner_fallback-Goes}
use auction_platform_backend.Fallback.Offer.{process_public_notification-Goes}
use auction_platform_backend.Ending.Closing.{end_auction-Goes}
use auction_platform_backend.Ending.Overdue.{expire-Goes}

-- A call of one of the use cases.
pub data Command : Type 0 where
  publish_it : ℕ → ℕ → Command
  pause_it resume_it end_it : OwnerInput → Command
  give_it_up : ℕ → Command
  expire_all : Command
  fall_to_next : ℕ → ℕ → Command
  offer_to_all : ℕ → Command

-- The auction is over: it has ended, or has gone on from there, or has failed.
abbrev pub is_over : AuctionStatus → Bool
is_over ended = true
is_over fallback_ended = true
is_over fallback_public_notification = true
is_over failed_auction = true
is_over _ = false

Move-is_over : {s t : AuctionStatus} → Move s t → is_over s ≡ true → is_over t ≡ true
Move-is_over Move.stay h = h
Move-is_over Move.publish h = cc
Move-is_over Move.pause h = cc
Move-is_over Move.resume h = cc
Move-is_over (Move.close o) h = refl
Move-is_over (Move.fail_it o) h = refl
Move-is_over Move.fall_back h = refl
Move-is_over Move.offer_publicly h = refl

module _ {W : Type 0} (p : Platform W) where
  -- The world after a call, however the call ends.
  abbrev pub run : Command → W → W
  run (publish_it i u) w = (publish_auction p i u w).1
  run (pause_it input) w = (pause_auction p input w).1
  run (resume_it input) w = (resume_auction p input w).1
  run (end_it input) w = (end_auction p input w).1
  run (give_it_up i) w = (fail_auction p i w).1
  run expire_all w = (expire_overdue_auctions p w).1
  run (fall_to_next i declined) w = (process_winner_fallback p i declined w).1
  run (offer_to_all i) w = (process_public_notification p i w).1

  abbrev pub run_all : List Command → W → W
  run_all [] w = w
  run_all (c ∷ cs) w = run_all cs (run c w)

  module _ (view : W → AuctionStatus) (k : ℕ) (laws : StatusLaws p view k)
      (calm : CalmLaws p view k) where
    outcome :
        {A : Type 0} (s : AuctionStatus) (r : Outcome A × W)
        → Post (Went p view k s) (Goes p view k s) r
        → Goes p view k s r.1
    outcome s (done x, w) g = g
    outcome s (failed x, w) g = g
    outcome s (thrown, w) g = g

    -- Each use case moves the stored status of the auction along the life cycle or leaves it,
    -- whether it succeeds, fails or throws at any point.
    pub run-Move : (c : Command) (w : W) → Move (view w) (view (run c w))
    run-Move (publish_it i u) w =
        outcome (view w) (publish_auction p i u w)
          (publish_auction-Goes p view k laws i u (view w) w refl)
    run-Move (pause_it input) w =
        outcome (view w) (pause_auction p input w)
          (pause_auction-Goes p view k laws input (view w) w refl)
    run-Move (resume_it input) w =
        outcome (view w) (resume_auction p input w)
          (resume_auction-Goes p view k laws input (view w) w refl)
    run-Move (end_it input) w =
        outcome (view w) (end_auction p input w)
          (end_auction-Goes p view k laws input (view w) w refl)
    run-Move (give_it_up i) w =
        outcome (view w) (fail_auction p i w) (fail_auction-Goes p view k laws i (view w) w refl)
    run-Move expire_all w =
        outcome (view w) (expire_overdue_auctions p w) (expire-Goes p view k laws (view w) w refl)
    run-Move (fall_to_next i declined) w =
        outcome (view w) (process_winner_fallback p i declined w)
          (process_winner_fallback-Goes p view k laws calm (view w) i declined w refl)
    run-Move (offer_to_all i) w =
        outcome (view w) (process_public_notification p i w)
          (process_public_notification-Goes p view k laws calm (view w) i w refl)

    -- Once an auction is over it stays over: no sequence of the use cases publishes, resumes,
    -- pauses or otherwise reopens it, however each of them ends.
    pub run_all-is_over :
        (cs : List Command) (w : W) → is_over (view w) ≡ true → is_over (view (run_all cs w)) ≡ true
    run_all-is_over [] w h = h
    run_all-is_over (c ∷ cs) w h = run_all-is_over cs (run c w) (Move-is_over (run-Move c w) h)
