-- ===== src/Ending.antt =====
-- How an auction is published, paused, resumed, ended and failed: the use cases of
-- src/application/usecases/auction (publishAuction, pauseAuction, resumeAuction, endAuction,
-- failAuction, expireOverdueAuctions).
pub mod Status
pub mod Moves
pub mod Closing
pub mod Overdue
use auction_platform_backend.Prelude.{
  ℕ, ◌+◌, Bool, true, false, Option, none, some, List, [], ◌∷◌, not, ◌&&◌, ltb, leb, ◌==◌, length,
  if◌then◌else◌,
}
use auction_platform_backend.Outcome.{
  Result, ok, fail, M, return, settle, attempt, gives, gets, acts, require, fail_if, or_catch,
  give_up, ◌>>=◌, ◌>>◌, auction_not_found, not_authorized, not_authorized_to_publish,
  only_active_can_be_ended, only_active_can_be_paused, only_paused_can_be_resumed,
  only_draft_can_be_published, end_time_already_passed, start_price_too_low,
  max_extension_count_too_high,
}
use auction_platform_backend.Auction.{
  Auction, AuctionStatus, active, paused, ended, failed_auction, is_active, is_paused, is_draft,
  create, set_status,
}
use auction_platform_backend.Auction.Bid.{AuctionWinner, AuctionWinnerStatus}
use auction_platform_backend.Services.{Platform, AuctionEnded}
use auction_platform_backend.Winner.{WinnerResult, validate_and_get_winner}

-- `{ id, status }` of the saved auction.
pub record StatusOutput : Type 0 where
  pub id : ℕ
  pub status : AuctionStatus

abbrev pub status_output : Auction → StatusOutput
status_output a = record { id = a.id; status = a.status }

-- The input of the use cases of a seller or an administrator.
pub record OwnerInput : Type 0 where
  pub auction_id : ℕ
  pub user_id : ℕ
  pub is_admin : Bool

-- The copy of an auction in another state. `winAmount` is not among the arguments of
-- `Auction.create` here, so it is reset.
abbrev pub moved : AuctionStatus → Auction → Auction
moved s a = record a { status = s; win_amount = none }

abbrev pub closed : Option ℕ → Option ℕ → Auction → Auction
closed winner amount a = record a { status = ended; winner_id = winner; win_amount = amount }

abbrev pub is_stranger : OwnerInput → Auction → Bool
is_stranger input a = not input.is_admin && not (a.seller_id == input.user_id)

abbrev pub is_open : AuctionStatus → Bool
is_open active = true
is_open paused = true
is_open _ = false

-- `AuctionWinner.create({ ..., status: PENDING })`, which does not fail.
abbrev pub ranked_winner : ℕ → Auction → ℕ → ℕ → ℕ → AuctionWinner
ranked_winner id a user amount rank = record {
  id = id;
  auction_id = a.id;
  user_id = user;
  amount = amount;
  rank = rank;
  status = AuctionWinnerStatus.pending;
  rejection_reason = none;
}

pub record ExpireOutput : Type 0 where
  pub processed : ℕ
  pub ended_count : ℕ
  pub failed_count : ℕ

module _ {W : Type 0} (p : Platform W) where
  -- `Auction.create({ ... })`, then `save`.
  unfoldable pub create_and_save : Auction → M W Auction
  create_and_save a = do made ← settle (create a); p.auctions.save made

  -- `PauseAuctionUsecase.execute`.
  unfoldable pub pause_auction : OwnerInput → M W StatusOutput
  pause_auction input = do
    found ← p.auctions.find_by_id input.auction_id
    a ← require found auction_not_found
    fail_if (is_stranger input a) not_authorized
    fail_if (not (is_active a.status)) only_active_can_be_paused
    saved ← create_and_save (moved paused a)
    return (status_output saved)

  -- `ResumeAuctionUsecase.execute`.
  unfoldable pub resume_auction : OwnerInput → M W StatusOutput
  resume_auction input = do
    found ← p.auctions.find_by_id input.auction_id
    a ← require found auction_not_found
    fail_if (is_stranger input a) not_authorized
    fail_if (not (is_paused a.status)) only_paused_can_be_resumed
    saved ← create_and_save (moved active a)
    return (status_output saved)

  -- `validateAuctionDraftPricingWithSystemConfig`, which reads both settings before it tests one.
  unfoldable pub validate_pricing : Auction → M W (Unit {0})
  validate_pricing a = do
    min ← attempt p.config.auction_min_start_price
    max ← attempt p.config.auction_max_max_extension_count
    min_start ← settle min
    max_ext ← settle max
    fail_if (ltb a.start_price min_start) start_price_too_low
    fail_if (ltb max_ext a.max_extension_count) max_extension_count_too_high

  -- `PublishAuctionUsecase.execute`.
  unfoldable pub publish_auction : ℕ → ℕ → M W StatusOutput
  publish_auction auction_id user_id = do
    found ← p.auctions.find_by_id auction_id
    a ← require found auction_not_found
    fail_if (not (a.seller_id == user_id)) not_authorized_to_publish
    fail_if (not (is_draft a.status)) only_draft_can_be_published
    now ← gets p.runtime.now
    fail_if (leb a.end_at now) end_time_already_passed
    validate_pricing a
    saved ← create_and_save (moved active a)
    return (status_output saved)

  -- `FailAuctionUsecase.execute`, whose message for a failed read is that of a missing auction.
  unfoldable pub fail_auction : ℕ → M W StatusOutput
  fail_auction auction_id = do
    read ← attempt (p.auctions.find_by_id auction_id)
    found ← settle (elim read [ ok o ↦ ok o | fail e ↦ fail auction_not_found ])
    a ← require found auction_not_found
    a' ← settle (set_status failed_auction a)
    p.auctions.save a'
    return (status_output a')

  -- The first winner of an auction, saved.
  unfoldable pub record_winner : Auction → ℕ → ℕ → M W AuctionWinner
  record_winner a user amount = do
    id ← gives p.runtime.generate_id
    p.winners.save (ranked_winner id a user amount 1)

  -- The auction is saved as ended, and the event published.
  unfoldable pub close_auction : Auction → Option ℕ → Option ℕ → ℕ → M W Auction
  close_auction a winner amount event_amount = do
    saved ← create_and_save (closed winner amount a)
    acts (
        p.events.publish (record {
          auction_id = saved.id;
          title = saved.title;
          winner_id = winner;
          win_amount = event_amount;
          ended_at = saved.end_at;
        }))
    return saved

  -- From the winner on. Without one the use case succeeds and leaves the auction as it is.
  unfoldable pub end_with : Auction → WinnerResult → Option ℕ → M W (Option StatusOutput)
  end_with a r none = return none
  end_with a r (some user) = do
    record_winner a user r.win_amount
    saved ← close_auction a (some user) (some r.win_amount) r.win_amount
    return (some (status_output saved))

  -- `EndAuctionUsecase.execute`.
  unfoldable pub end_auction : OwnerInput → M W (Option StatusOutput)
  end_auction input = do
    found ← p.auctions.find_by_id input.auction_id
    a ← require found auction_not_found
    fail_if (is_stranger input a) not_authorized
    fail_if (not (is_open a.status)) only_active_can_be_ended
    r ← validate_and_get_winner p a
    end_with a r r.winner_id

  -- `if (winnerId)` of `endOverdueAuction`, and what follows.
  unfoldable pub expire_with : Auction → WinnerResult → Option ℕ → M W (Unit {0})
  expire_with a r none = do close_auction a none none r.win_amount; return tt
  expire_with a r (some user) = do
    record_winner a user r.win_amount
    close_auction a (some user) (some r.win_amount) r.win_amount
    return tt

  -- `endOverdueAuction`.
  unfoldable pub end_overdue_auction : Auction → M W (Unit {0})
  end_overdue_auction a =
      if not (is_open a.status)
      then return tt
      else do r ← validate_and_get_winner p a; expire_with a r r.winner_id

  -- The counters after an auction.
  abbrev pub count_end : Result (Unit {0}) → ℕ × ℕ → ℕ × ℕ
  count_end (ok u) (n, m) = (n + 1, m)
  count_end (fail e) (n, m) = (n, m + 1)

  -- The loop over the overdue auctions.
  unfoldable pub end_each : List Auction → ℕ × ℕ → M W (ℕ × ℕ)
  end_each [] counts = return counts
  end_each (a ∷ rest) counts =
      attempt (end_overdue_auction a) >>= λ r. end_each rest (count_end r counts)

  -- `ExpireOverdueAuctionsUsecase.execute`.
  unfoldable pub expire_overdue_auctions : M W ExpireOutput
  expire_overdue_auctions = do
    size ← p.config.auction_expiry_batch_size
    now ← gets p.runtime.now
    overdue ← p.auctions.find_overdue_active_auctions size now
    counts ← end_each overdue (0, 0)
    return (record { processed = length overdue; ended_count = counts.0; failed_count = counts.1 })
