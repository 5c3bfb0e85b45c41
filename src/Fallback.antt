-- ===== src/Fallback.antt =====
-- What follows the end of an auction: src/application/usecases/auction (processAuctionEnd,
-- processAuctionWinnerFallback, processFallbackPublicNotification).
pub mod Calm
pub mod Status
pub mod Offer
use auction_platform_backend.Prelude.{
  ℕ, zero, suc, Bool, true, false, Option, none, some, List, [], ◌∷◌, not, is_id, if◌then◌else◌,
}
use Prim.Native.String.{String}
use auction_platform_backend.Outcome.{
  Result, ok, fail, M, return, settle, attempt, value_of, gives, gets, acts, require, throw_if,
  or_catch, ◌>>=◌, ◌>>◌, auction_not_found, unexpected_error,
}
use auction_platform_backend.Auction.{
  Auction, AuctionStatus, fallback_ended, fallback_public_notification, is_ended, is_fallback_ended,
  set_status,
}
use auction_platform_backend.Auction.Bid.{AuctionParticipant, AuctionWinner}
use auction_platform_backend.Notice.{
  Notification, NoticeText, you_won, you_lost, another_chance, checkout_room, notification,
  PublicFallbackAuction, PublicFallbackStatus, PublicFallbackPaymentStatus,
}
use auction_platform_backend.Services.{Platform}
use auction_platform_backend.Winner.{FallbackWinner, get_fallback_winner, has_won}
use auction_platform_backend.Ending.{create_and_save, ranked_winner}
use auction_platform_backend.Payments.{WinInput, create_pending_payment}

-- The auction without a winner, at the end of its fallback.
abbrev pub given_up : Auction → Auction
given_up a = record a { status = fallback_ended; winner_id = none; win_amount = none }

-- The auction with its next winner, in the state that it is in.
abbrev pub crowned : ℕ → ℕ → Auction → Auction
crowned user amount a = record a { winner_id = some user; win_amount = some amount }

abbrev pub offer_row : ℕ → Auction → ℕ → ℕ → PublicFallbackAuction
offer_row id a auction_id now = record {
  id = id;
  auction_id = auction_id;
  amount = a.start_price;
  status = PublicFallbackStatus.pending;
  payment_status = PublicFallbackPaymentStatus.pending;
  created_at = now;
}

-- The input of `processAuctionEnd`.
pub record EndInput : Type 0 where
  pub auction_id : ℕ
  pub auction_title : String
  pub winner_id : Option ℕ
  pub win_amount : ℕ
  pub ended_at : ℕ

module _ {W : Type 0} (p : Platform W) where
  -- A notification saved and published.
  unfoldable pub store_notice : Notification → M W (Unit {0})
  store_notice n = do saved ← p.notifications.save n; acts (p.events.publish_notification n)

  unfoldable pub notify : ℕ → NoticeText → NoticeText → M W (Unit {0})
  notify user title message = do
    id ← gives p.runtime.generate_id
    store_notice (notification id user title message)

  -- The participants notified, but for those that `skipped` names.
  unfoldable pub notify_each :
      (ℕ → Bool) → NoticeText → NoticeText → List AuctionParticipant → M W (Unit {0})
  notify_each skipped title message [] = return tt
  notify_each skipped title message (x ∷ rest) = elim (skipped x.user_id) [
    | true ↦ notify_each skipped title message rest
    | false ↦ notify x.user_id title message >>= λ u. notify_each skipped title message rest
  ]

  -- `ProcessAuctionEndNotificationUsecase.execute`, once there are participants and a winner.
  unfoldable pub announce_winner : EndInput → ℕ → List AuctionParticipant → M W (Unit {0})
  announce_winner input user participants = do
    notify user (you_won input.auction_title) (you_won input.auction_title)
    notify_each (is_id (some user)) (you_lost input.auction_title) (you_lost input.auction_title)
        participants
    create_pending_payment p (record {
      user_id = user;
      auction_id = input.auction_id;
      win_amount = input.win_amount;
      ended_at = input.ended_at;
    })

  unfoldable pub announce_end : EndInput → Option ℕ → List AuctionParticipant → M W (Unit {0})
  announce_end input winner [] = return tt
  announce_end input none (x ∷ rest) = return tt
  announce_end input (some user) (x ∷ rest) = announce_winner input user (x ∷ rest)

  -- `ProcessAuctionEndNotificationUsecase.execute`.
  unfoldable pub process_auction_end : EndInput → M W (Unit {0})
  process_auction_end input = do
    participants ← p.participants.find_by_auction_id input.auction_id
    announce_end input input.winner_id participants

  -- The next winner put in place: the auction, the winner, the payments, the notification.
  unfoldable pub crown : ℕ → Auction → ℕ → ℕ → ℕ → M W (Unit {0})
  crown auction_id a rank user amount = do
    id ← gives p.runtime.generate_id
    saved ← create_and_save p (crowned user amount a)
    winner ← p.winners.save (ranked_winner id a user amount rank)
    create_pending_payment p (record {
      user_id = user;
      auction_id = auction_id;
      win_amount = amount;
      ended_at = a.end_at;
    })
    notify user (you_won a.title) (you_won a.title)

  -- `if (!newWinner.winnerId || !newWinner.winAmount) return Result.ok();`
  unfoldable pub crown_if : ℕ → Auction → ℕ → Option ℕ → Option ℕ → M W (Unit {0})
  crown_if auction_id a rank (some user) (some (suc n)) = crown auction_id a rank user (suc n)
  crown_if auction_id a rank (some user) (some zero) = return tt
  crown_if auction_id a rank (some user) none = return tt
  crown_if auction_id a rank none amount = return tt

  -- From the fallback winner on.
  unfoldable pub settle_fallback : ℕ → Auction → FallbackWinner → M W (Unit {0})
  settle_fallback auction_id a f =
      if f.is_fallback_failed
      then (do saved ← create_and_save p (given_up a); return tt)
      else crown_if auction_id a f.rank f.winner_id f.win_amount

  -- `ProcessAuctionWinnerFallbackUsecase.execute`.
  unfoldable pub process_winner_fallback : ℕ → ℕ → M W (Unit {0})
  process_winner_fallback auction_id declined = do
    found ← p.auctions.find_by_id auction_id
    a ← require found auction_not_found
    if not (is_ended a.status)
        then return tt
        else if not (is_id a.winner_id declined)
        then return tt
        else (do
          p.payments.decline_all_pending_for_auction_user auction_id declined
          f ← get_fallback_winner p auction_id
          settle_fallback auction_id a f)

  -- The block of `try` of `ProcessFallbackPublicNotificationUsecase.execute`.
  unfoldable pub offer_publicly : ℕ → M W (Unit {0})
  offer_publicly auction_id = do
    row ← attempt (p.auctions.find_by_id auction_id)
    found ← value_of row
    a ← require found auction_not_found
    throw_if (not (is_fallback_ended a.status))
    winners ← p.winners.find_all_by_auction_id auction_id
    a' ← settle (set_status fallback_public_notification a)
    id ← gives p.runtime.generate_id
    now ← gets p.runtime.now
    stored ← p.public_fallbacks.save (offer_row id a auction_id now)
    saved ← p.auctions.save a'
    participants ← p.participants.find_by_auction_id auction_id
    notify_each (has_won winners) (another_chance a.title) (checkout_room a.title) participants

  -- `ProcessFallbackPublicNotificationUsecase.execute`.
  unfoldable pub process_public_notification : ℕ → M W (Unit {0})
  process_public_notification auction_id = or_catch (offer_publicly auction_id) unexpected_error
