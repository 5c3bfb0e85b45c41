-- ===== src/Winner.antt =====
-- Who wins an auction: src/application/strategies/auction (long-auction-winner.strategy.ts,
-- sealed-auction-winner.strategy.ts, getFallBackAuctionWinnerStartegy.ts) and
-- src/application/factories/auction-winner-policy.factory.ts.
pub mod Highest
pub mod Fallback
use auction_platform_backend.Prelude.{
  ℕ, ◌+◌, Bool, true, false, Option, none, some, List, [], ◌∷◌, not, ltb, leb, ◌==◌, any, filter,
  length, if◌then◌else◌,
}
use auction_platform_backend.Outcome.{
  Result, ok, fail, done, failed, thrown, M, return, settle, attempt, give_up, require, ◌>>=◌, ◌>>◌,
  invalid_sealed_amount, auction_not_found,
}
use auction_platform_backend.Auction.{Auction, AuctionType, long, live, sealed, is_sealed}
use auction_platform_backend.Auction.Bid.{Bid, AuctionWinner, get_amount}
use auction_platform_backend.Services.{Platform, EncryptionService}

-- `IAuctionWinnerResult`.
pub record WinnerResult : Type 0 where
  pub winner_id : Option ℕ
  pub win_amount : ℕ

abbrev pub no_winner : WinnerResult
no_winner = record { winner_id = none; win_amount = 0 }

-- `bids.reduce((maxBid, bid) => bid.getAmount() > maxBid.getAmount() ? bid : maxBid, first)`
unfoldable pub max_bid : Bid → List Bid → Bid
max_bid best [] = best
max_bid best (b ∷ bs) = max_bid (if ltb (get_amount best) (get_amount b) then b else best) bs

-- `LongAuctionWinnerStrategy`, on the bids that it reads.
unfoldable pub long_winner : List Bid → WinnerResult
long_winner [] = no_winner
long_winner (b ∷ bs) = record {
  winner_id = some (max_bid b (b ∷ bs)).user_id;
  win_amount = get_amount (max_bid b (b ∷ bs));
}

-- `Number(decrypted.getValue())`, which must be finite.
abbrev pub finite : Option ℕ → Result ℕ
finite none = fail invalid_sealed_amount
finite (some n) = ok n

abbrev pub decrypt_amount : EncryptionService → ℕ → Result ℕ
decrypt_amount enc c = elim (enc.decrypt c) [ ok text ↦ finite text | fail e ↦ fail e ]

-- The better of the result so far and an amount of a user: only a greater amount counts.
abbrev pub better : WinnerResult → ℕ → ℕ → WinnerResult
better best user n =
    if ltb best.win_amount n then record { winner_id = some user; win_amount = n } else best

-- One turn of the loop, with the amount decrypted.
abbrev pub step_of : WinnerResult → ℕ → Result ℕ → Result WinnerResult
step_of best user (ok n) = ok (better best user n)
step_of best user (fail e) = fail e

-- One turn of the loop over sealed bids: a bid without a cipher is skipped.
unfoldable pub sealed_step : EncryptionService → WinnerResult → ℕ → Option ℕ → Result WinnerResult
sealed_step enc best user none = ok best
sealed_step enc best user (some c) = step_of best user (decrypt_amount enc c)

-- The loop over sealed bids, from `maxBidAmount` and `winnerId`.
unfoldable pub sealed_winner_from :
    EncryptionService → WinnerResult → List Bid → Result WinnerResult
unfolding sealed_step
sealed_winner_from enc best [] = ok best
sealed_winner_from enc best (b ∷ bs) = elim (sealed_step enc best b.user_id b.encrypted_amount) [
  | ok next ↦ sealed_winner_from enc next bs
  | fail e ↦ fail e
]

-- `SealedAuctionWinnerStrategy`, on the bids that it reads.
unfoldable pub sealed_winner : EncryptionService → List Bid → Result WinnerResult
unfolding sealed_winner_from
sealed_winner enc bs = sealed_winner_from enc no_winner bs

-- `IGetFallBackAuctionWinnerOutput`.
pub record FallbackWinner : Type 0 where
  pub winner_id : Option ℕ
  pub win_amount : Option ℕ
  pub rank : ℕ
  pub is_fallback_failed : Bool

abbrev pub nobody : Bool → FallbackWinner
nobody lost = record { winner_id = none; win_amount = none; rank = 0; is_fallback_failed = lost }

-- `allAuctionWinners.some((winner) => winner.getUserId() === userId)`
abbrev pub has_won : List AuctionWinner → ℕ → Bool
has_won ws user = any (λ w. w.user_id == user) ws

-- The bids of users who have not won before.
abbrev pub eligible_bids : List AuctionWinner → List Bid → List Bid
eligible_bids ws bs = filter (λ b. not (has_won ws b.user_id)) bs

-- `resolveAuctionWinner`; it is called with a bid at least.
unfoldable pub resolve_auction_winner : ℕ → List Bid → FallbackWinner
resolve_auction_winner rank [] = nobody false
resolve_auction_winner rank (b ∷ bs) = record {
  winner_id = some (max_bid b (b ∷ bs)).user_id;
  win_amount = some (get_amount (max_bid b (b ∷ bs)));
  rank = rank;
  is_fallback_failed = false;
}

abbrev pub ranked : ℕ → WinnerResult → Option ℕ → FallbackWinner
ranked rank r none = nobody false
ranked rank r (some user) = record {
  winner_id = some user;
  win_amount = some r.win_amount;
  rank = rank;
  is_fallback_failed = false;
}

-- `resolveSealedWinner`.
unfoldable pub resolve_sealed_winner : EncryptionService → ℕ → List Bid → Result FallbackWinner
unfolding sealed_winner_from
resolve_sealed_winner enc rank bs = elim (sealed_winner_from enc no_winner bs) [
  | ok r ↦ ok (ranked rank r r.winner_id)
  | fail e ↦ fail e
]

-- From the eligible bids on; the auction is tested only here.
unfoldable pub resolve_winner :
    EncryptionService → Option Auction → ℕ → List Bid → Result FallbackWinner
unfolding resolve_auction_winner resolve_sealed_winner
resolve_winner enc found rank [] = ok (nobody false)
resolve_winner enc none rank (b ∷ bs) = fail auction_not_found
resolve_winner enc (some a) rank (b ∷ bs) =
    if is_sealed a.auction_type
    then resolve_sealed_winner enc rank (b ∷ bs)
    else ok (resolve_auction_winner rank (b ∷ bs))

-- `if (auctionResult.isFailure || winnersResult.isFailure) return
-- Result.fail(auctionResult.getError() || winnersResult.getError())`: `getError` throws on a
-- result that succeeded.
abbrev pub both : {W A B : Type 0} → Result A → Result B → M W (A × B)
both (ok a) (ok b) w = (done (a, b), w)
both (fail e) r w = (failed e, w)
both (ok a) (fail e) w = (thrown, w)

module _ {W : Type 0} (p : Platform W) where
  -- `AuctionWinnerStrategyFactory.getStrategy(type).validateAndGetWinner`.
  unfoldable pub validate_and_get_winner : Auction → M W WinnerResult
  validate_and_get_winner a = do
    bids ← p.bids.find_all_by_auction_id a.id
    if is_sealed a.auction_type
        then settle (sealed_winner p.encryption bids)
        else return (long_winner bids)

  -- `GetFallBackAuctionWinnerStartegy.execute`.
  unfoldable pub get_fallback_winner : ℕ → M W FallbackWinner
  get_fallback_winner auction_id = do
    max_rank ← p.config.auction_winner_fallback_max_rank
    found ← attempt (p.auctions.find_by_id auction_id)
    winners ← attempt (p.winners.find_all_by_auction_id auction_id)
    pair ← both found winners
    let ws = pair.1
    if leb max_rank (length ws)
        then return (nobody true)
        else if leb (length ws) 0
        then return (nobody false)
        else (do
          bids ← p.bids.find_all_by_auction_id auction_id
          settle (resolve_winner p.encryption pair.0 (length ws + 1) (eligible_bids ws bids)))
