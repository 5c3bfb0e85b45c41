-- ===== src/Tests/Winner.antt =====
-- Winners at concrete inputs.
use auction_platform_backend.Prelude.{
  ℕ, ◌≡◌, refl, ◌⊎◌, Bool, none, some, List, [], ◌∷◌, All, Member,
}
use auction_platform_backend.Outcome.{ok}
use auction_platform_backend.Auction.Bid.{Bid, AuctionWinner, AuctionWinnerStatus}
use auction_platform_backend.Winner.{
  WinnerResult, FallbackWinner, long_winner, sealed_winner, sealed_winner_from, sealed_step,
  no_winner, resolve_winner, resolve_auction_winner, eligible_bids, max_bid,
}
use auction_platform_backend.Winner.Highest.{
  IsHighest, IsCovered, IsWonBy, long_winner-IsHighest, sealed_winner-Highest,
}
use auction_platform_backend.Winner.Fallback.{IsNext, resolve_winner-IsNext}
use auction_platform_backend.Tests.Memory.{memory}
use auction_platform_backend.Tests.Samples.{offer, atlas}

abbrev open_bids : List Bid
open_bids = offer 2 600 1500 ∷ offer 3 640 1700 ∷ offer 1 500 1200 ∷ []

long_winner-IsHighest_example : IsHighest open_bids (long_winner open_bids)
long_winner-IsHighest_example = long_winner-IsHighest open_bids

abbrev envelope : ℕ → ℕ → Bid
envelope user n = record {
  id = user;
  auction_id = 7;
  user_id = user;
  created_at = 1500;
  amount = none;
  encrypted_amount = some n;
}

abbrev sealed_bids : List Bid
sealed_bids = envelope 2 600 ∷ envelope 3 640 ∷ []

abbrev third_wins : WinnerResult
third_wins = record { winner_id = some 3; win_amount = 640 }

sealed_run : sealed_winner memory.encryption sealed_bids ≡ ok third_wins
unfolding sealed_winner sealed_winner_from sealed_step
sealed_run = refl

sealed_winner-Highest_example :
    All (IsCovered memory.encryption third_wins) sealed_bids
    × ((third_wins ≡ no_winner)
        ⊎ ((x : Bid) × Member x sealed_bids × IsWonBy memory.encryption third_wins x))
sealed_winner-Highest_example =
    sealed_winner-Highest memory.encryption sealed_bids third_wins sealed_run

-- User 3 has won before and has not paid.
abbrev defaulter : AuctionWinner
defaulter = record {
  id = 1;
  auction_id = 7;
  user_id = 3;
  amount = 640;
  rank = 1;
  status = AuctionWinnerStatus.pending;
  rejection_reason = none;
}

abbrev second_next : FallbackWinner
second_next = record {
  winner_id = some 2;
  win_amount = some 600;
  rank = 2;
  is_fallback_failed = Bool.false;
}

next_run :
    resolve_winner memory.encryption (some atlas) 2 (eligible_bids (defaulter ∷ []) open_bids)
    ≡ ok second_next
unfolding resolve_winner resolve_auction_winner max_bid
next_run = refl

resolve_winner-IsNext_example : IsNext (defaulter ∷ []) open_bids 2 second_next
resolve_winner-IsNext_example =
    resolve_winner-IsNext memory.encryption (some atlas) (defaulter ∷ []) open_bids 2 second_next
      next_run
