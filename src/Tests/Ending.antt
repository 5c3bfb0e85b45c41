-- ===== src/Tests/Ending.antt =====
-- The life of an auction at concrete inputs.
use auction_platform_backend.Prelude.{
  ◌≡◌, refl, ◌⊎◌, inl, inr, Bool, true, false, none, some, [], ◌∷◌, ◌==◌, arith, if◌then◌else◌,
}
use auction_platform_backend.Outcome.{done}
use auction_platform_backend.Auction.{Auction, AuctionStatus, ended}
use auction_platform_backend.Services.{Platform}
use auction_platform_backend.Ending.{OwnerInput}
use auction_platform_backend.Ending.Status.{Move, StatusLaws}
use auction_platform_backend.Fallback.Calm.{CalmLaws}
use auction_platform_backend.Life.{
  publish_it, pause_it, resume_it, end_it, expire_all, fall_to_next, run, run_all, is_over,
  run-Move, run_all-is_over,
}
use auction_platform_backend.Tests.Memory.{World, memory}
use auction_platform_backend.Tests.Samples.{evening, atlas}

-- The memory with a table of auctions that holds auction 7 only.
abbrev life_memory : Platform World
life_memory = record memory {
  auctions = record {
    find_by_id = λ i w. (done (if w.stored.id == i then some w.stored else none), w);
    save = λ a w. (done a, if a.id == 7 then record w { stored = a } else w);
    find_overdue_active_auctions = λ n now w. (done (w.stored ∷ []), w);
  };
}

abbrev status_view : World → AuctionStatus
status_view w = w.stored.status

saves :
    (a : Auction) (w : World) (t : Bool)
    → (a.id == 7) ≡ t
    → (status_view (if t then record w { stored = a } else w) ≡ status_view w)
      ⊎ ((a.id ≡ 7) × (status_view (if t then record w { stored = a } else w) ≡ a.status))
saves a w true e = inr (ground arith, refl)
saves a w false e = inl refl

life_memory-StatusLaws : StatusLaws life_memory status_view 7
life_memory-StatusLaws = record {
  id_keeps = λ w. refl;
  find_keeps = λ i w. refl;
  bids_keep = λ i w. refl;
  winner_keeps = λ x w. refl;
  min_keeps = λ w. refl;
  max_keeps = λ w. refl;
  publish_keeps = λ e w. refl;
  size_keeps = λ w. refl;
  overdue_keeps = λ n t w. refl;
  overdue_law = λ n t w. ((λ i. refl), tt);
  found_law = λ i w a e j. ground arith;
  save_law = λ a w. saves a w (a.id == 7) refl;
}

life_memory-CalmLaws : CalmLaws life_memory status_view 7
life_memory-CalmLaws = record {
  id_calm = λ w. refl;
  bids_calm = λ i w. refl;
  find_calm = λ i w. refl;
  winners_calm = λ i w. refl;
  participants_calm = λ i w. refl;
  rank_calm = λ w. refl;
  ratio_calm = λ w. refl;
  deposit_calm = λ w. refl;
  balance_calm = λ w. refl;
  find_payment_calm = λ i u f w. refl;
  create_payment_calm = λ x w. refl;
  decline_calm = λ i u w. refl;
  notice_calm = λ n w. refl;
  notified_calm = λ n w. refl;
  offer_calm = λ x w. refl;
}

abbrev seller : OwnerInput
seller = record { auction_id = 7; user_id = 9; is_admin = false }

run-Move_example :
    Move (status_view evening) (status_view (run life_memory (end_it seller) evening))
run-Move_example =
    run-Move life_memory status_view 7 life_memory-StatusLaws life_memory-CalmLaws (end_it seller)
      evening

-- The evening after the auction has ended.
abbrev night : World
night = record evening { stored = record atlas { status = ended } }

run_all-is_over_example :
    is_over (
      status_view (
        run_all life_memory
          (fall_to_next 7 2 ∷ resume_it seller ∷ pause_it seller ∷ publish_it 7 9 ∷ expire_all ∷ [])
          night))
    ≡ true
run_all-is_over_example =
    run_all-is_over life_memory status_view 7 life_memory-StatusLaws life_memory-CalmLaws
      (fall_to_next 7 2 ∷ resume_it seller ∷ pause_it seller ∷ publish_it 7 9 ∷ expire_all ∷ [])
      night refl
