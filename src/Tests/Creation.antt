-- ===== src/Tests/Creation.antt =====
-- The creation of an auction at a concrete input.
use auction_platform_backend.Prelude.{refl, true, none, some, List, [], ◌∷◌}
use auction_platform_backend.Outcome.{done}
use auction_platform_backend.Outcome.Post.{Post}
use auction_platform_backend.Auction.{Auction, long}
use auction_platform_backend.Services.{Platform}
use auction_platform_backend.Creation.{AuctionInput, DraftServices, create_auction}
use auction_platform_backend.Creation.Stored.{
  DraftLaws, IsDrafted, HasAtMost, create_auction-IsDrafted,
}
use auction_platform_backend.Prelude.{
  ℕ, ◌+◌, ◌≤◌, refl, any, map, Bool, false, ◌≡◌, ◌⊎◌, inl, inr, ◌==◌, arith, if◌then◌else◌,
}
use auction_platform_backend.Auction.{draft, create}
use auction_platform_backend.Creation.Updates.{
  AuctionUpdate, revised, chosen_assets, update_auction,
}
use auction_platform_backend.Ending.{validate_pricing}
use auction_platform_backend.Creation.Revisions.{RevisionLaws, Revises, update_auction-Revises}
use auction_platform_backend.Tests.Memory.{World, memory}
use auction_platform_backend.Tests.Samples.{evening, books}

-- The memory with a table of auctions on the shelf.
abbrev above : List Auction → ℕ
above [] = 1000
above (a ∷ rest) = a.id + above rest + 1

above-IsFresh : (n : ℕ) (s : List Auction) → above s ≤ n → any (λ a. a.id == n) s ≡ false
above-IsFresh n [] h = refl
above-IsFresh n (a ∷ rest) h = ground (arith, above-IsFresh n rest)

-- An auction in place of the row of its identifier, or as a new row.
abbrev upsert : Auction → List Auction → List Auction
upsert a s = if any (λ b. b.id == a.id) s then map (λ b. if b.id == a.id then a else b) s else a ∷ s

upsert-fresh :
    (a : Auction) (s : List Auction) → any (λ b. b.id == a.id) s ≡ false → upsert a s ≡ a ∷ s
upsert-fresh a s h = rw h refl

abbrev shelf_memory : Platform World
shelf_memory = record memory {
  runtime = record memory.runtime {
    generate_id = λ w. (above w.shelf + w.next_id, record w { next_id = w.next_id + 1 });
  };
  auctions = record {
    find_by_id = λ i w. (done none, w);
    save = λ a w. (done a, record w { shelf = upsert a w.shelf });
    find_overdue_active_auctions = λ n now w. (done [], w);
  };
}

abbrev desk : DraftServices World
desk = record {
  can_create_auction = λ u w. (done true, w);
  find_category = λ i w. (done (some books), w);
  generate_auction_number = λ w. ("A-8", w);
}

abbrev on_shelf : World → List Auction
on_shelf w = w.shelf

shelf_memory-DraftLaws : DraftLaws shelf_memory desk on_shelf 500 10
shelf_memory-DraftLaws = record {
  id_keeps = λ w. refl;
  fresh_law = λ w. above-IsFresh (above w.shelf + w.next_id) w.shelf (omega arith);
  number_keeps = λ w. refl;
  may_keeps = λ u w. refl;
  category_keeps = λ i w. refl;
  min_law = λ w. (refl, refl);
  max_law = λ w. (refl, refl);
  save_law = λ a w fresh. (refl, upsert-fresh a w.shelf fresh);
}

abbrev globe : AuctionInput
globe = record {
  user_id = 9;
  auction_type = long;
  title = "globe";
  description = "a globe";
  category_id = 1;
  condition = "new";
  start_price = 800;
  min_increment = 5;
  start_at = 1000;
  end_at = 90000;
  anti_snip_seconds = 30;
  max_extension_count = 2;
  bid_cooldown_seconds = 0;
  assets = record { file_key = "front"; position = some 4; asset_type = none } ∷ [];
}

create_auction-IsDrafted_example :
    Post
      (IsDrafted shelf_memory desk on_shelf 500 10 globe [])
      (HasAtMost shelf_memory desk on_shelf 500 10 globe [])
      (create_auction shelf_memory desk globe evening)
create_auction-IsDrafted_example =
    create_auction-IsDrafted shelf_memory desk on_shelf 500 10 shelf_memory-DraftLaws globe evening

-- The memory with one stored auction that may be changed.
abbrev put_stored : Auction → World → World
put_stored a w = if a.id == 7 then record w { stored = a } else w

abbrev one_auction : Platform World
one_auction = record memory {
  auctions = record {
    find_by_id = λ i w. (done (some w.stored), w);
    save = λ a w. (done a, put_stored a w);
    find_overdue_active_auctions = λ n now w. (done [], w);
  };
}

abbrev stored_view : World → Auction
stored_view w = w.stored

put_cases :
    (a : Auction) (w : World) (t : Bool)
    → (a.id == 7) ≡ t
    → ((if t then record w { stored = a } else w).stored ≡ w.stored)
      ⊎ ((a.id ≡ 7) × ((if t then record w { stored = a } else w).stored ≡ a))
put_cases a w true e = inr (ground arith, refl)
put_cases a w false e = inl refl

one_auction-RevisionLaws : RevisionLaws one_auction desk stored_view 7
one_auction-RevisionLaws = record {
  find_law = λ i w. (refl, λ a q j. cc);
  id_keeps = λ w. refl;
  category_keeps = λ i w. refl;
  min_keeps = λ w. refl;
  max_keeps = λ w. refl;
  save_law = λ a w. put_cases a w (a.id == 7) refl;
}

abbrev cheaper : AuctionUpdate
cheaper = record {
  auction_id = 7;
  user_id = evening.stored.seller_id;
  auction_type = none;
  title = "atlas";
  description = "an old atlas";
  category_id = 1;
  condition = "used";
  start_price = 700;
  min_increment = 5;
  start_at = 1000;
  end_at = 95000;
  anti_snip_seconds = none;
  max_extension_count = some 3;
  bid_cooldown_seconds = none;
  assets = [];
}

abbrev draft_evening : World
draft_evening = record evening { stored = record evening.stored { status = draft } }

update_auction-Revises_example :
    Revises one_auction desk stored_view 7 cheaper draft_evening.stored
      (update_auction one_auction desk cheaper draft_evening).1
update_auction-Revises_example =
    update_auction-Revises one_auction desk stored_view 7 one_auction-RevisionLaws cheaper
      draft_evening

-- The price is changed.
new_price : (update_auction one_auction desk cheaper draft_evening).1.stored.start_price ≡ 700
unfolding update_auction validate_pricing revised create chosen_assets
new_price = refl
