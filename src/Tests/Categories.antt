-- ===== src/Tests/Categories.antt =====
-- Categories at concrete inputs: a table for one row, that with the identifier 5.
use Prim.Native.String.{String}
use auction_platform_backend.Prelude.{
  ℕ, ◌≡◌, refl, ◌⊎◌, inl, inr, Bool, true, false, Option, none, some, List, [], ◌∷◌, ◌==◌, arith,
  if◌then◌else◌,
}
use text.Mathlib.Text.{◌==◌ as str_eq}
use auction_platform_backend.Outcome.{done}
use auction_platform_backend.Auction.Category.{
  AuctionCategory, approved, pending_category, approve, verify, reject, change_active_status,
  set_name, set_parent_id,
}
use auction_platform_backend.Users.Names.{trim}
use auction_platform_backend.Categories.{
  CategoryPlatform, CategoryInput, create_slug, request_category, approve_category, reject_category,
  change_category_status, update_category,
}
use auction_platform_backend.Categories.Standing.{Follows}
use auction_platform_backend.Categories.Steps.{Tells, TableLaws}
use auction_platform_backend.Categories.Calls.{
  Call, request_it, approve_it, reject_it, change_it, update_it, run, run_all, run_all-Follows,
}

abbrev same_slug : String → Option AuctionCategory → Option AuctionCategory
same_slug s none = none
same_slug s (some c) = if str_eq c.slug s then some c else none

-- The first identifier is 5, and any later one 6.
abbrev free_id : Option AuctionCategory → ℕ
free_id none = 5
free_id (some c) = 6

abbrev table : CategoryPlatform (Option AuctionCategory)
table = record {
  generate_id = λ w. (free_id w, w);
  slugify = λ s. s;
  find_by_id = λ i w. (done (if i == 5 then w else none), w);
  find_by_slug = λ s w. (done (same_slug s w), w);
  save = λ c w. (done c, if c.id == 5 then some c else w);
}

abbrev row : Option AuctionCategory → Option AuctionCategory
row w = w

fresh_cases : (w : Option AuctionCategory) → free_id w ≡ 5 → w ≡ none
fresh_cases none e = refl
fresh_cases (some c) e = absurd (omega arith)

find_cases :
    (i : ℕ) (w : Option AuctionCategory) (b : Bool) → Tells table row 5 i w (if b then w else none)
find_cases i none true = tt
find_cases i (some c) true = λ e. refl
find_cases i w false = tt

save_cases :
    (c : AuctionCategory) (w : Option AuctionCategory) (b : Bool)
    → (c.id == 5) ≡ b
    → ((if b then some c else w) ≡ w) ⊎ ((c.id ≡ 5) × ((if b then some c else w) ≡ some c))
save_cases c w true e = inr (ground arith, refl)
save_cases c w false e = inl refl

table-TableLaws : TableLaws table row 5
table-TableLaws = record {
  id_keeps = λ w. refl;
  id_fresh = fresh_cases;
  slug_keeps = λ s w. refl;
  find_keeps = λ i w. refl;
  find_law = λ i w. find_cases i w (i == 5);
  save_law = λ c w. save_cases c w (c.id == 5) refl;
}

abbrev books : CategoryInput
books = record { name = "books"; parent_id = none; user_id = 3 }

abbrev calls : List Call
calls =
    request_it books
    ∷ request_it books
    ∷ approve_it 5
    ∷ reject_it 5 "dull"
    ∷ change_it 5 false
    ∷ update_it 5 "old books" (some 8)
    ∷ []

-- What the calls leave: approved, not active, under its first slug.
abbrev old_books : AuctionCategory
old_books = record {
  id = 5;
  name = "old books";
  slug = "books";
  parent_id = some 8;
  is_verified = true;
  is_active = false;
  status = approved;
  submitted_by = 3;
  rejection_reason = none;
}

run_all-old_books : run_all table calls none ≡ some old_books
unfolding run_all run request_category approve_category reject_category change_category_status
    update_category create_slug trim pending_category approve verify reject change_active_status
    set_name set_parent_id
run_all-old_books = refl

run_all-Follows_example : Follows none (run_all table calls none)
run_all-Follows_example = run_all-Follows table row 5 table-TableLaws calls none
