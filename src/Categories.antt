-- ===== src/Categories.antt =====
-- Categories of auctions: of src/application/usecases/admin createAuctionCategory,
-- approveAuctionCategory, rejectAuctionCategory, changeAuctionCategoryStatus and
-- updateAuctionCategory, and src/application/usecases/seller/requestAuctionCategory.usecase.ts. An
-- output carries the fields of the category, which is returned here. An empty parent is none.
pub mod Standing
pub mod Steps
pub mod Calls
use auction_platform_backend.Prelude.{ℕ, Bool, true, false, Option, none, some, if◌then◌else◌}
use Prim.Native.String.{String, [], ◌∷◌}
use auction_platform_backend.Outcome.{
  Result, ok, fail, M, return, settle, value_of, attempt, gives, require, fail_if, ◌>>=◌, ◌>>◌,
  category_exists, category_slug_empty, category_not_found,
}
use auction_platform_backend.Auction.Category.{
  AuctionCategory, AuctionCategoryStatus, approved, pending_category, approve, verify, reject,
  change_active_status, set_name, set_parent_id,
}
use auction_platform_backend.Users.Names.{trim}

-- `IAuctionCategoryRepository`, the supply of identifiers, and the library that makes slugs.
pub record CategoryPlatform (W : Type 0) : Type 0 where
  pub generate_id : W → ℕ × W
  pub slugify : String → String
  pub find_by_id : ℕ → M W (Option AuctionCategory)
  pub find_by_slug : String → M W (Option AuctionCategory)
  pub save : AuctionCategory → M W AuctionCategory

pub record CategoryInput : Type 0 where
  pub name : String
  pub parent_id : Option ℕ
  pub user_id : ℕ

abbrev pub is_empty : String → Bool
is_empty [] = true
is_empty (c ∷ s) = false

-- `AuctionCategorySlug.create`.
unfoldable pub create_slug : String → Result String
create_slug s = if is_empty (trim s) then fail category_slug_empty else ok (trim s)

abbrev pub is_found : Option AuctionCategory → Bool
is_found none = false
is_found (some c) = true

-- What an admin creates is approved at once.
unfoldable pub approved_category : ℕ → String → CategoryInput → AuctionCategory
unfolding pending_category
approved_category id slug input =
    record (pending_category id input.name slug input.parent_id input.user_id) {
      is_verified = true;
      status = approved;
    }

-- The category after a method that may refuse: a refusal leaves it.
abbrev pub after : AuctionCategory → Result AuctionCategory → AuctionCategory
after c (ok c') = c'
after c (fail e) = c

module _ {W : Type 0} (d : CategoryPlatform W) where
  open d use {generate_id, slugify, find_by_id, find_by_slug, save}

  -- `CreateAuctionCategoryUsecase.execute`.
  unfoldable pub create_category : CategoryInput → M W AuctionCategory
  create_category input = do
    slug ← settle (create_slug (slugify input.name))
    existing ← find_by_slug slug
    fail_if (is_found existing) category_exists
    id ← gives generate_id
    saved ← attempt (save (approved_category id slug input))
    return (approved_category id slug input)

  -- `RequestAuctionCategoryUsecase.execute`, which reads the value of a failed search.
  unfoldable pub request_category : CategoryInput → M W AuctionCategory
  request_category input = do
    slug ← settle (create_slug (slugify input.name))
    row ← attempt (find_by_slug slug)
    existing ← value_of row
    fail_if (is_found existing) category_exists
    id ← gives generate_id
    saved ← attempt (save (pending_category id input.name slug input.parent_id input.user_id))
    return (pending_category id input.name slug input.parent_id input.user_id)

  -- `ApproveAuctionCategoryUsecase.execute`: the failure of the second method is reported first.
  unfoldable pub approve_category : ℕ → M W AuctionCategory
  approve_category id = do
    found ← find_by_id id
    c ← require found category_not_found
    verified ← settle (verify (after c (approve c)))
    was_approved ← settle (approve c)
    saved ← attempt (save verified)
    return verified

  -- `RejectAuctionCategoryUsecase.execute`, which does not read what the entity answers.
  unfoldable pub reject_category : ℕ → String → M W AuctionCategory
  reject_category id reason = do
    found ← find_by_id id
    c ← require found category_not_found
    saved ← attempt (save (after c (reject reason c)))
    return (after c (reject reason c))

  -- `ChangeAuctionCategoryStatusUsecase.execute`.
  unfoldable pub change_category_status : ℕ → Bool → M W AuctionCategory
  change_category_status id active = do
    found ← find_by_id id
    c ← require found category_not_found
    saved ← attempt (save (change_active_status active c))
    return (change_active_status active c)

  -- `UpdateAuctionCategoryUsecase.execute`.
  unfoldable pub update_category : ℕ → String → Option ℕ → M W AuctionCategory
  update_category id name parent = do
    found ← find_by_id id
    c ← require found category_not_found
    saved ← attempt (save (set_parent_id parent (set_name name c)))
    return (set_parent_id parent (set_name name c))
