-- ===== src/Auction/Category.antt =====
-- src/domain/entities/auction/auction-category.entity.ts, without the name of the user who submitted
-- the category, which only lists show.
use auction_platform_backend.Prelude.{ℕ, Bool, true, false, Option, none, some, not, if◌then◌else◌}
use Prim.Native.String.{String}
use auction_platform_backend.Outcome.{Result, ok, fail, category_not_approved, category_not_pending}

pub data AuctionCategoryStatus : Type 0 where
  pending approved rejected : AuctionCategoryStatus

pub record AuctionCategory : Type 0 where
  pub id : ℕ
  pub name : String
  pub slug : String
  pub parent_id : Option ℕ
  pub is_verified : Bool
  pub is_active : Bool
  pub status : AuctionCategoryStatus
  pub submitted_by : ℕ
  pub rejection_reason : Option String

-- `AuctionCategory.create` with its defaults, which never fails.
unfoldable pub pending_category : ℕ → String → String → Option ℕ → ℕ → AuctionCategory
pending_category id name slug parent user = record {
  id = id;
  name = name;
  slug = slug;
  parent_id = parent;
  is_verified = false;
  is_active = true;
  status = pending;
  submitted_by = user;
  rejection_reason = none;
}

abbrev pub is_approved : AuctionCategoryStatus → Bool
is_approved approved = true
is_approved _ = false

abbrev pub is_pending : AuctionCategoryStatus → Bool
is_pending pending = true
is_pending _ = false

unfoldable pub approve : AuctionCategory → Result AuctionCategory
approve c =
    if not (is_pending c.status)
    then fail category_not_pending
    else ok (record c { status = approved })

unfoldable pub verify : AuctionCategory → Result AuctionCategory
verify c =
    if not (is_approved c.status)
    then fail category_not_approved
    else ok (record c { is_verified = true })

unfoldable pub reject : String → AuctionCategory → Result AuctionCategory
reject reason c =
    if not (is_pending c.status)
    then fail category_not_pending
    else ok (record c { status = rejected; rejection_reason = some reason })

unfoldable pub change_active_status : Bool → AuctionCategory → AuctionCategory
change_active_status active c = record c { is_active = active }

unfoldable pub set_name : String → AuctionCategory → AuctionCategory
set_name name c = record c { name = name }

unfoldable pub set_parent_id : Option ℕ → AuctionCategory → AuctionCategory
set_parent_id parent c = record c { parent_id = parent }
