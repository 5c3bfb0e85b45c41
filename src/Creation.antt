-- ===== src/Creation.antt =====
-- How an auction is drafted: src/application/usecases/auction/createAuction.usecase.ts and the
-- creation policies of src/domain/policies/auction. The limit on extensions is a natural number, as
-- the schema of the request demands, so the tests for a negative one are left out.
pub mod Drafts
pub mod Stored
pub mod Updates
pub mod Revisions
use auction_platform_backend.Prelude.{
  ℕ, ◌+◌, Bool, true, false, Option, none, some, List, [], ◌∷◌, not, ltb, map, if◌then◌else◌,
}
use Prim.Native.String.{String}
use auction_platform_backend.Outcome.{
  Result, ok, fail, M, return, settle, gives, require, fail_if, ◌>>=◌, ◌>>◌, start_price_below_500,
  increment_below_one, extension_count_above_10, start_too_far_from_end, auction_limit_reached,
  category_not_found,
}
use auction_platform_backend.Auction.{
  Auction, AuctionType, long, live, sealed, AuctionAsset, AuctionAssetType, image, draft, create,
}
use auction_platform_backend.Auction.Category.{AuctionCategory}
use auction_platform_backend.Services.{Platform}
use auction_platform_backend.Ending.{validate_pricing}

pub record InputAsset : Type 0 where
  pub file_key : String
  pub position : Option ℕ
  pub asset_type : Option AuctionAssetType

pub record AuctionInput : Type 0 where
  pub user_id : ℕ
  pub auction_type : AuctionType
  pub title : String
  pub description : String
  pub category_id : ℕ
  pub condition : String
  pub start_price : ℕ
  pub min_increment : ℕ
  pub start_at : ℕ
  pub end_at : ℕ
  pub anti_snip_seconds : ℕ
  pub max_extension_count : ℕ
  pub bid_cooldown_seconds : ℕ
  pub assets : List InputAsset

abbrev pub without_position : InputAsset → InputAsset
without_position a = record a { position = none }

-- `toCreateAuctionDto`, which leaves the positions out.
abbrev pub to_create_dto : AuctionInput → AuctionInput
to_create_dto d = record d { assets = map without_position d.assets }

abbrev pub ms_per_day : ℕ
ms_per_day = 86400000

-- `startAt - endAt > 24 h`, over the integers.
unfoldable pub live_policy : AuctionInput → Result AuctionInput
live_policy d =
    if ltb d.start_price 500
    then fail start_price_below_500
    else if ltb d.min_increment 1
    then fail increment_below_one
    else if ltb 10 d.max_extension_count
    then fail extension_count_above_10
    else if ltb (d.end_at + ms_per_day) d.start_at
    then fail start_too_far_from_end
    else ok d

unfoldable pub long_policy : AuctionInput → Result AuctionInput
long_policy d =
    if ltb d.min_increment 1
    then fail increment_below_one
    else if ltb 10 d.max_extension_count
    then fail extension_count_above_10
    else ok d

unfoldable pub sealed_policy : AuctionInput → Result AuctionInput
sealed_policy d = ok (record d {
  min_increment = 0;
  anti_snip_seconds = 0;
  max_extension_count = 0;
  bid_cooldown_seconds = 0;
})

-- `AuctionCreatePolicyFactory.validate`.
unfoldable pub validate : AuctionInput → Result AuctionInput
unfolding live_policy long_policy sealed_policy
validate d = elim d.auction_type [
  | long ↦ long_policy d
  | sealed ↦ sealed_policy d
  | live ↦ live_policy d
]

abbrev pub or_image : Option AuctionAssetType → AuctionAssetType
or_image none = image
or_image (some t) = t

abbrev pub or_index : ℕ → Option ℕ → ℕ
or_index i none = i
or_index i (some n) = n

-- The auction that is saved.
abbrev pub drafted : ℕ → String → AuctionInput → AuctionCategory → List AuctionAsset → Auction
drafted id number d category assets = record {
  id = id;
  auction_number = number;
  seller_id = d.user_id;
  auction_type = d.auction_type;
  title = d.title;
  description = d.description;
  category = category;
  condition = d.condition;
  start_price = d.start_price;
  min_increment = d.min_increment;
  start_at = d.start_at;
  end_at = d.end_at;
  status = draft;
  anti_snip_seconds = d.anti_snip_seconds;
  extension_count = 0;
  max_extension_count = d.max_extension_count;
  bid_cooldown_seconds = d.bid_cooldown_seconds;
  winner_id = none;
  win_amount = none;
  assets = assets;
}

-- What the use case takes beside the platform: `canCreateAuction` of the plans,
-- `IAuctionCategoryRepository` and `IAuctionNumberGeneratingService`.
pub record DraftServices (W : Type 0) : Type 0 where
  pub can_create_auction : ℕ → M W Bool
  pub find_category : ℕ → M W (Option AuctionCategory)
  pub generate_auction_number : W → String × W

module _ {W : Type 0} (p : Platform W) (s : DraftServices W) where
  -- The assets, each with an identifier of its own, from a position on.
  unfoldable pub make_assets : ℕ → ℕ → List InputAsset → W → List AuctionAsset × W
  make_assets auction i [] w = ([], w)
  make_assets auction i (x ∷ xs) w =
      let (id, w1) = p.runtime.generate_id w in
      let (rest, w2) = make_assets auction (i + 1) xs w1 in
      (
        record {
          id = id;
          auction_id = auction;
          file_key = x.file_key;
          position = or_index i x.position;
          asset_type = or_image x.asset_type;
        }
            ∷ rest,
        w2,
      )

  -- `CreateAuctionUsecase.execute`, which gives what `toAuctionOutputDto` reads of the saved auction.
  -- The test of the prices reads two fields of the draft, which are those of the request.
  unfoldable pub create_auction : AuctionInput → M W Auction
  create_auction input = do
    d ← settle (validate (to_create_dto input))
    may ← s.can_create_auction d.user_id
    fail_if (not may) auction_limit_reached
    found ← s.find_category d.category_id
    category ← require found category_not_found
    id ← gives p.runtime.generate_id
    number ← gives s.generate_auction_number
    assets ← gives (make_assets id 0 d.assets)
    validate_pricing p (drafted id number d category assets)
    a ← settle (create (drafted id number d category assets))
    p.auctions.save a
