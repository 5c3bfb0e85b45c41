-- ===== src/Auction.antt =====
-- src/domain/entities/auction/auction.entity.ts. Identifiers are only compared, so they are
-- numbers; times are milliseconds; prices are whole units of the currency.
pub mod Category
pub mod Bid
use auction_platform_backend.Prelude.{
  ℕ, zero, suc, Bool, true, false, Option, none, some, List, ◌&&◌, not, ltb, if◌then◌else◌,
}
use Prim.Native.String.{String}
use auction_platform_backend.Outcome.{
  Result, ok, fail, category_not_approved, extension_count_exceeds_max, min_increment_too_low,
  already_ended, invalid_after_fallback, already_sold, win_amount_too_low,
}
use Category.{AuctionCategory, is_approved}

pub data AuctionStatus : Type 0 where
  draft active paused ended sold cancelled fallback_ended failed_auction : AuctionStatus
  fallback_public_notification : AuctionStatus

pub data AuctionType : Type 0 where
  long live sealed : AuctionType

pub data AuctionAssetType : Type 0 where
  image video : AuctionAssetType

pub record AuctionAsset : Type 0 where
  pub id : ℕ
  pub auction_id : ℕ
  pub file_key : String
  pub position : ℕ
  pub asset_type : AuctionAssetType

pub record Auction : Type 0 where
  pub id : ℕ
  pub auction_number : String
  pub seller_id : ℕ
  pub auction_type : AuctionType
  pub title : String
  pub description : String
  pub category : AuctionCategory
  pub condition : String
  pub start_price : ℕ
  pub min_increment : ℕ
  pub start_at : ℕ
  pub end_at : ℕ
  pub status : AuctionStatus
  pub anti_snip_seconds : ℕ
  pub extension_count : ℕ
  pub max_extension_count : ℕ
  pub bid_cooldown_seconds : ℕ
  pub winner_id : Option ℕ
  pub win_amount : Option ℕ
  pub assets : List AuctionAsset

abbrev pub is_long : AuctionType → Bool
is_long long = true
is_long _ = false

abbrev pub is_sealed : AuctionType → Bool
is_sealed sealed = true
is_sealed _ = false

abbrev pub is_active : AuctionStatus → Bool
is_active active = true
is_active _ = false

abbrev pub is_paused : AuctionStatus → Bool
is_paused paused = true
is_paused _ = false

abbrev pub is_ended : AuctionStatus → Bool
is_ended ended = true
is_ended _ = false

abbrev pub is_sold : AuctionStatus → Bool
is_sold sold = true
is_sold _ = false

abbrev pub is_draft : AuctionStatus → Bool
is_draft draft = true
is_draft _ = false

abbrev pub is_fallback_ended : AuctionStatus → Bool
is_fallback_ended fallback_ended = true
is_fallback_ended _ = false

-- `[FAILED, FALLBACK_PUBLIC_NOTIFICATION].includes(status)`
abbrev pub follows_fallback : AuctionStatus → Bool
follows_fallback failed_auction = true
follows_fallback fallback_public_notification = true
follows_fallback _ = false

-- `Auction.create`: the argument object has the fields of the record.
unfoldable pub create : Auction → Result Auction
create a =
    if not (is_approved a.category.status)
    then fail category_not_approved
    else if ltb a.max_extension_count a.extension_count
    then fail extension_count_exceeds_max
    else if is_long a.auction_type && ltb a.min_increment 1
    then fail min_increment_too_low
    else ok a

unfoldable pub set_status : AuctionStatus → Auction → Result Auction
set_status s a =
    if is_ended a.status && not (is_fallback_ended s)
    then fail already_ended
    else if is_fallback_ended a.status && not (follows_fallback s)
    then fail invalid_after_fallback
    else ok (record a { status = s })

unfoldable pub set_winner : ℕ → ℕ → Auction → Result Auction
set_winner user win a =
    if is_sold a.status
    then fail already_sold
    else if ltb win a.start_price
    then fail win_amount_too_low
    else ok (record a { winner_id = some user; win_amount = some win })
