-- ===== src/Creation/Updates.antt =====
-- How a draft is changed: src/application/usecases/auction/updateAuction.usecase.ts. The policies of
-- the creation are not asked.
use auction_platform_backend.Prelude.{
  ℕ, ◌≡◌, refl, true, false, Option, none, some, List, [], ◌∷◌, not, ◌==◌, arith,
}
use Prim.Native.String.{String}
use auction_platform_backend.Outcome.{
  ok, M, settle, gives, require, fail_if, ◌>>=◌, ◌>>◌, auction_not_found, not_authorized_to_update,
  only_draft_can_be_updated, category_not_found,
}
use auction_platform_backend.Auction.{
  Auction, AuctionType, AuctionAsset, AuctionStatus, draft, is_draft, create,
}
use auction_platform_backend.Auction.Category.{AuctionCategory, is_approved}
use auction_platform_backend.Services.{Platform}
use auction_platform_backend.Ending.{validate_pricing}
use auction_platform_backend.Creation.{InputAsset, DraftServices, make_assets}
use auction_platform_backend.Creation.Drafts.{made_of}

pub record AuctionUpdate : Type 0 where
  pub auction_id : ℕ
  pub user_id : ℕ
  pub auction_type : Option AuctionType
  pub title : String
  pub description : String
  pub category_id : ℕ
  pub condition : String
  pub start_price : ℕ
  pub min_increment : ℕ
  pub start_at : ℕ
  pub end_at : ℕ
  pub anti_snip_seconds : Option ℕ
  pub max_extension_count : Option ℕ
  pub bid_cooldown_seconds : Option ℕ
  pub assets : List InputAsset

-- `a ?? b`
abbrev or_else : {A : Type 0} → Option A → A → A
or_else none b = b
or_else (some a) b = a

-- The auction that is saved: the win amount is not passed on.
unfoldable pub revised : Auction → AuctionUpdate → AuctionCategory → List AuctionAsset → Auction
revised a u category assets = record a {
  auction_type = or_else u.auction_type a.auction_type;
  title = u.title;
  description = u.description;
  category = category;
  condition = u.condition;
  start_price = u.start_price;
  min_increment = u.min_increment;
  start_at = u.start_at;
  end_at = u.end_at;
  status = draft;
  anti_snip_seconds = or_else u.anti_snip_seconds a.anti_snip_seconds;
  max_extension_count = or_else u.max_extension_count a.max_extension_count;
  bid_cooldown_seconds = or_else u.bid_cooldown_seconds a.bid_cooldown_seconds;
  win_amount = none;
  assets = assets;
}

module _ {W : Type 0} (p : Platform W) (s : DraftServices W) where
  -- New assets replace those of the auction, if there are any.
  unfoldable pub chosen_assets : Auction → List InputAsset → W → List AuctionAsset × W
  chosen_assets a [] w = (a.assets, w)
  chosen_assets a (x ∷ xs) w = make_assets p s a.id 0 (x ∷ xs) w

  -- `UpdateAuctionUsecase.execute`. The test of the prices reads two fields of the new auction.
  unfoldable pub update_auction : AuctionUpdate → M W Auction
  update_auction u = do
    found ← p.auctions.find_by_id u.auction_id
    a ← require found auction_not_found
    fail_if (not (a.seller_id == u.user_id)) not_authorized_to_update
    fail_if (not (is_draft a.status)) only_draft_can_be_updated
    row ← s.find_category u.category_id
    category ← require row category_not_found
    assets ← gives (chosen_assets a u.assets)
    validate_pricing p (revised a u category assets)
    a' ← settle (create (revised a u category assets))
    p.auctions.save a'

-- What a change may do to an auction: it was a draft of the caller, and it is one.
pub record IsRevision (u : AuctionUpdate) (a b : Auction) : Type 0 where
  pub was_draft : a.status ≡ draft
  pub is_draft_still : b.status ≡ draft
  pub callers : a.seller_id ≡ u.user_id
  pub same_seller : b.seller_id ≡ a.seller_id
  pub same_id : b.id ≡ a.id
  pub same_number : b.auction_number ≡ a.auction_number
  pub same_extensions : b.extension_count ≡ a.extension_count
  pub same_winner : b.winner_id ≡ a.winner_id
  pub new_price : b.start_price ≡ u.start_price
  pub new_end : b.end_at ≡ u.end_at
  pub approved : is_approved b.category.status ≡ true

draft_of : (t : AuctionStatus) → not (is_draft t) ≡ false → t ≡ draft
draft_of t e = ground arith

pub revised-IsRevision :
    (u : AuctionUpdate) (a b : Auction) (c : AuctionCategory) (assets : List AuctionAsset)
    → not (a.seller_id == u.user_id) ≡ false
    → not (is_draft a.status) ≡ false
    → create (revised a u c assets) ≡ ok b
    → IsRevision u a b
unfolding revised
revised-IsRevision u a b c assets mine open' h =
    let (e, good) = made_of (revised a u c assets) b h in
    rw e (record {
      was_draft = draft_of a.status open';
      is_draft_still = refl;
      callers = ground arith;
      same_seller = refl;
      same_id = refl;
      same_number = refl;
      same_extensions = refl;
      same_winner = refl;
      new_price = refl;
      new_end = refl;
      approved = good;
    })
