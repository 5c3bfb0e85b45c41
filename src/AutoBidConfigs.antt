-- ===== src/AutoBidConfigs.antt =====
-- How a user sets up automatic bids: src/application/usecases/auction (createAutoBidConfig,
-- updateAutoBidConfig, disableAutoBidConfig).
pub mod Steps
use auction_platform_backend.Prelude.{ℕ, Bool, true, false, Option, none, some, not}
use auction_platform_backend.Outcome.{
  M, return, settle, gives, gets, require, fail_if, ◌>>=◌, ◌>>◌, auction_not_found,
  auto_bid_only_for_active, auto_bid_only_for_long, config_exists, config_not_found,
}
use auction_platform_backend.Auction.{Auction, is_active, is_long}
use auction_platform_backend.Auction.Bid.{
  AutoBidConfig, AutoBidStrategy, create_config, update_config, disable,
}
use auction_platform_backend.Services.{Platform}

-- The input of `createAutoBidConfig` and `updateAutoBidConfig`, without the user's name, which
-- neither reads.
pub record ConfigInput : Type 0 where
  pub auction_id : ℕ
  pub user_id : ℕ
  pub max_bid_amount : ℕ
  pub strategy : AutoBidStrategy

abbrev pub is_set : Option AutoBidConfig → Bool
is_set none = false
is_set (some c) = true

-- The argument of `AutoBidConfig.create`.
abbrev pub new_config : ℕ → ConfigInput → ℕ → AutoBidConfig
new_config id input now = record {
  id = id;
  user_id = input.user_id;
  auction_id = input.auction_id;
  max_bid_amount = input.max_bid_amount;
  strategy = input.strategy;
  is_active = true;
  created_at = now;
  updated_at = now;
}

module _ {W : Type 0} (p : Platform W) where
  -- `CreateAutoBidConfigUsecase.execute`; the output is read off the saved configuration.
  unfoldable pub create_auto_bid_config : ConfigInput → M W AutoBidConfig
  create_auto_bid_config input = do
    found ← p.auctions.find_by_id input.auction_id
    a ← require found auction_not_found
    fail_if (not (is_active a.status)) auto_bid_only_for_active
    fail_if (not (is_long a.auction_type)) auto_bid_only_for_long
    existing ← p.configs.find_by_user_and_auction input.user_id input.auction_id
    fail_if (is_set existing) config_exists
    id ← gives p.runtime.generate_id
    now ← gets p.runtime.now
    made ← settle (create_config (new_config id input now))
    p.configs.save made

  -- `UpdateAutoBidConfigUsecase.execute`.
  unfoldable pub update_auto_bid_config : ConfigInput → M W AutoBidConfig
  update_auto_bid_config input = do
    found ← p.auctions.find_by_id input.auction_id
    a ← require found auction_not_found
    fail_if (not (is_long a.auction_type)) auto_bid_only_for_long
    existing ← p.configs.find_by_user_and_auction input.user_id input.auction_id
    c ← require existing config_not_found
    now ← gets p.runtime.now
    p.configs.save (update_config input.strategy input.max_bid_amount true now c)

  -- The rest of `disableAutoBidConfig`.
  unfoldable pub disable_found : Option AutoBidConfig → M W (Option AutoBidConfig)
  disable_found none = return none
  disable_found (some c) = do
    now ← gets p.runtime.now
    saved ← p.configs.save (disable now c)
    return (some saved)

  -- `DisableAutoBidConfigUsecase.execute`.
  unfoldable pub disable_auto_bid_config : ℕ → ℕ → M W (Option AutoBidConfig)
  disable_auto_bid_config user_id auction_id = do
    existing ← p.configs.find_by_user_and_auction user_id auction_id
    disable_found existing
