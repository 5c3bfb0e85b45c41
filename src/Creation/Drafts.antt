-- ===== src/Creation/Drafts.antt =====
-- What a draft adds to the stored auctions: createAuction.usecase.ts.
use auction_platform_backend.Prelude.{ℕ, ◌≤◌, ◌≡◌, refl, true, none, List, arith}
use Prim.Native.String.{String}
use auction_platform_backend.Outcome.{ok}
use auction_platform_backend.Auction.{
  Auction, AuctionType, long, live, sealed, AuctionAsset, draft, create,
}
use auction_platform_backend.Auction.Category.{AuctionCategory, is_approved}
use auction_platform_backend.Creation.{
  AuctionInput, live_policy, long_policy, sealed_policy, validate, drafted,
}

-- The rules of a kind of auction for the least price, the steps between bids and the extensions.
pub Allows : AuctionType → ℕ → ℕ → ℕ → Type 0
Allows long price step extensions = (1 ≤ step) × (extensions ≤ 10)
Allows live price step extensions = (500 ≤ price) × (1 ≤ step) × (extensions ≤ 10)
Allows sealed price step extensions = (step ≡ 0) × (extensions ≡ 0)

-- An auction as a request may draft it.
pub record IsDraftOf (d : AuctionInput) (a : Auction) : Type 0 where
  pub is_draft : a.status ≡ draft
  pub is_sellers : a.seller_id ≡ d.user_id
  pub same_type : a.auction_type ≡ d.auction_type
  pub same_price : a.start_price ≡ d.start_price
  pub same_end : a.end_at ≡ d.end_at
  pub approved : is_approved a.category.status ≡ true
  pub no_winner : a.winner_id ≡ none
  pub not_extended : a.extension_count ≡ 0
  pub allowed : Allows a.auction_type a.start_price a.min_increment a.max_extension_count

-- What a policy leaves of a request.
abbrev pub Validated : AuctionInput → AuctionInput → Type 0
Validated d d' =
    (d'.user_id ≡ d.user_id)
    × (d'.auction_type ≡ d.auction_type)
    × (d'.start_price ≡ d.start_price)
    × (d'.end_at ≡ d.end_at)
    × Allows d.auction_type d'.start_price d'.min_increment d'.max_extension_count

long_valid :
    (d d' : AuctionInput)
    → long_policy d ≡ ok d'
    → (d' ≡ d) × Allows long d.start_price d.min_increment d.max_extension_count
unfolding long_policy Allows
long_valid d d' h = ground arith

live_valid :
    (d d' : AuctionInput)
    → live_policy d ≡ ok d'
    → (d' ≡ d) × Allows live d.start_price d.min_increment d.max_extension_count
unfolding live_policy Allows
live_valid d d' h = ground arith

sealed_valid :
    (d d' : AuctionInput)
    → sealed_policy d ≡ ok d'
    → d' ≡ record d {
      min_increment = 0;
      anti_snip_seconds = 0;
      max_extension_count = 0;
      bid_cooldown_seconds = 0;
    }
unfolding sealed_policy
sealed_valid d d' h = ground arith

valid_of :
    (d d' : AuctionInput) (t : AuctionType)
    → d.auction_type ≡ t
    → elim t [ long ↦ long_policy d | sealed ↦ sealed_policy d | live ↦ live_policy d ] ≡ ok d'
    → Validated d d'
unfolding sealed_policy Allows
valid_of d d' long e h =
    let (q, rules) = long_valid d d' h in rw q (refl, refl, refl, refl, rw e rules)
valid_of d d' live e h =
    let (q, rules) = live_valid d d' h in rw q (refl, refl, refl, refl, rw e rules)
valid_of d d' sealed e h = rw (sealed_valid d d' h) (refl, refl, refl, refl, rw e (refl, refl))

pub validate-Validated : (d d' : AuctionInput) → validate d ≡ ok d' → Validated d d'
unfolding validate
validate-Validated d d' h = valid_of d d' d.auction_type refl h

pub made_of :
    (a a' : Auction) → create a ≡ ok a' → (a' ≡ a) × (is_approved a.category.status ≡ true)
unfolding create
made_of a a' h = ground arith

pub drafted-IsDraftOf :
    (input d : AuctionInput) (a : Auction) (id : ℕ) (number : String) (c : AuctionCategory)
    (assets : List AuctionAsset)
    → Validated input d
    → create (drafted id number d c assets) ≡ ok a
    → IsDraftOf input a
drafted-IsDraftOf input d a id number c assets (user, type, price, last, rules) h =
    let (e, good) = made_of (drafted id number d c assets) a h in
    rw e (record {
      is_draft = refl;
      is_sellers = user;
      same_type = type;
      same_price = price;
      same_end = last;
      approved = good;
      no_winner = refl;
      not_extended = refl;
      allowed = rw type rules;
    })
