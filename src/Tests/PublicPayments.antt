-- ===== src/Tests/PublicPayments.antt =====
-- Public payments at concrete inputs.
use auction_platform_backend.Prelude.{ℕ, ◌==◌, if◌then◌else◌, refl, Option, none, some, []}
use auction_platform_backend.Outcome.{done}
use auction_platform_backend.Outcome.Verdict.{Verdict}
use auction_platform_backend.Auction.{Auction, fallback_public_notification}
use auction_platform_backend.Notice.{PublicFallbackAuction}
use auction_platform_backend.PublicPayments.{
  PublicPlatform, PublicParticipant, ParticipantStatus, ParticipantPayment, PublicInput,
  create_public_order,
}
use auction_platform_backend.PublicPayments.Sale.{Offered, Sale}
use auction_platform_backend.PublicPayments.Orders.{
  Any, OrderLaws, MayBuy, create_public_order-MayBuy,
}
use auction_platform_backend.Tests.Memory.{World, memory}
use auction_platform_backend.Tests.Samples.{evening, atlas, offer_of_atlas}

abbrev atlas_for_all : Auction
atlas_for_all = record atlas { status = fallback_public_notification }

abbrev joined : ℕ → PublicParticipant
joined user = record {
  id = 61;
  public_fallback_auction_id = 7;
  user_id = user;
  status = ParticipantStatus.pending;
  payment_status = ParticipantPayment.pending;
  created_at = 0;
}

-- The offer, if it is of the auction asked for.
abbrev offer_for : ℕ → PublicFallbackAuction → Option PublicFallbackAuction
offer_for i f = if f.auction_id == i then some f else none

abbrev market : PublicPlatform World
market = record {
  platform = memory;
  find_fallback = λ i w. (done (offer_for i w.offered), w);
  save_fallback = λ f w. (done f, record w { offered = f });
  find_participant = λ i u w. (done (some (joined u)), w);
  save_participant = λ x w. (done x, w);
  razorpay_order = λ u n r w. (done 62, w);
  initial_split_ratio = λ w. (done 2500, w);
  remaining_split_ratio = λ w. (done 7500, w);
}

-- The market loses no save.
abbrev due_view : World → Offered
due_view w = (w.offered.payment_status, 0)

abbrev sale_view : World → Sale
sale_view w = (w.stored.status, w.stored.winner_id)

-- The market with auction 7 open to all.
abbrev open_market : PublicPlatform World
open_market = record market {
  platform = record memory {
    auctions = record memory.auctions { find_by_id = λ i w. (done (some atlas_for_all), w) };
    winners = record memory.winners { find_all_by_auction_id = λ i w. (done [], w) };
  };
  find_fallback = λ i w. (done (some offer_of_atlas), w);
}

open_market-OrderLaws :
    OrderLaws open_market
      (λ i. some atlas_for_all)
      (λ i. [])
      (λ i. some offer_of_atlas)
      (λ i u. some (joined u))
      2500
open_market-OrderLaws = record {
  auction_law = λ i w. refl;
  winners_law = λ i w. refl;
  offer_law = λ i w. refl;
  participant_law = λ i u w. refl;
  ratio_law = λ w. refl;
}

abbrev wish : PublicInput
wish = record { auction_id = 7; user_id = 3 }

create_public_order-MayBuy_example :
    Verdict
      (MayBuy open_market
        (λ i. some atlas_for_all)
        (λ i. [])
        (λ i. some offer_of_atlas)
        (λ i u. some (joined u))
        2500
        wish)
      (Any open_market
        (λ i. some atlas_for_all)
        (λ i. [])
        (λ i. some offer_of_atlas)
        (λ i u. some (joined u))
        2500)
      (create_public_order open_market wish evening)
create_public_order-MayBuy_example =
    create_public_order-MayBuy open_market (λ i. some atlas_for_all) (λ i. [])
      (λ i. some offer_of_atlas) (λ i u. some (joined u)) 2500 wish evening open_market-OrderLaws
