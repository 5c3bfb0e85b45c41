-- ===== src/AutoBid/Ends.antt =====
-- Late bids cannot prolong an auction for ever: the extensions of placeBid.usecase.ts and
-- autoBid.service.ts, one after the other.
use auction_platform_backend.Prelude.{
  ℕ, suc, ◌+◌, ◌-◌, ◌*◌, ◌≤◌, ◌<◌, ◌≡◌, ◌≢◌, ◌∙◌, ap, refl, List, [], ◌∷◌, Bool-cases, inl, inr,
  arith,
}
use auction_platform_backend.Outcome.{ok, Outcome, done, failed, thrown}
use auction_platform_backend.Outcome.Verdict.{Verdict}
use auction_platform_backend.Auction.{Auction, create}
use auction_platform_backend.Bidding.{
  BidRequest, can_place_bid, should_extend, remaining_ms, extended,
}
use auction_platform_backend.Bidding.Policy.{can_place_bid_sound, should_extend-extended}
use auction_platform_backend.Services.{Platform}
use auction_platform_backend.AutoBid.{extend_if_late}

-- The end of an auction once it has been prolonged as often as it may be.
abbrev pub last_end : Auction → ℕ
last_end a = a.end_at + (a.max_extension_count - a.extension_count) * (a.anti_snip_seconds * 1000)

extended-last_end :
    (a : Auction) → a.extension_count < a.max_extension_count → last_end (extended a) ≡ last_end a
unfolding extended
extended-last_end a h =
    let more : a.max_extension_count - a.extension_count
        ≡ suc (a.max_extension_count - (a.extension_count + 1)) =
      omega arith in
    rw more (grind arith)

counted_below :
    (a : Auction)
    → (extended a).extension_count ≤ a.max_extension_count
    → a.extension_count < a.max_extension_count
unfolding extended
counted_below a h = omega arith

abbrev auction_after : {W : Type 0} → Auction → Outcome Auction × W → Auction
auction_after a (done a', w) = a'
auction_after a (failed e, w) = a
auction_after a (thrown, w) = a

module _ {W : Type 0} (p : Platform W) where
  -- The auction after a bid in each of these worlds.
  unfoldable pub extend_all : List W → Auction → Auction
  extend_all [] a = a
  extend_all (w ∷ ws) a = extend_all ws (auction_after a (extend_if_late p a w))

  -- A save answers with what it saves.
  pub record SavedLaws : Type 0 where
    pub saved_law :
        (a : Auction) (w : W) → Verdict (λ a'. a' ≡ a) (λ e. Unit {0}) (p.auctions.save a w)

  module _ (laws : SavedLaws) where
    -- What an extension leaves of an auction that `Auction.create` accepts.
    abbrev SameLast : Auction → Auction → Type 0
    SameLast a a' = (create a' ≡ ok a') × (last_end a' ≡ last_end a)

    saved :
        (a : Auction) (r : Outcome Auction × W)
        → create a ≡ ok a
        → SameLast a (extended a)
        → Verdict (λ a'. a' ≡ extended a) (λ e. Unit {0}) r
        → SameLast a (auction_after a r)
    saved a (done a', w) c same e = rw e same
    saved a (failed e, w) c same t = (c, refl)
    saved a (thrown, w) c same t = (c, refl)

    extend_if_late-SameLast :
        (a : Auction) (w : W)
        → create a ≡ ok a
        → SameLast a (auction_after a (extend_if_late p a w))
    unfolding extend_if_late
    extend_if_late-SameLast a w c =
        elim (Bool-cases (should_extend a (remaining_ms a (p.runtime.now w)))) [
          | inr calm ↦ rw calm (c, refl)
          | inl late ↦
              let (long, before, within, later, counted, valid) =
                should_extend-extended a (p.runtime.now w) c late in
              rw (late, valid)
                (saved a (p.auctions.save (extended a) w) c
                  (valid, extended-last_end a (counted_below a counted))
                  (laws.saved_law (extended a) w))
        ]

    extend_all-SameLast :
        (ws : List W) (a : Auction) → create a ≡ ok a → SameLast a (extend_all ws a)
    unfolding extend_all
    extend_all-SameLast [] a c = (c, refl)
    extend_all-SameLast (w ∷ ws) a c =
        let (valid, same) = extend_if_late-SameLast a w c in
        let (valid', same') =
          extend_all-SameLast ws (auction_after a (extend_if_late p a w)) valid in
        (valid', same' ∙ same)

    -- If saves answer with what they save, then however many bids come late, an auction that
    -- Auction.create accepts ends at the latest one window after its end for each extension that it
    -- has left, and from then on canPlaceBid refuses every bid.
    pub extend_all-IsClosed :
        (ws : List W) (a : Auction) (r : BidRequest)
        → create a ≡ ok a
        → r.auction ≡ extend_all ws a
        → last_end a ≤ r.now
        → ((extend_all ws a).end_at ≤ last_end a) × (can_place_bid r ≢ ok tt)
    extend_all-IsClosed ws a r c e late =
        let (valid, same) = extend_all-SameLast ws a c in
        let bound : (extend_all ws a).end_at ≤ last_end a = omega (arith, same) in
        (
          bound,
          λ h.
              let open_still = (can_place_bid_sound r h).not_over in
              absurd (omega (arith, open_still, ap (λ x. x.end_at) e)),
        )
