-- ===== src/PublicPayments/Orders.antt =====
-- Who gets an order for an auction that is offered publicly, and over how much:
-- createPaymentOrderForPublicFallbackAuction.ts.
use auction_platform_backend.Prelude.{
  ℕ, ◌+◌, ◌*◌, ◌/◌, ◌≡◌, ◌≢◌, ◌∙◌, ap, sym, refl, false, not, leb, ◌==◌, any, All, Option, none,
  some, List, [], ◌∷◌, arith,
}
use auction_platform_backend.Outcome.{
  Error, ◌>>=◌, auction_not_found, not_public_notification, previous_winner_cannot_pay,
  fallback_not_found, fallback_not_pending, fallback_not_pending_payment, participant_rejected,
  participant_not_pending, amount_must_be_positive,
}
use auction_platform_backend.Outcome.Verdict.{
  Verdict, Verdict-and_then, Verdict-required, Verdict-guarded, Verdict-ignored, Verdict-weaken,
  Verdict-any,
}
use auction_platform_backend.Auction.{Auction, AuctionStatus, fallback_public_notification}
use auction_platform_backend.Auction.Bid.{AuctionWinner}
use auction_platform_backend.Notice.{
  PublicFallbackAuction, PublicFallbackStatus, PublicFallbackPaymentStatus,
}
use auction_platform_backend.PublicPayments.{
  PublicPlatform, PublicParticipant, ParticipantStatus, ParticipantPayment, rejected, PublicInput,
  Order, is_rejected, is_unpaid, awaits_payment, awaits_buyer, is_public, create_order, order_for,
  create_public_order,
}

none_of :
    (u : ℕ) (xs : List AuctionWinner)
    → any (λ (x : AuctionWinner). x.user_id == u) xs ≡ false
    → All (λ (x : AuctionWinner). x.user_id ≢ u) xs
none_of u [] h = tt
none_of u (x ∷ xs) h = ((λ e. ground arith), none_of u xs (ground arith))

public_of : (s : AuctionStatus) → not (is_public s) ≡ false → s ≡ fallback_public_notification
public_of s h = ground arith

buyer_of :
    (s : PublicFallbackStatus) → not (awaits_buyer s) ≡ false → s ≡ PublicFallbackStatus.pending
buyer_of s h = ground arith

due_of :
    (s : PublicFallbackPaymentStatus)
    → not (awaits_payment s) ≡ false
    → s ≡ PublicFallbackPaymentStatus.pending
due_of s h = ground arith

unpaid_of : (s : ParticipantPayment) → not (is_unpaid s) ≡ false → s ≡ ParticipantPayment.pending
unpaid_of s h = ground arith

kept_of : (s : ParticipantStatus) → is_rejected s ≡ false → s ≢ rejected
kept_of s h e = ground arith

module _ {W : Type 0} (d : PublicPlatform W) (auction_of : ℕ → Option Auction)
    (winners_of : ℕ → List AuctionWinner) (offer_of : ℕ → Option PublicFallbackAuction)
    (participant_of : ℕ → ℕ → Option PublicParticipant) (ratio : ℕ) where
  open d use {
    platform, find_fallback, find_participant, save_participant, razorpay_order,
    initial_split_ratio,
  }

  abbrev pub Any : Error → Type 0
  Any e = Unit {0}

  -- The tables that the use case reads, and the setting of the split.
  pub record OrderLaws : Type 0 where
    pub auction_law :
        (i : ℕ) (w : W) → Verdict (λ o. o ≡ auction_of i) Any (platform.auctions.find_by_id i w)
    pub winners_law :
        (i : ℕ) (w : W)
        → Verdict (λ xs. xs ≡ winners_of i) Any (platform.winners.find_all_by_auction_id i w)
    pub offer_law : (i : ℕ) (w : W) → Verdict (λ o. o ≡ offer_of i) Any (find_fallback i w)
    pub participant_law :
        (i u : ℕ) (w : W) → Verdict (λ o. o ≡ participant_of i u) Any (find_participant i u w)
    pub ratio_law : (w : W) → Verdict (λ n. n ≡ ratio) Any (initial_split_ratio w)

  -- The amount of an order, in hundredths: the whole amount for a user who does not take part yet,
  -- and the first part of it for one who does, has not declined and has not paid.
  abbrev pub IsAsked : Option PublicParticipant → PublicFallbackAuction → Order → Type 0
  IsAsked none f o = o.amount_in_paise ≡ f.amount * 100
  IsAsked (some x) f o =
      (x.status ≢ rejected)
      × (x.payment_status ≡ ParticipantPayment.pending)
      × (o.amount_in_paise ≡ (f.amount * ratio + 50) / 100)

  -- What stands in the tables when a user gets an order.
  pub record MayBuy (input : PublicInput) (o : Order) : Type 0 where
    pub auction : Auction
    pub offer : PublicFallbackAuction
    pub is_stored : auction_of input.auction_id ≡ some auction
    pub is_offered : auction.status ≡ fallback_public_notification
    pub has_not_won :
        All (λ (x : AuctionWinner). x.user_id ≢ input.user_id) (winners_of input.auction_id)
    pub has_offer : offer_of input.auction_id ≡ some offer
    pub is_open : offer.status ≡ PublicFallbackStatus.pending
    pub is_due : offer.payment_status ≡ PublicFallbackPaymentStatus.pending
    pub is_asked : IsAsked (participant_of input.auction_id input.user_id) offer o

  order-Amount :
      (u n r : ℕ) (w : W)
      → Verdict (λ o. o.amount_in_paise ≡ (n + 50) / 100) Any (create_order d u n r w)
  unfolding create_order
  order-Amount u n r w =
      Verdict-guarded (λ o. o.amount_in_paise ≡ (n + 50) / 100) Any (leb n 0)
        amount_must_be_positive w _ (λ e. tt)
        (λ e.
          Verdict-and_then (λ o. o.amount_in_paise ≡ (n + 50) / 100) Any (λ i. Unit {0})
            (razorpay_order u ((n + 50) / 100) r w) _
            (Verdict-any (razorpay_order u ((n + 50) / 100) r w)) (λ i w1 h. refl))

  order_for-IsAsked :
      (input : PublicInput) (f : PublicFallbackAuction) (x : Option PublicParticipant) (w : W)
      → OrderLaws
      → Verdict (IsAsked x f) Any (order_for d input f x w)
  unfolding order_for
  order_for-IsAsked input f (some x) w laws =
      Verdict-guarded (IsAsked (some x) f) Any (is_rejected x.status) participant_rejected w _
        (λ e. tt)
        (λ kept.
          Verdict-guarded (IsAsked (some x) f) Any (not (is_unpaid x.payment_status))
            participant_not_pending w _ (λ e. tt)
            (λ live.
              Verdict-and_then (IsAsked (some x) f) Any (λ n. n ≡ ratio) (initial_split_ratio w) _
                (laws.ratio_law w)
                (λ n w1 e.
                  Verdict-weaken (λ o. o.amount_in_paise ≡ (f.amount * n + 50) / 100)
                    (IsAsked (some x) f) Any Any
                    (create_order d input.user_id (f.amount * n) f.auction_id w1)
                    (order-Amount input.user_id (f.amount * n) f.auction_id w1)
                    (λ o q. (
                      kept_of x.status kept,
                      unpaid_of x.payment_status live,
                      q ∙ ap (λ r. (f.amount * r + 50) / 100) e,
                    ))
                    (λ e' t. t))))
  order_for-IsAsked input f none w laws =
      let (id, w1) = platform.runtime.generate_id w in
      Verdict-ignored (IsAsked none f) Any (save_participant _ w1) _ (λ x w2.
        Verdict-weaken (λ o. o.amount_in_paise ≡ (f.amount * 10000 + 50) / 100) (IsAsked none f) Any
          Any (create_order d input.user_id (f.amount * 10000) f.auction_id w2)
          (order-Amount input.user_id (f.amount * 10000) f.auction_id w2) (λ o q. omega (arith, q))
          (λ e' t. t))

  -- A user gets an order only for a stored auction that is offered publicly, whose winners the user
  -- has not been among, and whose offer is open and not paid. A user who does not take part yet is
  -- asked for the whole amount; one who does, and has neither declined nor paid, for the first part.
  pub create_public_order-MayBuy :
      (input : PublicInput) (w : W)
      → OrderLaws
      → Verdict (MayBuy input) Any (create_public_order d input w)
  unfolding create_public_order
  create_public_order-MayBuy input w laws =
      Verdict-and_then R Any (λ o. o ≡ auction_of input.auction_id)
        (platform.auctions.find_by_id input.auction_id w) _ (laws.auction_law input.auction_id w)
        (λ ao w1 ae. Verdict-required R Any ao auction_not_found w1 _ tt (λ a aj.
          Verdict-guarded R Any (not (is_public a.status)) not_public_notification w1 _ (λ e. tt)
            (λ public.
              Verdict-and_then R Any (λ xs. xs ≡ winners_of input.auction_id)
                (platform.winners.find_all_by_auction_id input.auction_id w1) _
                (laws.winners_law input.auction_id w1)
                (λ xs w2 we.
                  Verdict-guarded R Any (any (λ (x : AuctionWinner). x.user_id == input.user_id) xs)
                    previous_winner_cannot_pay w2 _ (λ e. tt)
                    (λ new.
                      Verdict-and_then R Any (λ o. o ≡ offer_of input.auction_id)
                        (find_fallback input.auction_id w2) _ (laws.offer_law input.auction_id w2)
                        (λ fo w3 fe. Verdict-required R Any fo fallback_not_found w3 _ tt (λ f fj.
                          Verdict-guarded R Any (not (awaits_buyer f.status)) fallback_not_pending
                            w3 _ (λ e. tt)
                            (λ free.
                              Verdict-guarded R Any (not (awaits_payment f.payment_status))
                                fallback_not_pending_payment w3 _ (λ e. tt)
                                (λ unpaid.
                                  ordered a f w3 (sym ae ∙ aj) (public_of a.status public)
                                    (rw (sym we) (none_of input.user_id xs new)) (sym fe ∙ fj)
                                    (buyer_of f.status free)
                                    (due_of f.payment_status unpaid))))))))))
    where
      R : Order → Type 0
      R = MayBuy input

      ordered :
          (a : Auction) (f : PublicFallbackAuction) (w3 : W)
          → auction_of input.auction_id ≡ some a
          → a.status ≡ fallback_public_notification
          → All (λ (x : AuctionWinner). x.user_id ≢ input.user_id) (winners_of input.auction_id)
          → offer_of input.auction_id ≡ some f
          → f.status ≡ PublicFallbackStatus.pending
          → f.payment_status ≡ PublicFallbackPaymentStatus.pending
          → Verdict R Any
              ((find_participant input.auction_id input.user_id >>= λ x. order_for d input f x) w3)
      ordered a f w3 stored offered clean has open_one due =
          Verdict-and_then R Any (λ o. o ≡ participant_of input.auction_id input.user_id)
            (find_participant input.auction_id input.user_id w3) _
            (laws.participant_law input.auction_id input.user_id w3)
            (λ x w4 e.
              Verdict-weaken (IsAsked x f) R Any Any (order_for d input f x w4)
                (order_for-IsAsked input f x w4 laws)
                (λ o asked. record {
                  auction = a;
                  offer = f;
                  is_stored = stored;
                  is_offered = offered;
                  has_not_won = clean;
                  has_offer = has;
                  is_open = open_one;
                  is_due = due;
                  is_asked = rw (sym e) asked;
                })
                (λ e' t. t))
