-- ===== src/PublicPayments/Sale.antt =====
-- An auction offered publicly is paid for once: verifyPublicAuctionPayment.usecase.ts.
use auction_platform_backend.Prelude.{
  ℕ, ◌+◌, ◌≡◌, ◌∙◌, ap, sym, ◌⊎◌, inl, inr, not, Option, some, arith,
}
use auction_platform_backend.Outcome.{
  Result, ok, Outcome, done, failed, thrown, M, attempted, attempt, settle, value_of, ◌>>=◌,
  auction_not_found, fallback_not_found, participant_not_found, fallback_not_pending_payment,
}
use auction_platform_backend.Outcome.Post.{
  Post, Post-and_then, Post-guarded, Post-required, Post-settled, Post-valued,
}
use auction_platform_backend.Auction.{Auction, AuctionStatus, sold, set_status, set_winner}
use auction_platform_backend.Notice.{
  PublicFallbackAuction, PublicFallbackPaymentStatus, pending, paid,
}
use auction_platform_backend.Payment.{Payment, create_payment}
use auction_platform_backend.PublicPayments.{
  PublicPlatform, PublicParticipant, awaits_payment, pay_as_participant, pay_fallback, sell,
  verify_public_payment,
}

-- The payment status of an offer, and how many of its saves were not stored.
abbrev pub Offered : Type 0
Offered = PublicFallbackPaymentStatus × ℕ

-- A save of a payment status: it is stored, or it is lost.
abbrev pub Saved : PublicFallbackPaymentStatus → Offered → Offered → Type 0
Saved status before after = (after ≡ (status, before.1)) ⊎ (after ≡ (before.0, before.1 + 1))

Saved-move :
    {status : PublicFallbackPaymentStatus} {before after after' : Offered}
    → after' ≡ after
    → Saved status before after
    → Saved status before after'
Saved-move e (inl h) = inl (e ∙ h)
Saved-move e (inr h) = inr (e ∙ h)

-- Status and winner of an auction.
abbrev pub Sale : Type 0
Sale = AuctionStatus × Option ℕ

sold_of :
    (u n : ℕ) (a a1 a2 : Auction)
    → set_winner u n a ≡ ok a1
    → set_status sold a1 ≡ ok a2
    → (a2.status ≡ sold) × (a2.winner_id ≡ some u)
unfolding set_winner set_status
sold_of u n a a1 a2 h k = ground arith

paid_of :
    (f f' : PublicFallbackAuction)
    → pay_fallback f ≡ ok f'
    → (f.payment_status ≡ pending) × (f'.payment_status ≡ paid) × (f'.auction_id ≡ f.auction_id)
unfolding pay_fallback
paid_of f f' h = ground arith

payer_of : (x x' : PublicParticipant) → pay_as_participant x ≡ ok x' → x'.user_id ≡ x.user_id
unfolding pay_as_participant
payer_of x x' h = ground arith

pair : {a b : AuctionStatus} {m n : Option ℕ} → a ≡ b → m ≡ n → ◌≡◌ {A = Sale} (a, m) (b, n)
pair e f = cc

module _ {W : Type 0} (d : PublicPlatform W) (k : ℕ) (due : W → Offered) (sale : W → Sale) where
  open d use {
    platform, find_fallback, save_fallback, find_participant, save_participant,
    remaining_split_ratio,
  }

  abbrev pub Same : W → W → Type 0
  Same w w' = (due w' ≡ due w) × (sale w' ≡ sale w)

  abbrev pub KeepsSame : {A : Type 0} → M W A → Type 0
  KeepsSame m = (w : W) → Same w (m w).1

  -- What the use case relies on of the offer of auction `k` and of that auction. A save of
  -- the offer or of the auction may be lost.
  pub record SaleLaws : Type 0 where
    pub id_same : (w : W) → Same w (platform.runtime.generate_id w).1
    pub fallback_same : KeepsSame (find_fallback k)
    pub fallback_law :
        (w : W)
        → Post
            (λ o w'.
              (f : PublicFallbackAuction)
              → o ≡ some f
              → (f.auction_id ≡ k) × (f.payment_status ≡ (due w).0))
            (λ w'. Unit {0})
            (find_fallback k w)
    pub participant_same : (u : ℕ) → KeepsSame (find_participant k u)
    pub participant_law :
        (u : ℕ) (w : W)
        → Post
            (λ o w'. (x : PublicParticipant) → o ≡ some x → x.user_id ≡ u)
            (λ w'. Unit {0})
            (find_participant k u w)
    pub auction_same : KeepsSame (platform.auctions.find_by_id k)
    pub save_participant_same : (x : PublicParticipant) → KeepsSame (save_participant x)
    pub ratio_same : KeepsSame remaining_split_ratio
    pub ms_same : KeepsSame platform.config.auction_payment_balance_due_ms
    pub payment_same : (x : Payment) → KeepsSame (platform.payments.create x)
    pub save_fallback_law :
        (f : PublicFallbackAuction) (w : W)
        → f.auction_id ≡ k
        → Saved f.payment_status (due w) (due (save_fallback f w).1)
          × (sale (save_fallback f w).1 ≡ sale w)
    pub save_auction_law :
        (a : Auction) (w : W)
        → (due (platform.auctions.save a w).1 ≡ due w)
          × ((sale (platform.auctions.save a w).1 ≡ sale w)
              ⊎ (sale (platform.auctions.save a w).1 ≡ (a.status, a.winner_id)))

  module _ (laws : SaleLaws) (q : Offered) (s : Sale) (u : ℕ) where
    abbrev Still : W → Type 0
    Still w = (due w ≡ q) × (sale w ≡ s)

    -- The offer was open and is paid, or the save of that was lost, and the auction is as before or sold to the user.
    abbrev pub IsPaid : W → Type 0
    IsPaid w = (q.0 ≡ pending) × Saved paid q (due w) × ((sale w ≡ s) ⊎ (sale w ≡ (sold, some u)))

    abbrev pub Ends : W → Type 0
    Ends w = ((due w ≡ q) × (sale w ≡ s)) ⊎ IsPaid w

    abbrev Paid : {A : Type 0} → A → W → Type 0
    Paid x w = IsPaid w

    Same-Still : (w w' : W) → Same w w' → Still w → Still w'
    Same-Still w w' (a, b) (e, f) = (a ∙ e, b ∙ f)

    Same-IsPaid : (w w' : W) → Same w w' → IsPaid w → IsPaid w'
    Same-IsPaid w w' (a, b) (o, e, inl f) = (o, Saved-move a e, inl (b ∙ f))
    Same-IsPaid w w' (a, b) (o, e, inr f) = (o, Saved-move a e, inr (b ∙ f))

    -- A read kept with its failure.
    Still-Post :
        {A : Type 0} (r : Outcome A × W)
        → Still r.1
        → Post (λ (x : Result A) w. Still w) Ends (attempted r)
    Still-Post (done x, w) h = h
    Still-Post (failed x, w) h = h
    Still-Post (thrown, w) h = inl h

    IsPaid-Post :
        {A : Type 0} (r : Outcome A × W)
        → IsPaid r.1
        → Post (λ (x : Result A) w. IsPaid w) Ends (attempted r)
    IsPaid-Post (done x, w) h = h
    IsPaid-Post (failed x, w) h = h
    IsPaid-Post (thrown, w) h = inr h

    read-Post :
        {A : Type 0} (P : A → Type 0) (r : Outcome (Option A) × W)
        → Still r.1
        → Post (λ o w. (x : A) → o ≡ some x → P x) (λ w. Unit {0}) r
        → Post
            (λ t w. Still w × ((o : Option A) (x : A) → t ≡ ok o → o ≡ some x → P x))
            Ends
            (attempted r)
    read-Post P (done o, w) h f = (h, λ o' x e j. let same : o ≡ some x = cc in f x same)
    read-Post P (failed x, w) h f = (h, λ o' x' e j. cc)
    read-Post P (thrown, w) h f = inl h

    abbrev Row : {A : Type 0} → (A → Type 0) → Result (Option A) → W → Type 0
    Row {A} P t w = Still w × ((o : Option A) (x : A) → t ≡ ok o → o ≡ some x → P x)

    sell-Paid :
        (x : PublicParticipant) (f : PublicFallbackAuction) (a : Auction) (w : W)
        → x.user_id ≡ u
        → IsPaid w
        → Post Paid Ends (sell d x f a w)
    unfolding sell
    sell-Paid x f a w own h =
        Post-settled Paid Ends (set_winner x.user_id f.amount a) w _ (inr h) (λ a1 won.
          Post-and_then Paid Paid Ends (attempted (remaining_split_ratio w)) _
            (IsPaid-Post (remaining_split_ratio w) (Same-IsPaid w _ (laws.ratio_same w) h))
            (λ ratio_row w1 h1.
              Post-and_then Paid Paid Ends
                (attempted (platform.config.auction_payment_balance_due_ms w1)) _
                (IsPaid-Post (platform.config.auction_payment_balance_due_ms w1)
                  (Same-IsPaid w1 _ (laws.ms_same w1) h1))
                (λ ms_row w2 h2. Post-settled Paid Ends ratio_row w2 _ (inr h2) (λ ratio r.
                  Post-settled Paid Ends ms_row w2 _ (inr h2) (λ ms m.
                    let (id, w3) = platform.runtime.generate_id w2 in
                    let h3 = Same-IsPaid w2 w3 (laws.id_same w2) h2 in
                    Post-settled Paid Ends (create_payment _) w3 _ (inr h3) (λ rest c.
                      Post-settled Paid Ends (set_status sold a1) w3 _ (inr h3) (λ a2 ended.
                        Post-and_then Paid Paid Ends (attempted (platform.payments.create rest w3))
                          _
                          (IsPaid-Post (platform.payments.create rest w3)
                            (Same-IsPaid w3 _ (laws.payment_same rest w3) h3))
                          (λ stored w4 h4.
                            Post-and_then Paid Paid Ends (attempted (platform.auctions.save a2 w4))
                              _
                              (IsPaid-Post (platform.auctions.save a2 w4)
                                (saved a2 w4 h4 (sold_of x.user_id f.amount a a1 a2 won ended)))
                              (λ last w5 h5. h5)))))))))
      where
        saved :
            (a2 : Auction) (w4 : W)
            → IsPaid w4
            → (a2.status ≡ sold) × (a2.winner_id ≡ some x.user_id)
            → IsPaid (platform.auctions.save a2 w4).1
        saved a2 w4 (o, e, f) (st, wi) =
            let (b, c) = laws.save_auction_law a2 w4 in
            (
              o,
              Saved-move b e,
              elim c [
                | inl same ↦ elim f [ inl old ↦ inl (same ∙ old) | inr new ↦ inr (same ∙ new) ]
                | inr new ↦ inr (new ∙ pair st (wi ∙ ap some own))
              ],
            )

    -- Both rows are marked, and then the auction is sold.
    marks :
        (a : Auction) (f : PublicFallbackAuction) (x : PublicParticipant) (w : W)
        → Still w
        → (f.auction_id ≡ k) × (f.payment_status ≡ q.0)
        → x.user_id ≡ u
        → Post Paid Ends (
            (settle (pay_as_participant x) >>= λ x'. attempt (save_participant x') >>= λ y.
            value_of (pay_fallback f) >>= λ f'. attempt (save_fallback f') >>= λ z. sell d x' f' a)
              w)
    marks a f x w h (of_k, is_due) is_user =
        Post-settled Paid Ends (pay_as_participant x) w _ (inl h) (λ x' e.
          Post-and_then (λ y w'. Still w') Paid Ends (attempted (save_participant x' w)) _
            (Still-Post (save_participant x' w)
              (Same-Still w _ (laws.save_participant_same x' w) h))
            (λ y w1 h1. Post-valued Paid Ends (pay_fallback f) w1 _ (inl h1) (λ f' g.
              let (was, now, same_id) = paid_of f f' g in
              let (b, c) = laws.save_fallback_law f' w1 (same_id ∙ of_k) in
              Post-and_then Paid Paid Ends (attempted (save_fallback f' w1)) _
                (IsPaid-Post (save_fallback f' w1)
                  (sym is_due ∙ was, rw (sym now, sym h1.0) b, inl (c ∙ h1.1)))
                (λ z w2 h2. sell-Paid x' f' a w2 (payer_of x x' e ∙ is_user) h2))))

    -- However the call ends, nothing has changed, or the offer was open and is paid or the save of
    -- that was lost; the auction is then as before or sold to the user. If the call is done, the
    -- second is the case.
    pub verify-Ends :
        (w : W)
        → Still w
        → Post Paid Ends (verify_public_payment d (record { auction_id = k; user_id = u }) w)
    unfolding verify_public_payment
    verify-Ends w h =
        Post-and_then
          (Row (λ (f : PublicFallbackAuction). (f.auction_id ≡ k) × (f.payment_status ≡ q.0))) Paid
          Ends (attempted (find_fallback k w)) _
          (read-Post (λ (f : PublicFallbackAuction). (f.auction_id ≡ k) × (f.payment_status ≡ q.0))
            (find_fallback k w) (Same-Still w _ (laws.fallback_same w) h)
            (rw h.0 at (laws.fallback_law w)))
          (λ fr w1 (h1, is_due).
            Post-and_then (Row (λ (x : PublicParticipant). x.user_id ≡ u)) Paid Ends
              (attempted (find_participant k u w1)) _
              (read-Post (λ (x : PublicParticipant). x.user_id ≡ u) (find_participant k u w1)
                (Same-Still w1 _ (laws.participant_same u w1) h1) (laws.participant_law u w1))
              (λ xr w2 (h2, is_user).
                Post-and_then (λ t w'. Still w') Paid Ends
                  (attempted (platform.auctions.find_by_id k w2)) _
                  (Still-Post (platform.auctions.find_by_id k w2)
                    (Same-Still w2 _ (laws.auction_same w2) h2))
                  (λ ar w3 h3. Post-settled Paid Ends ar w3 _ (inl h3) (λ ao ai.
                    Post-settled Paid Ends fr w3 _ (inl h3) (λ fo fi.
                      Post-settled Paid Ends xr w3 _ (inl h3) (λ xo xi.
                        Post-required Paid Ends ao auction_not_found w3 _ (inl h3) (λ a aj.
                          Post-required Paid Ends fo fallback_not_found w3 _ (inl h3) (λ f fj.
                            Post-required Paid Ends xo participant_not_found w3 _ (inl h3) (λ x xj.
                              Post-guarded Paid Ends (not (awaits_payment f.payment_status))
                                fallback_not_pending_payment w3 _ (inl h3)
                                (λ live.
                                  marks a f x w3 h3 (is_due fo f fi fj)
                                    (is_user xo x xi xj)))))))))))
