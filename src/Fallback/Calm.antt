-- ===== src/Fallback/Calm.antt =====
-- What leaves the stored status alone: the payments, the notifications and the choice of the next
-- winner.
use auction_platform_backend.Prelude.{
  ℕ, ◌+◌, ◌≡◌, ◌∙◌, refl, Bool, true, false, List, [], ◌∷◌, ◌||◌, leb, length, if◌then◌else◌,
}
use auction_platform_backend.Outcome.{
  Result, ok, fail, Outcome, done, failed, thrown, M, and_then, attempt, attempted, settle, return,
  acts, ◌>>=◌,
}
use auction_platform_backend.Auction.{AuctionStatus}
use auction_platform_backend.Auction.Bid.{AuctionParticipant}
use auction_platform_backend.Notice.{Notification, NoticeText, notification, PublicFallbackAuction}
use auction_platform_backend.Payment.{Payment, PaymentPhase, create_payment}
use auction_platform_backend.Services.{Platform}
use auction_platform_backend.Winner.{
  get_fallback_winner, both, resolve_winner, eligible_bids, nobody,
}
use auction_platform_backend.Payments.{
  WinInput, split_at, pending_payment, is_there, split_winning_amount, create_deposit_payment,
  create_balance_payment, create_both, create_pending_payment,
}
use auction_platform_backend.Fallback.{store_notice, notify, notify_each}
use auction_platform_backend.Ending.Status.{KeepsView}

module _ {W : Type 0} (p : Platform W) (view : W → AuctionStatus) (k : ℕ) where
  abbrev Calm : {A : Type 0} → M W A → Type 0
  Calm m = KeepsView p view k m

  pub Calm-bind :
      {A B : Type 0} (m : M W A) (f : A → M W B) → Calm m → ((a : A) → Calm (f a)) → Calm (m >>= f)
  Calm-bind {A = A} {B = B} m f hm hf w = go (m w) (hm w)
    where
      go : (r : Outcome A × W) → view r.1 ≡ view w → view (and_then r f).1 ≡ view w
      go (done a, w') e = hf a w' ∙ e
      go (failed x, w') e = e
      go (thrown, w') e = e

  pub Calm-attempt : {A : Type 0} (m : M W A) → Calm m → Calm (attempt m)
  Calm-attempt {A = A} m h w = go (m w) (h w)
    where
      go : (r : Outcome A × W) → view r.1 ≡ view w → view (attempted r).1 ≡ view w
      go (done a, w') e = e
      go (failed x, w') e = e
      go (thrown, w') e = e

  Calm-settle : {A : Type 0} (r : Result A) → Calm (settle r)
  Calm-settle (ok a) w = refl
  Calm-settle (fail e) w = refl

  Calm-both : {A B : Type 0} (r : Result A) (s : Result B) → Calm (both r s)
  Calm-both (ok a) (ok b) w = refl
  Calm-both (ok a) (fail e) w = refl
  Calm-both (fail e) s w = refl

  Calm-if : {A : Type 0} (t : Bool) (m n : M W A) → Calm m → Calm n → Calm (if t then m else n)
  Calm-if true m n hm hn = hm
  Calm-if false m n hm hn = hn

  -- The calls that the fallback makes besides those of `StatusLaws`, none of which touches an
  -- auction.
  pub record CalmLaws : Type 0 where
    pub id_calm : (w : W) → view (p.runtime.generate_id w).1 ≡ view w
    pub bids_calm : (i : ℕ) → Calm (p.bids.find_all_by_auction_id i)
    pub find_calm : (i : ℕ) → Calm (p.auctions.find_by_id i)
    pub winners_calm : (i : ℕ) → Calm (p.winners.find_all_by_auction_id i)
    pub participants_calm : (i : ℕ) → Calm (p.participants.find_by_auction_id i)
    pub rank_calm : Calm p.config.auction_winner_fallback_max_rank
    pub ratio_calm : Calm p.config.auction_winner_deposit_split_ratio
    pub deposit_calm : Calm p.config.auction_payment_deposit_due_ms
    pub balance_calm : Calm p.config.auction_payment_balance_due_ms
    pub find_payment_calm :
        (i u : ℕ) (f : PaymentPhase) → Calm (p.payments.find_by_reference_user_and_phase i u f)
    pub create_payment_calm : (x : Payment) → Calm (p.payments.create x)
    pub decline_calm : (i u : ℕ) → Calm (p.payments.decline_all_pending_for_auction_user i u)
    pub notice_calm : (n : Notification) → Calm (p.notifications.save n)
    pub notified_calm :
        (n : Notification) (w : W) → view (p.events.publish_notification n w) ≡ view w
    pub offer_calm : (x : PublicFallbackAuction) → Calm (p.public_fallbacks.save x)

  module _ (laws : CalmLaws) where
    Calm-split : (win : ℕ) → Calm (split_winning_amount p win)
    unfolding split_winning_amount
    Calm-split win =
        Calm-bind p.config.auction_winner_deposit_split_ratio (λ r. return (split_at r win))
          laws.ratio_calm (λ r w. refl)

    Calm-deposit : (input : WinInput) → Calm (create_deposit_payment p input)
    unfolding create_deposit_payment
    Calm-deposit input =
        Calm-bind (split_winning_amount p input.win_amount) _ (Calm-split input.win_amount) (λ s.
          Calm-bind p.config.auction_payment_deposit_due_ms _ laws.deposit_calm (λ ms w.
            let (id, w1) = p.runtime.generate_id w in
            Calm-settle
              (create_payment (
                pending_payment id input s.deposit PaymentPhase.deposit (input.ended_at + ms)
                  (p.runtime.now w1)))
              w1
            ∙ laws.id_calm w))

    Calm-balance : (input : WinInput) → Calm (create_balance_payment p input)
    unfolding create_balance_payment
    Calm-balance input =
        Calm-bind (split_winning_amount p input.win_amount) _ (Calm-split input.win_amount) (λ s.
          Calm-bind p.config.auction_payment_balance_due_ms _ laws.balance_calm (λ ms w.
            let (id, w1) = p.runtime.generate_id w in
            Calm-settle
              (create_payment (
                pending_payment id input s.balance PaymentPhase.balance (input.ended_at + ms)
                  (p.runtime.now w1)))
              w1
            ∙ laws.id_calm w))

    pub Calm-create_pending : (input : WinInput) → Calm (create_pending_payment p input)
    unfolding create_pending_payment create_both
    Calm-create_pending input =
        Calm-bind
          (p.payments.find_by_reference_user_and_phase input.auction_id input.user_id
            PaymentPhase.deposit)
          _ (laws.find_payment_calm input.auction_id input.user_id PaymentPhase.deposit)
          (λ first.
            Calm-bind
              (p.payments.find_by_reference_user_and_phase input.auction_id input.user_id
                PaymentPhase.balance)
              _ (laws.find_payment_calm input.auction_id input.user_id PaymentPhase.balance)
              (λ second.
                Calm-if (is_there first || is_there second) (return tt) (create_both p input)
                  (λ w. refl)
                  (Calm-bind (create_deposit_payment p input) _ (Calm-deposit input) (λ x.
                    Calm-bind (p.payments.create x) _ (laws.create_payment_calm x) (λ x'.
                      Calm-bind (create_balance_payment p input) _ (Calm-balance input) (λ y.
                        Calm-bind (p.payments.create y) _ (laws.create_payment_calm y)
                          (λ y' w. refl)))))))

    pub Calm-notify : (user : ℕ) (title message : NoticeText) → Calm (notify p user title message)
    unfolding notify store_notice
    Calm-notify user title message w =
        let (id, w1) = p.runtime.generate_id w in
        let n = notification id user title message in
        Calm-bind (p.notifications.save n) (λ saved. acts (p.events.publish_notification n))
          (laws.notice_calm n) (λ saved w2. laws.notified_calm n w2) w1
        ∙ laws.id_calm w

    pub Calm-notify_each :
        (skipped : ℕ → Bool) (title message : NoticeText) (rest : List AuctionParticipant)
        → Calm (notify_each p skipped title message rest)
    unfolding notify_each
    Calm-notify_each skipped title message [] = λ w. refl
    Calm-notify_each skipped title message (x ∷ rest) =
        chosen (skipped x.user_id) (Calm-notify_each skipped title message rest)
      where
        chosen :
            (t : Bool)
            → Calm (notify_each p skipped title message rest)
            → Calm (elim t as (λ z. M W (Unit {0})) [
              | true ↦ notify_each p skipped title message rest
              | false ↦
                  notify p x.user_id title message >>= λ u. notify_each p skipped title message rest
            ])
        chosen true h = h
        chosen false h =
            Calm-bind (notify p x.user_id title message)
              (λ u. notify_each p skipped title message rest) (Calm-notify x.user_id title message)
              (λ u. h)

    pub Calm-get_fallback_winner : (i : ℕ) → Calm (get_fallback_winner p i)
    unfolding get_fallback_winner
    Calm-get_fallback_winner i =
        Calm-bind p.config.auction_winner_fallback_max_rank _ laws.rank_calm (λ max_rank.
          Calm-bind (attempt (p.auctions.find_by_id i)) _
            (Calm-attempt (p.auctions.find_by_id i) (laws.find_calm i))
            (λ found.
              Calm-bind (attempt (p.winners.find_all_by_auction_id i)) _
                (Calm-attempt (p.winners.find_all_by_auction_id i) (laws.winners_calm i))
                (λ winners. Calm-bind (both found winners) _ (Calm-both found winners) (λ pair.
                  Calm-if (leb max_rank (length pair.1)) (return (nobody true)) _ (λ w. refl)
                    (Calm-if (leb (length pair.1) 0) (return (nobody false)) _ (λ w. refl)
                      (Calm-bind (p.bids.find_all_by_auction_id i) _ (laws.bids_calm i) (λ bids.
                        Calm-settle (
                          resolve_winner p.encryption pair.0 (length pair.1 + 1)
                            (eligible_bids pair.1 bids)))))))))
