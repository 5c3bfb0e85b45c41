-- ===== src/Wallets/Joining.antt =====
-- Joining an auction holds a deposit: the wallet follows the entry that is written for the log.
use auction_platform_backend.Prelude.{ℕ, ◌≡◌, ◌∙◌, ap, sym, refl, Option, some, List, arith}
use auction_platform_backend.Prelude.Int.{ℤ, pos, ◌≤ℤ◌, sub_ge, add_ge}
use auction_platform_backend.Outcome.{
  Result, ok, Outcome, done, failed, thrown, attempt, attempted, ◌>>=◌, user_not_found,
  auction_not_found, settle, wallet_not_found,
}
use auction_platform_backend.Outcome.Post.{Post, Post-and_then, Post-required, Post-settled}
use auction_platform_backend.Account.{
  Wallet, WalletTransaction, hold, hold_from_main_balance, hold_ok,
}
use auction_platform_backend.Auction.{Auction}
use auction_platform_backend.Services.{Platform, User}
use auction_platform_backend.Wallets.{
  initial_deposit, participant, store_participant, add_auction_participant,
}
use auction_platform_backend.Wallets.Ledger.{
  WalletLaws, Same, Balanced, IsSound, Whatever, Booked, Booked-Same, log_entry-Booked, Same-Same,
  rests,
}

module _ {W : Type 0} (p : Platform W) (purse : W → Option Wallet)
    (log lost : W → List WalletTransaction) (u : ℕ) (laws : WalletLaws p purse log lost u) where
  -- One hold is booked after the entries of a world, of an amount that is not negative.
  abbrev pub IsHeld : W → W → Type 0
  IsHeld w0 w = (n : ℤ) × (pos 0 ≤ℤ n) × Booked p purse log lost u hold n w0 w

  abbrev Booking : W → {A : Type 0} → A → W → Type 0
  Booking w0 a w = IsHeld w0 w

  IsHeld-Same : (w0 w w' : W) → Same p purse log lost u w w' → IsHeld w0 w → IsHeld w0 w'
  IsHeld-Same w0 w w' s (n, h, b) = (n, h, Booked-Same p purse log lost u hold n w0 w w' s b)

  kept-Post :
      {A : Type 0} (w0 w : W) (r : Outcome A × W)
      → Same p purse log lost u w r.1
      → IsHeld w0 w
      → Post (Booking w0) (Whatever p purse log lost u) r
  kept-Post w0 w (done x, w') s b = IsHeld-Same w0 w w' s b
  kept-Post w0 w (failed e, w') s b = tt
  kept-Post w0 w (thrown, w') s b = tt

  tried-Post :
      {A : Type 0} (w0 w : W) (r : Outcome A × W)
      → Same p purse log lost u w r.1
      → IsHeld w0 w
      → Post (Booking w0 {A = Result A}) (Whatever p purse log lost u) (attempted r)
  tried-Post w0 w (done x, w') s b = IsHeld-Same w0 w w' s b
  tried-Post w0 w (failed e, w') s b = IsHeld-Same w0 w w' s b
  tried-Post w0 w (thrown, w') s b = tt

  -- A read that keeps its failure.
  read-Same :
      {A : Type 0} (w0 w : W) (r : Outcome A × W)
      → Same p purse log lost u w0 w
      → Same p purse log lost u w r.1
      → Post
          (λ (y : Result A) w'. Same p purse log lost u w0 w')
          (Whatever p purse log lost u)
          (attempted r)
  read-Same w0 w (done x, w') s t = Same-Same p purse log lost u w0 w w' s t
  read-Same w0 w (failed e, w') s t = Same-Same p purse log lost u w0 w w' s t
  read-Same w0 w (thrown, w') s t = tt

  store_participant-Booking :
      (i : ℕ) (user : User) (x held : Wallet) (n : ℤ) (w0 w : W)
      → purse w ≡ some x
      → Same p purse log lost u w0 w
      → IsSound p purse log lost u (log w0) x
      → pos 0 ≤ℤ n
      → hold_from_main_balance n x ≡ ok held
      → Post (Booking w0) (Whatever p purse log lost u) (store_participant p i user x held n w)
  unfolding store_participant
  store_participant-Booking i user x held n w0 w e l sound pos_n taken =
      let (enough, q) = hold_ok n x held taken in
      log_entry-Booked p purse log lost u laws _ (Booking w0) x held n hold w0 w e l sound
        (ap (λ (y : Wallet). y.user_id) q) (ap (λ (y : Wallet). y.main_balance) q)
        (ap (λ (y : Wallet). y.held_balance) q)
        (rw (ap (λ (y : Wallet). y.main_balance) q) (sub_ge x.main_balance n enough))
        (rw (ap (λ (y : Wallet). y.held_balance) q) (add_ge x.held_balance n sound.4 pos_n))
        (λ y w1 b1.
          let (id, w2) = p.runtime.generate_id w1 in
          let row = participant id i user (p.runtime.now w2) in
          let b2 = IsHeld-Same w0 w1 w2 (laws.id_same w1) (n, pos_n, b1) in
          Post-and_then (Booking w0) (Booking w0) (Whatever p purse log lost u)
            (attempt (p.participants.save row) w2) _
            (tried-Post w0 w2 (p.participants.save row w2) (laws.participant_same row w2) b2)
            (λ z w3 b3.
              kept-Post w0 w3 (p.participants.find_by_auction_id i w3) (laws.participants_same i w3)
                b3))

  -- The wallet read with its failure kept.
  Row : W → Result (Option Wallet) → W → Type 0
  Row w r w' = Same p purse log lost u w w' × ((x : Wallet) → r ≡ ok (some x) → purse w ≡ some x)

  Row-Post :
      (w : W) → Post (Row w) (Whatever p purse log lost u) (attempt (p.wallets.find_by_user_id u) w)
  unfolding Row
  Row-Post w = kept (p.wallets.find_by_user_id u w) (laws.find_same w) (laws.found_law w)
    where
      kept :
          (r : Outcome (Option Wallet) × W)
          → Same p purse log lost u w r.1
          → Post (λ o w'. (x : Wallet) → o ≡ some x → purse w ≡ some x) (λ w'. Unit {0}) r
          → Post (Row w) (Whatever p purse log lost u) (attempted r)
      kept (done o, w') s f = (s, λ x e. f x cc)
      kept (failed e, w') s f = (s, λ x q. cc)
      kept (thrown, w') s f = tt

  -- If the wallet's balances are those that its log accounts for, neither is below 0, and a user
  -- joins an auction, then the balances stored are those that the log of before and one hold account
  -- for, of an amount that is not negative, and neither balance is below 0; the hold is in the log
  -- or, if it could not be stored, among those that are lost.
  pub add_auction_participant-IsHeld :
      (i : ℕ) (w : W)
      → Balanced p purse log lost u w
      → Post (λ out w'. IsHeld w w') (λ w'. Unit {0}) (add_auction_participant p i u w)
  unfolding add_auction_participant Row
  add_auction_participant-IsHeld i w b =
      Post-and_then (λ r w'. Same p purse log lost u w w') (Booking w) (Whatever p purse log lost u)
        (attempt (p.users.find_by_id u) w) _
        (read-Same w w (p.users.find_by_id u w) (refl, refl, refl) (laws.user_same u w))
        (λ user_row w1 s1.
          Post-and_then (λ r w'. Same p purse log lost u w w') (Booking w)
            (Whatever p purse log lost u) (attempt (p.auctions.find_by_id i) w1) _
            (read-Same w w1 (p.auctions.find_by_id i w1) s1 (laws.auction_same i w1))
            (λ auction_row w2 s2.
              Post-and_then (Row w2) (Booking w) (Whatever p purse log lost u)
                (attempt (p.wallets.find_by_user_id u) w2) _ (Row-Post w2)
                (λ wallet_row w3 (s3, f).
                  Post-settled (Booking w) (Whatever p purse log lost u) user_row w3 _ tt
                    (λ user_found q1.
                      Post-settled (Booking w) (Whatever p purse log lost u) auction_row w3 _ tt
                        (λ auction_found q2.
                          Post-settled (Booking w) (Whatever p purse log lost u) wallet_row w3 _ tt
                            (λ wallet_found q3.
                              Post-required (Booking w) (Whatever p purse log lost u) user_found
                                user_not_found w3 _ tt
                                (λ user q4.
                                  Post-required (Booking w) (Whatever p purse log lost u)
                                    auction_found auction_not_found w3 _ tt
                                    (λ a q5.
                                      Post-required (Booking w) (Whatever p purse log lost u)
                                        wallet_found wallet_not_found w3 _ tt
                                        (λ x q6.
                                          joined user a x w3 (s3.0 ∙ f x (q3 ∙ ap ok q6))
                                            (Same-Same p purse log lost u w w2 w3 s2 s3)
                                            (b x (sym s2.0 ∙ f x (q3 ∙ ap ok q6))))))))))))
    where
      joined :
          (user : User) (a : Auction) (x : Wallet) (w' : W)
          → purse w' ≡ some x
          → Same p purse log lost u w w'
          → IsSound p purse log lost u (log w) x
          → Post (Booking w) (Whatever p purse log lost u) (
              (p.config.auction_participant_initial_deposit_ratio >>= λ ratio.
              settle (hold_from_main_balance (initial_deposit a ratio) x) >>= λ held.
              store_participant p i (record user { id = u }) x held (initial_deposit a ratio))
                w')
      joined user a x w' e l sound =
          Post-and_then (λ n w4. Same p purse log lost u w' w4) (Booking w)
            (Whatever p purse log lost u) (p.config.auction_participant_initial_deposit_ratio w') _
            (rests p purse log lost u laws w'
              (p.config.auction_participant_initial_deposit_ratio w') (laws.ratio_same w'))
            (λ ratio w4 s4.
              Post-settled (Booking w) (Whatever p purse log lost u)
                (hold_from_main_balance (initial_deposit a ratio) x) w4 _ tt
                (λ held q.
                  store_participant-Booking i (record user { id = u }) x held
                    (initial_deposit a ratio) w w4 (s4.0 ∙ e)
                    (Same-Same p purse log lost u w w' w4 l s4) sound (omega arith) q))
