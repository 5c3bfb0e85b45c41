-- ===== src/Wallets/Ledger.antt =====
-- The balances of a wallet and the log of its entries.
use auction_platform_backend.Prelude.{
  ℕ, ◌≡◌, ◌∙◌, sym, ap, refl, ◌⊎◌, inl, inr, Option, some, List, [], ◌∷◌,
}
use auction_platform_backend.Prelude.Int.{ℤ, pos, ◌+ℤ◌, ◌-ℤ◌, ◌≤ℤ◌}
use auction_platform_backend.Outcome.{
  Result, Outcome, done, failed, thrown, M, attempt, attempted, ◌>>=◌,
}
use auction_platform_backend.Outcome.Post.{Post, Post-and_then, Post-both, Post-weaken}
use auction_platform_backend.Account.{
  Wallet, WalletTransaction, WalletTransactionType, deposit, withdrawal, transfer, hold, release,
}
use auction_platform_backend.Auction.Bid.{AuctionParticipant}
use auction_platform_backend.Services.{Platform}
use auction_platform_backend.Wallets.{entry, log_entry}

-- What an entry does to the free and to the held balance.
abbrev pub main_after : WalletTransactionType → ℤ → ℤ → ℤ
main_after deposit n b = b +ℤ n
main_after withdrawal n b = b -ℤ n
main_after transfer n b = b
main_after hold n b = b -ℤ n
main_after release n b = b +ℤ n

abbrev pub held_after : WalletTransactionType → ℤ → ℤ → ℤ
held_after deposit n b = b
held_after withdrawal n b = b
held_after transfer n b = b
held_after hold n b = b +ℤ n
held_after release n b = b -ℤ n

-- The balances that a log, newest entry first, accounts for.
abbrev pub main_of : List WalletTransaction → ℤ
main_of [] = pos 0
main_of (t ∷ ts) = main_after t.type_of t.amount (main_of ts)

abbrev pub held_of : List WalletTransaction → ℤ
held_of [] = pos 0
held_of (t ∷ ts) = held_after t.type_of t.amount (held_of ts)

module _ {W : Type 0} (p : Platform W) (purse : W → Option Wallet)
    (log lost : W → List WalletTransaction) (u : ℕ) where
  -- The wallet, its log and the entries that were to be stored and are lost are as they were.
  abbrev pub Same : W → W → Type 0
  Same w w' = (purse w' ≡ purse w) × (log w' ≡ log w) × (lost w' ≡ lost w)

  -- The entry is the newest of the log, or it is the newest of those that are lost.
  abbrev pub IsLogged : WalletTransaction → W → W → Type 0
  IsLogged t w w' =
      ((log w' ≡ t ∷ log w) × (lost w' ≡ lost w)) ⊎ ((log w' ≡ log w) × (lost w' ≡ t ∷ lost w))

  IsLogged-Same :
      (t : WalletTransaction) (w w' w'' : W) → Same w' w'' → IsLogged t w w' → IsLogged t w w''
  IsLogged-Same t w w' w'' (e, l, s) (inl (a, b)) = inl (l ∙ a, s ∙ b)
  IsLogged-Same t w w' w'' (e, l, s) (inr (a, b)) = inr (l ∙ a, s ∙ b)

  IsLogged-from :
      (t : WalletTransaction) (w0 w w' : W) → Same w0 w → IsLogged t w w' → IsLogged t w0 w'
  IsLogged-from t w0 w w' (e, l, s) (inl (a, b)) = inl (a ∙ ap (λ ts. t ∷ ts) l, b ∙ s)
  IsLogged-from t w0 w w' (e, l, s) (inr (a, b)) = inr (a ∙ l, b ∙ ap (λ ts. t ∷ ts) s)

  pub Same-Same : (w w' w'' : W) → Same w w' → Same w' w'' → Same w w''
  Same-Same w w' w'' (a, b, c) (e, l, s) = (e ∙ a, l ∙ b, s ∙ c)

  -- What the use cases rely on of the wallet of user `u`: reads change nothing, a read gives the
  -- wallet stored, the log takes an entry or loses it, and a save that succeeds stores the wallet.
  pub record WalletLaws : Type 0 where
    pub id_same : (w : W) → Same w (p.runtime.generate_id w).1
    pub find_same : (w : W) → Same w (p.wallets.find_by_user_id u w).1
    pub found_law :
        (w : W)
        → Post
            (λ o w'. (x : Wallet) → o ≡ some x → purse w ≡ some x)
            (λ w'. Unit {0})
            (p.wallets.find_by_user_id u w)
    pub log_law :
        (t : WalletTransaction) (x : Wallet) (w : W)
        → purse w ≡ some x
        → t.wallet_id ≡ x.id
        → (purse (p.transactions.create t w).1 ≡ purse w)
          × IsLogged t w (p.transactions.create t w).1
    pub save_law :
        (x : Wallet) (w : W)
        → x.user_id ≡ u
        → Post
            (λ x' w'. (purse w' ≡ some x) × (log w' ≡ log w) × (lost w' ≡ lost w))
            (λ w'. Unit {0})
            (p.wallets.save x w)
    pub user_same : (i : ℕ) (w : W) → Same w (p.users.find_by_id i w).1
    pub auction_same : (i : ℕ) (w : W) → Same w (p.auctions.find_by_id i w).1
    pub ratio_same : (w : W) → Same w (p.config.auction_participant_initial_deposit_ratio w).1
    pub participant_same : (x : AuctionParticipant) (w : W) → Same w (p.participants.save x w).1
    pub participants_same : (i : ℕ) (w : W) → Same w (p.participants.find_by_auction_id i w).1

  -- A wallet of user `u` whose balances are those of its log, and neither is below 0.
  abbrev pub IsSound : List WalletTransaction → Wallet → Type 0
  IsSound ts x =
      (x.user_id ≡ u)
      × (x.main_balance ≡ main_of ts)
      × (x.held_balance ≡ held_of ts)
      × (pos 0 ≤ℤ x.main_balance)
      × (pos 0 ≤ℤ x.held_balance)

  abbrev pub Balanced : W → Type 0
  Balanced w = (x : Wallet) → purse w ≡ some x → IsSound (log w) x

  abbrev pub Whatever : W → Type 0
  Whatever w = Unit {0}

  -- One entry of this type and amount has been given to the log of the world before: it is in the log
  -- or it is lost, and the wallet that is stored is the one that the log of before and the entry
  -- account for.
  abbrev pub Booked : WalletTransactionType → ℤ → W → W → Type 0
  Booked type_of n w w' =
      (t : WalletTransaction) × (t.type_of ≡ type_of)
      × (t.amount ≡ n)
      × IsLogged t w w'
      × ((x : Wallet) × (purse w' ≡ some x) × IsSound (t ∷ log w) x)

  pub Booked-Same :
      (type_of : WalletTransactionType) (n : ℤ) (w w' w'' : W)
      → Same w' w''
      → Booked type_of n w w'
      → Booked type_of n w w''
  Booked-Same type_of n w w' w'' same (t, a, b, c, (x, q, s)) =
      (t, a, b, IsLogged-Same t w w' w'' same c, (x, same.0 ∙ q, s))

  -- A wallet that changed as its newest entry says.
  after :
      (t : WalletTransaction) (ts : List WalletTransaction) (x x' : Wallet)
      → x'.user_id ≡ x.user_id
      → x'.main_balance ≡ main_after t.type_of t.amount x.main_balance
      → x'.held_balance ≡ held_after t.type_of t.amount x.held_balance
      → pos 0 ≤ℤ x'.main_balance
      → pos 0 ≤ℤ x'.held_balance
      → IsSound ts x
      → IsSound (t ∷ ts) x'
  after t ts x x' i m h fm fh (j, m', h', _, _) = (
    i ∙ j,
    m ∙ ap (main_after t.type_of t.amount) m',
    h ∙ ap (held_after t.type_of t.amount) h',
    fm,
    fh,
  )

  pub Balanced-Same : (w w' : W) → Same w w' → Balanced w → Balanced w'
  Balanced-Same w w' (e, l, s) b x h = rw l (b x (sym e ∙ h))

  module _ (laws : WalletLaws) where
    -- The wallet of the user, read.
    pub rests :
        {A : Type 0} (w : W) (r : Outcome A × W) → Same w r.1 → Post (λ x w'. Same w w') Whatever r
    rests w (done x, w') h = h
    rests w (failed e, w') h = tt
    rests w (thrown, w') h = tt

    pub found-Post :
        (w : W)
        → Post
            (λ o w'. Same w w' × ((x : Wallet) → o ≡ some x → purse w ≡ some x))
            Whatever
            (p.wallets.find_by_user_id u w)
    found-Post w =
        Post-both (λ o w'. Same w w') Whatever
          (λ o w'. (x : Wallet) → o ≡ some x → purse w ≡ some x) Whatever
          (p.wallets.find_by_user_id u w) (same (p.wallets.find_by_user_id u w) (laws.find_same w))
          (laws.found_law w)
      where
        same : {A : Type 0} (r : Outcome A × W) → Same w r.1 → Post (λ o w'. Same w w') Whatever r
        same (done x, w') h = h
        same (failed e, w') h = tt
        same (thrown, w') h = tt

    -- A sound wallet saved, after its entry.
    saved-Booked :
        (x' : Wallet) (t : WalletTransaction) (w0 w : W)
        → IsLogged t w0 w
        → IsSound (t ∷ log w0) x'
        → Post (λ a w'. Booked t.type_of t.amount w0 w') Whatever (p.wallets.save x' w)
    saved-Booked x' t w0 w l s =
        Post-weaken (λ a w'. (purse w' ≡ some x') × (log w' ≡ log w) × (lost w' ≡ lost w)) Whatever
          (λ a w'. Booked t.type_of t.amount w0 w') Whatever (p.wallets.save x' w)
          (laws.save_law x' w s.0)
          (λ a w' (q, l', m'). (
            t,
            refl,
            refl,
            elim l [ inl (a, b) ↦ inl (l' ∙ a, m' ∙ b) | inr (a, b) ↦ inr (l' ∙ a, m' ∙ b) ],
            (x', q, s),
          ))
          (λ w' z. z)

    -- An entry for the log, then the wallet that it accounts for, and what follows.
    pub log_entry-Booked :
        {B : Type 0} (k : Wallet → M W B) (Q : B → W → Type 0) (x x' : Wallet) (n : ℤ)
        (t : WalletTransactionType) (w0 w : W)
        → purse w ≡ some x
        → Same w0 w
        → IsSound (log w0) x
        → x'.user_id ≡ x.user_id
        → x'.main_balance ≡ main_after t n x.main_balance
        → x'.held_balance ≡ held_after t n x.held_balance
        → pos 0 ≤ℤ x'.main_balance
        → pos 0 ≤ℤ x'.held_balance
        → ((y : Wallet) (w' : W) → Booked t n w0 w' → Post Q Whatever (k y w'))
        → Post Q Whatever ((log_entry p x n t >>= λ r. p.wallets.save x' >>= k) w)
    unfolding log_entry
    log_entry-Booked k Q x x' n t w0 w e still sound i m h fm fh go =
        let (id, w1) = p.runtime.generate_id w in
        let t0 = entry id x n t (p.runtime.now w1) in
        let still1 = Same-Same w0 w w1 still (laws.id_same w) in
        let (same, logs) = laws.log_law t0 x w1 ((laws.id_same w).0 ∙ e) refl in
        Post-and_then (λ r w2. IsLogged t0 w0 w2) Q Whatever (attempt (p.transactions.create t0) w1)
          _ (logged t0 (p.transactions.create t0 w1) (IsLogged-from t0 w0 w1 _ still1 logs))
          (λ r w2 c.
            Post-and_then (λ y w3. Booked t n w0 w3) Q Whatever (p.wallets.save x' w2) _
              (saved-Booked x' t0 w0 w2 c (after t0 (log w0) x x' i m h fm fh sound)) go)
      where
        logged :
            {A : Type 0} (t0 : WalletTransaction) (r : Outcome A × W)
            → IsLogged t0 w0 r.1
            → Post (λ (y : Result A) w2. IsLogged t0 w0 w2) Whatever (attempted r)
        logged t0 (done y, w2) q = q
        logged t0 (failed z, w2) q = q
        logged t0 (thrown, w2) q = tt
