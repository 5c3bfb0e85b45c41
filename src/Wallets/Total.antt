-- ===== src/Wallets/Total.antt =====
-- Giving the deposits back moves money inside the wallets and makes or loses none.
use auction_platform_backend.Prelude.{
  ℕ, ◌≡◌, ◌∙◌, sym, ap, refl, ◌⊎◌, inl, inr, Bool, true, false, Option, none, some, List, [], ◌∷◌,
  is_id,
}
use auction_platform_backend.Prelude.Int.{ℤ}
use auction_platform_backend.Outcome.{
  Result, ok, fail, Outcome, done, failed, thrown, M, attempt, attempted, ◌>>=◌, auction_not_found,
}
use auction_platform_backend.Outcome.Post.{Post, Post-and_then, Post-required, Post-settled}
use auction_platform_backend.Account.{Wallet, total_balance, release_held_balance, release-total}
use auction_platform_backend.Auction.Bid.{AuctionParticipant}
use auction_platform_backend.Services.{Platform}
use auction_platform_backend.Wallets.{
  initial_deposit, release_row, release_each, release_participants,
}

-- What a user owns, held or not.
abbrev pub wealth : Option Wallet → Option ℤ
wealth none = none
wealth (some x) = some (total_balance x)

module _ {W : Type 0} (p : Platform W) (purse : W → Option Wallet) (u : ℕ) where
  abbrev pub Unmoved : {A : Type 0} → M W A → Type 0
  Unmoved m = (w : W) → purse (m w).1 ≡ purse w

  -- What the release relies on of the stored wallet of user `u`: reads change nothing, a wallet of
  -- the user that is read is the one stored, and a save stores it or changes nothing.
  pub record PurseLaws : Type 0 where
    pub id_unmoved : (w : W) → purse (p.runtime.generate_id w).1 ≡ purse w
    pub auction_unmoved : (i : ℕ) → Unmoved (p.auctions.find_by_id i)
    pub participants_unmoved : (i : ℕ) → Unmoved (p.participants.find_by_auction_id i)
    pub ratio_unmoved : Unmoved p.config.auction_participant_initial_deposit_ratio
    pub find_unmoved : (i : ℕ) → Unmoved (p.wallets.find_by_user_id i)
    pub read_law :
        (i : ℕ) (w : W)
        → Post
            (λ o w'. (x : Wallet) → o ≡ some x → x.user_id ≡ u → purse w ≡ some x)
            (λ w'. Unit {0})
            (p.wallets.find_by_user_id i w)
    pub store_law :
        (x : Wallet) (w : W)
        → (purse (p.wallets.save x w).1 ≡ purse w)
          ⊎ ((x.user_id ≡ u) × (purse (p.wallets.save x w).1 ≡ some x))

  module _ (laws : PurseLaws) (v : Option ℤ) where
    -- The user owns `v`.
    abbrev Owns : W → Type 0
    Owns w = wealth (purse w) ≡ v

    abbrev Owning : {A : Type 0} → A → W → Type 0
    Owning x w = Owns w

    any-Post : {A : Type 0} (r : Outcome A × W) → Owns r.1 → Post Owning Owns r
    any-Post (done x, w) h = h
    any-Post (failed e, w) h = h
    any-Post (thrown, w) h = h

    Unmoved-Post : {A : Type 0} (m : M W A) (w : W) → Unmoved m → Owns w → Post Owning Owns (m w)
    Unmoved-Post m w calm h = any-Post (m w) (ap wealth (calm w) ∙ h)

    tried-Post :
        {A : Type 0} (m : M W A) (w : W)
        → Unmoved m
        → Owns w
        → Post (Owning {A = Result A}) Owns (attempt m w)
    tried-Post m w calm h = kept (m w) (ap wealth (calm w) ∙ h)
      where
        kept :
            {A : Type 0} (r : Outcome A × W)
            → Owns r.1
            → Post (Owning {A = Result A}) Owns (attempted r)
        kept (done x, w') h' = h'
        kept (failed e, w') h' = h'
        kept (thrown, w') h' = h'

    -- The wallet of a participant, read: it is the one stored if it is that of user `u`.
    Read : Result (Option Wallet) → W → Type 0
    Read r w = Owns w × ((x : Wallet) → r ≡ ok (some x) → x.user_id ≡ u → purse w ≡ some x)

    Read-Post : (i : ℕ) (w : W) → Owns w → Post Read Owns (attempt (p.wallets.find_by_user_id i) w)
    unfolding Read
    Read-Post i w h =
        kept (p.wallets.find_by_user_id i w) (laws.find_unmoved i w) (laws.read_law i w)
      where
        kept :
            (r : Outcome (Option Wallet) × W)
            → purse r.1 ≡ purse w
            → Post
                (λ o w'. (x : Wallet) → o ≡ some x → x.user_id ≡ u → purse w ≡ some x)
                (λ w'. Unit {0})
                r
            → Post Read Owns (attempted r)
        kept (done o, w') s f = (ap wealth s ∙ h, λ x e j. let q : o ≡ some x = cc in s ∙ f x q j)
        kept (failed e, w') s f = (ap wealth s ∙ h, λ x q j. cc)
        kept (thrown, w') s f = ap wealth s ∙ h

    released_user : (n : ℤ) (x : Wallet) → x.user_id ≡ (release_held_balance n x).user_id
    unfolding release_held_balance
    released_user n x = refl

    -- A wallet saved with its deposit given back.
    released-Owns :
        (n : ℤ) (x : Wallet) (w : W)
        → Owns w
        → (x.user_id ≡ u → purse w ≡ some x)
        → Owns (p.wallets.save (release_held_balance n x) w).1
    released-Owns n x w h f = elim (laws.store_law (release_held_balance n x) w) [
      | inl same ↦ ap wealth same ∙ h
      | inr (i, stored) ↦
          ap wealth stored
          ∙ ap some (release-total n x)
          ∙ sym (ap wealth (f (released_user n x ∙ i)))
          ∙ h
    ]

    release_row-Owns :
        (n : ℤ) (r : Result (Option Wallet)) (w : W)
        → Read r w
        → Post Owning Owns (release_row p n r w)
    unfolding release_row Read
    release_row-Owns n (fail e) w (h, f) = h
    release_row-Owns n (ok none) w (h, f) = h
    release_row-Owns n (ok (some x)) w (h, f) =
        let (id, w1) = p.runtime.generate_id w in
        Post-and_then Owning Owning Owns (p.wallets.save (release_held_balance n x) w1) _
          (any-Post (p.wallets.save (release_held_balance n x) w1) (
            released-Owns n x w1 (ap wealth (laws.id_unmoved w) ∙ h)
              (λ i. laws.id_unmoved w ∙ f x refl i)))
          (λ y w2 h2. h2)

    release_each-Owns :
        (winner : Option ℕ) (n : ℤ) (rest : List AuctionParticipant) (w : W)
        → Owns w
        → Post Owning Owns (release_each p winner n rest w)
    unfolding release_each
    release_each-Owns winner n [] w h = h
    release_each-Owns winner n (x ∷ rest) w h =
        go (is_id winner x.user_id) (release_each-Owns winner n rest)
      where
        go :
            (t : Bool)
            → ((w' : W) → Owns w' → Post Owning Owns (release_each p winner n rest w'))
            → Post Owning Owns (
                (elim t as (λ z. M W (Unit {0})) [
                  | true ↦ release_each p winner n rest
                  | false ↦ attempt (p.wallets.find_by_user_id x.user_id) >>= λ row.
                      release_row p n row >>= λ u. release_each p winner n rest
                ])
                  w)
        go true ih = ih w h
        go false ih =
            Post-and_then Read Owning Owns (attempt (p.wallets.find_by_user_id x.user_id) w) _
              (Read-Post x.user_id w h)
              (λ r w1 q.
                Post-and_then Owning Owning Owns (release_row p n r w1) _
                  (release_row-Owns n r w1 q) (λ y w2 h2. ih w2 h2))

  -- Whatever `releaseParticipantsWallet` does and however it ends, a user owns as much as before:
  -- the sum of the free and the held balance of every stored wallet stays.
  pub release_participants-wealth :
      PurseLaws → (i : ℕ) (w : W) → wealth (purse (release_participants p i w).1) ≡ wealth (purse w)
  unfolding release_participants
  release_participants-wealth laws i w = ended (release_participants p i w) (
      Post-and_then Q Q E (attempt (p.auctions.find_by_id i) w) _
        (tried-Post laws v (p.auctions.find_by_id i) w (laws.auction_unmoved i) refl)
        (λ auction_row w1 h1.
          Post-and_then Q Q E (attempt (p.participants.find_by_auction_id i) w1) _
            (tried-Post laws v (p.participants.find_by_auction_id i) w1
              (laws.participants_unmoved i) h1)
            (λ rows w2 h2. Post-settled Q E rows w2 _ h2 (λ participants q.
              Post-settled Q E auction_row w2 _ h2 (λ found q'.
                Post-required Q E found auction_not_found w2 _ h2 (λ a q''.
                  Post-and_then Q Q E (p.config.auction_participant_initial_deposit_ratio w2) _
                    (Unmoved-Post laws v p.config.auction_participant_initial_deposit_ratio w2
                      laws.ratio_unmoved h2)
                    (λ ratio w3 h3.
                      release_each-Owns laws v a.winner_id (initial_deposit a ratio) participants w3
                        h3)))))))
    where
      v : Option ℤ
      v = wealth (purse w)

      Q : {A : Type 0} → A → W → Type 0
      Q x w' = wealth (purse w') ≡ wealth (purse w)

      E : W → Type 0
      E w' = wealth (purse w') ≡ wealth (purse w)

      ended : {A : Type 0} (r : Outcome A × W) → Post Q E r → wealth (purse r.1) ≡ wealth (purse w)
      ended (done x, w') h = h
      ended (failed e, w') h = h
      ended (thrown, w') h = h
