-- ===== src/Winner/Fallback.antt =====
-- The next winner, after those who have not paid.
use auction_platform_backend.Prelude.{
  ℕ, ◌≡◌, ◌∙◌, sym, ap, refl, ◌⊎◌, inl, inr, Bool, true, false, Option, none, some, List, [], ◌∷◌,
  filter, not, Member, head, tail, if◌then◌else◌,
}
use auction_platform_backend.Outcome.{Result, ok, fail}
use auction_platform_backend.Auction.{Auction, is_sealed}
use auction_platform_backend.Auction.Bid.{Bid, AuctionWinner}
use auction_platform_backend.Services.{EncryptionService}
use auction_platform_backend.Winner.{
  WinnerResult, FallbackWinner, has_won, eligible_bids, resolve_winner, resolve_auction_winner,
  resolve_sealed_winner, max_bid, nobody, ranked, sealed_winner_from, no_winner,
}
use auction_platform_backend.Winner.Highest.{max_bid-in, winner_from-Highest}

Member-of_tested :
    {A : Type 0} (p : A → Bool) (x y : A) (xs ys : List A) (t : Bool)
    → p y ≡ t
    → Member x (if t then y ∷ xs else xs)
    → (Member x xs → (p x ≡ true) × Member x ys)
    → (p x ≡ true) × Member x (y ∷ ys)
Member-of_tested p x y xs ys true e head k = (e, head)
Member-of_tested p x y xs ys true e (tail m) k = let (q, m') = k m in (q, tail m')
Member-of_tested p x y xs ys false e m k = let (q, m') = k m in (q, tail m')

Member-of_filter :
    {A : Type 0} (p : A → Bool) (x : A) (xs : List A)
    → Member x (filter p xs)
    → (p x ≡ true) × Member x xs
Member-of_filter p x [] m = elim m [ ]
Member-of_filter p x (y ∷ ys) m =
    Member-of_tested p x y (filter p ys) ys (p y) refl m (Member-of_filter p x ys)

ranked-none :
    (rank : ℕ) (r : WinnerResult) (f : FallbackWinner) → ranked rank r none ≡ f → f.winner_id ≡ none
ranked-none rank r f e = sym (ap (λ (g : FallbackWinner). g.winner_id) e)

ranked-some :
    (rank u : ℕ) (r : WinnerResult) (f : FallbackWinner)
    → ranked rank r (some u) ≡ f
    → (f.winner_id ≡ some u) × (f.rank ≡ rank)
ranked-some rank u r f e =
    (sym (ap (λ (g : FallbackWinner). g.winner_id) e), sym (ap (λ (g : FallbackWinner). g.rank) e))

-- What a next winner is: nobody, or a bidder who has not won before, with the next rank.
abbrev pub IsNext : List AuctionWinner → List Bid → ℕ → FallbackWinner → Type 0
IsNext ws bs rank f =
    (f.winner_id ≡ none)
    ⊎ ((x : Bid) × Member x bs
        × (f.winner_id ≡ some x.user_id)
        × (has_won ws x.user_id ≡ false)
        × (f.rank ≡ rank))

not_won :
    (ws : List AuctionWinner) (bs : List Bid) (x : Bid)
    → Member x (eligible_bids ws bs)
    → (has_won ws x.user_id ≡ false) × Member x bs
not_won ws bs x m =
    let (q, m') = Member-of_filter (λ b. not (has_won ws b.user_id)) x bs m in
    (negated (has_won ws x.user_id) q, m')
  where
    negated : (t : Bool) → not t ≡ true → t ≡ false
    negated true e = sym e
    negated false e = refl

IsNext-open :
    (ws : List AuctionWinner) (bs es : List Bid) (rank : ℕ)
    → eligible_bids ws bs ≡ es
    → IsNext ws bs rank (resolve_auction_winner rank es)
unfolding resolve_auction_winner
IsNext-open ws bs [] rank e = inl refl
IsNext-open ws bs (b ∷ es) rank e =
    let (q, m) = not_won ws bs (max_bid b (b ∷ es)) (rw e (max_bid-in b es)) in
    inr (max_bid b (b ∷ es), m, refl, q, refl)

IsNext-ranked :
    (enc : EncryptionService) (ws : List AuctionWinner) (bs : List Bid) (rank : ℕ)
    (r : WinnerResult) (f : FallbackWinner)
    → sealed_winner_from enc no_winner (eligible_bids ws bs) ≡ ok r
    → ranked rank r r.winner_id ≡ f
    → IsNext ws bs rank f
IsNext-ranked enc ws bs rank r f h e =
    let (up, covered, from) = winner_from-Highest enc (eligible_bids ws bs) no_winner r h in
    elim from [
      | inl same ↦ inl (
          ranked-none rank r f
            (ap (ranked rank r) (sym (ap (λ (g : WinnerResult). g.winner_id) same)) ∙ e))
      | inr (x, m, won) ↦
          let (q, m') = not_won ws bs x m in
          let (u, k) = ranked-some rank x.user_id r f (ap (ranked rank r) (sym won.3) ∙ e) in
          inr (x, m', u, q, k)
    ]

IsNext-sealed :
    (enc : EncryptionService) (ws : List AuctionWinner) (bs : List Bid) (rank : ℕ)
    (f : FallbackWinner)
    → resolve_sealed_winner enc rank (eligible_bids ws bs) ≡ ok f
    → IsNext ws bs rank f
unfolding resolve_sealed_winner
IsNext-sealed enc ws bs rank f h =
    go (sealed_winner_from enc no_winner (eligible_bids ws bs)) refl h
  where
    go :
        (s : Result WinnerResult)
        → sealed_winner_from enc no_winner (eligible_bids ws bs) ≡ s
        → elim s [ ok r ↦ ok (ranked rank r r.winner_id) | fail e ↦ fail e ] ≡ ok f
        → IsNext ws bs rank f
    go (fail x) q e = cc
    go (ok r) q e = IsNext-ranked enc ws bs rank r f q cc

IsNext-by_type :
    (enc : EncryptionService) (t : Bool) (ws : List AuctionWinner) (bs es : List Bid) (rank : ℕ)
    (f : FallbackWinner)
    → eligible_bids ws bs ≡ es
    → (if t then resolve_sealed_winner enc rank es else ok (resolve_auction_winner rank es)) ≡ ok f
    → IsNext ws bs rank f
IsNext-by_type enc true ws bs es rank f e h =
    IsNext-sealed enc ws bs rank f (ap (resolve_sealed_winner enc rank) e ∙ h)
IsNext-by_type enc false ws bs es rank f e h =
    let same : resolve_auction_winner rank es ≡ f = cc in
    rw (sym same) (IsNext-open ws bs es rank e)

-- If a next winner is resolved from the bids of those who have not won before, then it is nobody,
-- or a bidder of the auction who is none of the previous winners, with the rank asked for.
pub resolve_winner-IsNext :
    (enc : EncryptionService) (found : Option Auction) (ws : List AuctionWinner) (bs : List Bid)
    (rank : ℕ) (f : FallbackWinner)
    → resolve_winner enc found rank (eligible_bids ws bs) ≡ ok f
    → IsNext ws bs rank f
unfolding resolve_winner
resolve_winner-IsNext enc found ws bs rank f h = go found (eligible_bids ws bs) refl h
  where
    go :
        (o : Option Auction) (es : List Bid)
        → eligible_bids ws bs ≡ es
        → resolve_winner enc o rank es ≡ ok f
        → IsNext ws bs rank f
    go o [] e h =
        let same : nobody false ≡ f = cc in
        inl (sym (ap (λ (g : FallbackWinner). g.winner_id) same))
    go none (b ∷ es) e h = cc
    go (some a) (b ∷ es) e h =
        IsNext-by_type enc (is_sealed a.auction_type) ws bs (b ∷ es) rank f e h
