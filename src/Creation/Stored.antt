-- ===== src/Creation/Stored.antt =====
-- The stored auctions around a call of createAuction.usecase.ts.
use auction_platform_backend.Prelude.{
  ℕ, ◌≤◌, ◌≡◌, refl, ◌∙◌, ap, sym, any, ◌==◌, ◌⊎◌, inl, inr, Bool, true, false, not, List, [], ◌∷◌,
  ltb, ◌+◌, arith,
}
use Prim.Native.String.{String}
use auction_platform_backend.Outcome.{
  Result, ok, Outcome, done, failed, thrown, M, and_then, attempted, settle, ◌>>=◌, fail_if,
  auction_limit_reached, category_not_found, start_price_too_low, max_extension_count_too_high,
}
use auction_platform_backend.Outcome.Post.{
  Post, Post-and_then, Post-guarded, Post-required, Post-settled, Post-attempted, Post-weaken,
}
use auction_platform_backend.Auction.{Auction, AuctionAsset, create}
use auction_platform_backend.Auction.Category.{AuctionCategory}
use auction_platform_backend.Services.{Platform}
use auction_platform_backend.Ending.{validate_pricing}
use auction_platform_backend.Creation.{
  InputAsset, AuctionInput, to_create_dto, validate, drafted, DraftServices, make_assets,
  create_auction,
}
use auction_platform_backend.Creation.Drafts.{
  IsDraftOf, Validated, validate-Validated, made_of, drafted-IsDraftOf,
}

module _ {W : Type 0} (p : Platform W) (sv : DraftServices W) (rows : W → List Auction)
    (lo hi : ℕ) where
  abbrev pub KeepsRows : {A : Type 0} → M W A → Type 0
  KeepsRows m = (w : W) → rows (m w).1 ≡ rows w

  -- No row has the identifier.
  abbrev pub IsFresh : ℕ → List Auction → Type 0
  IsFresh i s = any (λ a. a.id == i) s ≡ false

  IsFresh-same : (i : ℕ) (s t : List Auction) → t ≡ s → IsFresh i t → IsFresh i s
  IsFresh-same i s t e h = sym (ap (λ r. any (λ a. a.id == i) r) e) ∙ h

  -- What the use case relies on of the stored auctions and of the settings `lo` and `hi`: a new
  -- identifier is that of no row, only a save adds a row, a save under an identifier of no row that
  -- is done gives back the auction that it has added, and one that is not has added it or nothing.
  pub record DraftLaws : Type 0 where
    pub id_keeps : (w : W) → rows (p.runtime.generate_id w).1 ≡ rows w
    pub fresh_law : (w : W) → IsFresh (p.runtime.generate_id w).0 (rows w)
    pub number_keeps : (w : W) → rows (sv.generate_auction_number w).1 ≡ rows w
    pub may_keeps : (u : ℕ) → KeepsRows (sv.can_create_auction u)
    pub category_keeps : (i : ℕ) → KeepsRows (sv.find_category i)
    pub min_law :
        (w : W)
        → Post
            (λ n w'. (n ≡ lo) × (rows w' ≡ rows w))
            (λ w'. rows w' ≡ rows w)
            (p.config.auction_min_start_price w)
    pub max_law :
        (w : W)
        → Post
            (λ n w'. (n ≡ hi) × (rows w' ≡ rows w))
            (λ w'. rows w' ≡ rows w)
            (p.config.auction_max_max_extension_count w)
    pub save_law :
        (a : Auction) (w : W)
        → IsFresh a.id (rows w)
        → Post
            (λ b w'. (b ≡ a) × (rows w' ≡ a ∷ rows w))
            (λ w'. (rows w' ≡ rows w) ⊎ (rows w' ≡ a ∷ rows w))
            (p.auctions.save a w)

  -- An auction that the request may draft at these settings.
  abbrev pub IsPriced : AuctionInput → Auction → Type 0
  IsPriced input a = IsDraftOf input a × (lo ≤ a.start_price) × (a.max_extension_count ≤ hi)

  -- The auction given is the one row more.
  abbrev pub IsDrafted : AuctionInput → List Auction → Auction → W → Type 0
  IsDrafted input s a w = IsPriced input a × (rows w ≡ a ∷ s)

  -- There is at most one row more, and it is such an auction.
  abbrev pub HasAtMost : AuctionInput → List Auction → W → Type 0
  HasAtMost input s w = (rows w ≡ s) ⊎ ((a : Auction) × IsPriced input a × (rows w ≡ a ∷ s))

  module _ (laws : DraftLaws) (s : List Auction) where
    abbrev Same : {A : Type 0} → A → W → Type 0
    Same x w = rows w ≡ s

    abbrev Still : W → Type 0
    Still w = rows w ≡ s

    make_assets-keeps :
        (id i : ℕ) (xs : List InputAsset) (w : W) → rows (make_assets p sv id i xs w).1 ≡ rows w
    unfolding make_assets
    make_assets-keeps id i [] w = refl
    make_assets-keeps id i (x ∷ xs) w =
        make_assets-keeps id (i + 1) xs (p.runtime.generate_id w).1 ∙ laws.id_keeps w

    -- A setting read with its failure kept.
    setting-Is :
        (n : ℕ) (r : Outcome ℕ × W) (t : List Auction)
        → t ≡ s
        → Post (λ x w'. (x ≡ n) × (rows w' ≡ t)) (λ w'. rows w' ≡ t) r
        → Post (λ x w'. ((y : ℕ) → x ≡ ok y → y ≡ n) × (rows w' ≡ s)) Still (attempted r)
    setting-Is n r t e h =
        Post-attempted (λ x w'. (x ≡ n) × (rows w' ≡ t)) (λ w'. rows w' ≡ t)
          (λ x w'. ((y : ℕ) → x ≡ ok y → y ≡ n) × (rows w' ≡ s)) Still r h
          (λ x w' (q, k). ((λ y j. cc), k ∙ e)) (λ x w' k. ((λ y j. cc), k ∙ e)) (λ w' k. k ∙ e)

    pricing-Bounds :
        (a : Auction) (w : W)
        → rows w ≡ s
        → Post
            (λ x w'. (lo ≤ a.start_price) × (a.max_extension_count ≤ hi) × (rows w' ≡ s))
            Still
            (validate_pricing p a w)
    unfolding validate_pricing
    pricing-Bounds a w e =
        Post-and_then (Read lo) Good Still (attempted (p.config.auction_min_start_price w)) _
          (setting-Is lo (p.config.auction_min_start_price w) (rows w) e (laws.min_law w))
          (λ min w1 (low, e1).
            Post-and_then (Read hi) Good Still
              (attempted (p.config.auction_max_max_extension_count w1)) _
              (setting-Is hi (p.config.auction_max_max_extension_count w1) (rows w1) e1
                (laws.max_law w1))
              (λ max w2 (high, e2). Post-settled Good Still min w2 _ e2 (λ m i.
                Post-settled Good Still max w2 _ e2 (λ n j.
                  Post-guarded Good Still (ltb a.start_price m) start_price_too_low w2 _ e2 (λ dear.
                    last n (ltb n a.max_extension_count) w2 refl e2 (high n j)
                      (least m (low m i) dear))))))
      where
        Read : ℕ → Result ℕ → W → Type 0
        Read n x w' = ((y : ℕ) → x ≡ ok y → y ≡ n) × (rows w' ≡ s)

        Good : Unit {0} → W → Type 0
        Good x w' = (lo ≤ a.start_price) × (a.max_extension_count ≤ hi) × (rows w' ≡ s)

        least : (m : ℕ) → m ≡ lo → ltb a.start_price m ≡ false → lo ≤ a.start_price
        least m q h = ground arith

        most : (n : ℕ) → n ≡ hi → ltb n a.max_extension_count ≡ false → a.max_extension_count ≤ hi
        most n q h = ground arith

        last :
            (n : ℕ) (c : Bool) (w' : W)
            → ltb n a.max_extension_count ≡ c
            → rows w' ≡ s
            → n ≡ hi
            → lo ≤ a.start_price
            → Post Good Still (fail_if c max_extension_count_too_high w')
        last n true w' h q k b = q
        last n false w' h q k b = (b, most n k h, q)

    settled_draft :
        (input d : AuctionInput) (id : ℕ) (number : String) (c : AuctionCategory)
        (assets : List AuctionAsset) (a : Auction)
        → Validated input d
        → lo ≤ d.start_price
        → d.max_extension_count ≤ hi
        → create (drafted id number d c assets) ≡ ok a
        → IsPriced input a
    settled_draft input d id number c assets a v low high h =
        let (e, good) = made_of (drafted id number d c assets) a h in
        (drafted-IsDraftOf input d a id number c assets v h, rw e low, rw e high)

    id_of :
        (d : AuctionInput) (id : ℕ) (number : String) (c : AuctionCategory)
        (assets : List AuctionAsset) (a : Auction)
        → create (drafted id number d c assets) ≡ ok a
        → IsFresh id s
        → IsFresh a.id s
    id_of d id number c assets a h fresh =
        let (e, good) = made_of (drafted id number d c assets) a h in rw e fresh

    saved-IsDrafted :
        (input : AuctionInput) (a : Auction) (w : W)
        → rows w ≡ s
        → IsFresh a.id s
        → IsPriced input a
        → Post (IsDrafted input s) (HasAtMost input s) (p.auctions.save a w)
    saved-IsDrafted input a w e fresh good =
        Post-weaken (λ b w'. (b ≡ a) × (rows w' ≡ a ∷ rows w))
          (λ w'. (rows w' ≡ rows w) ⊎ (rows w' ≡ a ∷ rows w)) (IsDrafted input s)
          (HasAtMost input s) (p.auctions.save a w)
          (laws.save_law a w (IsFresh-same a.id (rows w) s (sym e) fresh))
          (λ b w' (q, r). rw q (good, rw r (ap (λ t. a ∷ t) e)))
          (λ w' r. elim r [
            | inl same ↦ inl (same ∙ e)
            | inr more ↦ inr (a, good, more ∙ ap (λ t. a ∷ t) e)
          ])

    create_auction-IsDrafted_from :
        (input : AuctionInput) (w : W)
        → rows w ≡ s
        → Post (IsDrafted input s) (HasAtMost input s) (create_auction p sv input w)
    unfolding create_auction
    create_auction-IsDrafted_from input w e =
        Post-settled R E (validate (to_create_dto input)) w _ (inl e) (λ d v.
          Post-and_then Same R E (sv.can_create_auction d.user_id w) _
            (calm (sv.can_create_auction d.user_id w) (laws.may_keeps d.user_id w ∙ e))
            (λ may w1 e1. Post-guarded R E (not may) auction_limit_reached w1 _ (inl e1) (λ free.
              Post-and_then Same R E (sv.find_category d.category_id w1) _
                (calm (sv.find_category d.category_id w1)
                  (laws.category_keeps d.category_id w1 ∙ e1))
                (λ found w2 e2. Post-required R E found category_not_found w2 _ (inl e2) (λ c q.
                  rest d (validate-Validated (to_create_dto input) d v) c
                    (p.runtime.generate_id w2).0
                    (sv.generate_auction_number (p.runtime.generate_id w2).1)
                    (laws.number_keeps (p.runtime.generate_id w2).1 ∙ (laws.id_keeps w2 ∙ e2))
                    (IsFresh-same (p.runtime.generate_id w2).0 s (rows w2) e2
                      (laws.fresh_law w2)))))))
      where
        R : Auction → W → Type 0
        R = IsDrafted input s

        E : W → Type 0
        E = HasAtMost input s

        calm : {A : Type 0} (r : Outcome A × W) → rows r.1 ≡ s → Post (Same {A = A}) E r
        calm (done x, w') q = q
        calm (failed x, w') q = inl q
        calm (thrown, w') q = inl q

        rest :
            (d : AuctionInput)
            → Validated input d
            → (c : AuctionCategory) (id : ℕ) (n : String × W) → rows n.1 ≡ s
            → IsFresh id s
            → let made = make_assets p sv id 0 d.assets n.1 in
              let a = drafted id n.0 d c made.0 in
              Post R E (
                and_then
                  (validate_pricing p a made.1)
                  (λ x. settle (create a) >>= λ a'. p.auctions.save a'))
        rest d v c id n e' fresh =
            let made = make_assets p sv id 0 d.assets n.1 in
            let a = drafted id n.0 d c made.0 in
            Post-and_then
              (λ x w'. (lo ≤ a.start_price) × (a.max_extension_count ≤ hi) × (rows w' ≡ s)) R E
              (validate_pricing p a made.1) _
              (Post-weaken
                (λ x w'. (lo ≤ a.start_price) × (a.max_extension_count ≤ hi) × (rows w' ≡ s)) Still
                (λ x w'. (lo ≤ a.start_price) × (a.max_extension_count ≤ hi) × (rows w' ≡ s)) E
                (validate_pricing p a made.1)
                (pricing-Bounds a made.1 (make_assets-keeps id 0 d.assets n.1 ∙ e')) (λ x w' h. h)
                (λ w' h. inl h))
              (λ x w' (low, high, k). Post-settled R E (create a) w' _ (inl k) (λ a' h.
                saved-IsDrafted input a' w' k (id_of d id n.0 c made.0 a' h fresh)
                  (settled_draft input d id n.0 c made.0 a' v low high h)))

  -- If a new identifier is that of no row, then however a call that creates an auction ends, the
  -- rows are as before or with one more in front, so that none is overwritten. The new one is a draft of
  -- the caller with the type, the price and the end of the request, in an approved category,
  -- without a winner, within the rules of its type and the settings of the platform. If the call
  -- is done, there is such a row, and it is the auction given.
  pub create_auction-IsDrafted :
      DraftLaws
      → (input : AuctionInput) (w : W)
      → Post (IsDrafted input (rows w)) (HasAtMost input (rows w)) (create_auction p sv input w)
  create_auction-IsDrafted laws input w = create_auction-IsDrafted_from laws (rows w) input w refl
