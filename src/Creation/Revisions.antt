-- ===== src/Creation/Revisions.antt =====
-- The stored auctions around a call of updateAuction.usecase.ts.
use auction_platform_backend.Prelude.{
  ltb, ◌+◌, ℕ, ◌≡◌, ◌∙◌, refl, sym, ◌⊎◌, inl, inr, Bool, true, false, Option, some, List, [], ◌∷◌,
  not, ◌==◌,
}
use auction_platform_backend.Outcome.{
  Outcome, done, failed, thrown, fail_if, max_extension_count_too_high,
}
use auction_platform_backend.Outcome.Post.{Post}
use auction_platform_backend.Outcome.World.{
  after-Post, after-required, after-guarded, after-settled, after-attempted,
}
use auction_platform_backend.Auction.{Auction, is_draft, create}
use auction_platform_backend.Services.{Platform}
use auction_platform_backend.Ending.{validate_pricing}
use auction_platform_backend.Creation.{InputAsset, DraftServices, make_assets}
use auction_platform_backend.Creation.Updates.{
  AuctionUpdate, revised, chosen_assets, update_auction, IsRevision, revised-IsRevision,
}

-- `view` is the stored auction `k`.
module _ {W : Type 0} (p : Platform W) (s : DraftServices W) (view : W → Auction) (k : ℕ) where
  pub record RevisionLaws : Type 0 where
    pub find_law :
        (i : ℕ) (w : W)
        → Post
            (λ o w'. (view w' ≡ view w) × ((a : Auction) → o ≡ some a → a.id ≡ k → a ≡ view w))
            (λ w'. view w' ≡ view w)
            (p.auctions.find_by_id i w)
    pub id_keeps : (w : W) → view (p.runtime.generate_id w).1 ≡ view w
    pub category_keeps : (i : ℕ) (w : W) → view (s.find_category i w).1 ≡ view w
    pub min_keeps : (w : W) → view (p.config.auction_min_start_price w).1 ≡ view w
    pub max_keeps : (w : W) → view (p.config.auction_max_max_extension_count w).1 ≡ view w
    pub save_law :
        (a : Auction) (w : W)
        → (view (p.auctions.save a w).1 ≡ view w)
          ⊎ ((a.id ≡ k) × (view (p.auctions.save a w).1 ≡ a))

  -- The auction is as before, or a draft of the caller that has been changed.
  abbrev pub Revises : AuctionUpdate → Auction → W → Type 0
  Revises u v w = (view w ≡ v) ⊎ IsRevision u v (view w)

  module _ (laws : RevisionLaws) (v : Auction) where
    abbrev Same : W → Type 0
    Same w = view w ≡ v

    make_assets-Same :
        (id i : ℕ) (xs : List InputAsset) (w : W) → Same w → Same (make_assets p s id i xs w).1
    unfolding make_assets
    make_assets-Same id i [] w h = h
    make_assets-Same id i (x ∷ xs) w h =
        make_assets-Same id (i + 1) xs (p.runtime.generate_id w).1 (laws.id_keeps w ∙ h)

    chosen_assets-Same :
        (a : Auction) (xs : List InputAsset) (w : W) → Same w → Same (chosen_assets p s a xs w).1
    unfolding chosen_assets
    chosen_assets-Same a [] w h = h
    chosen_assets-Same a (x ∷ xs) w h = make_assets-Same a.id 0 (x ∷ xs) w h

    validate_pricing-Same : (a : Auction) (w : W) → Same w → Same (validate_pricing p a w).1
    unfolding validate_pricing
    validate_pricing-Same a w h =
        after-attempted Same (p.config.auction_min_start_price w) _ (laws.min_keeps w ∙ h)
          (λ min w1 h1.
            after-attempted Same (p.config.auction_max_max_extension_count w1) _
              (laws.max_keeps w1 ∙ h1)
              (λ max w2 h2. after-settled Same min w2 _ h2 (λ m q.
                after-settled Same max w2 _ h2 (λ n q'.
                  after-guarded Same (ltb a.start_price m) _ w2 _ h2
                    (λ dear. last (ltb n a.max_extension_count) w2 h2)))))
      where
        last :
            (c : Bool) (w2 : W)
            → view w2 ≡ v
            → view (fail_if c max_extension_count_too_high w2).1 ≡ v
        last true w2 h2 = h2
        last false w2 h2 = h2

    saved-Revises :
        (u : AuctionUpdate) (a b : Auction) (w : W)
        → (a.id ≡ k → a ≡ v)
        → IsRevision u a b
        → Same w
        → Revises u v (p.auctions.save b w).1
    saved-Revises u a b w mine r h = elim (laws.save_law b w) [
      | inl same ↦ inl (same ∙ h)
      | inr (here, now) ↦ inr (rw (now, sym (mine (sym r.same_id ∙ here))) r)
    ]

    update_auction-Revises_from :
        (u : AuctionUpdate) (w : W) → Same w → Revises u v (update_auction p s u w).1
    unfolding update_auction
    update_auction-Revises_from u w e =
        after-Post R (λ o w'. Same w' × ((a : Auction) → o ≡ some a → a.id ≡ k → a ≡ v))
          (p.auctions.find_by_id u.auction_id w) _
          (found (p.auctions.find_by_id u.auction_id w) (laws.find_law u.auction_id w))
          (λ o w1 (e1, f). after-required R o _ w1 _ (inl e1) (λ a q.
            after-guarded R (not (a.seller_id == u.user_id)) _ w1 _ (inl e1) (λ mine.
              after-guarded R (not (is_draft a.status)) _ w1 _ (inl e1) (λ drafted.
                after-Post R (λ row w'. Same w') (s.find_category u.category_id w1) _
                  (calm (s.find_category u.category_id w1)
                    (laws.category_keeps u.category_id w1 ∙ e1))
                  (λ row w2 e2. after-required R row _ w2 _ (inl e2) (λ c q'.
                    let made = chosen_assets p s a u.assets w2 in
                    let e3 = chosen_assets-Same a u.assets w2 e2 in
                    let b = revised a u c made.0 in
                    after-Post R (λ x w'. Same w') (validate_pricing p b made.1) _
                      (calm (validate_pricing p b made.1) (validate_pricing-Same b made.1 e3))
                      (λ x w4 e4. after-settled R (create b) w4 _ (inl e4) (λ b' h.
                        saved-Revises u a b' w4 (f a q)
                          (revised-IsRevision u a b' c made.0 mine drafted h) e4))))))))
      where
        R : W → Type 0
        R w' = Revises u v w'

        calm : {A : Type 0} (r : Outcome A × W) → Same r.1 → Post (λ x w'. Same w') R r
        calm (done x, w') q = q
        calm (failed x, w') q = inl q
        calm (thrown, w') q = inl q

        found :
            (r : Outcome (Option Auction) × W)
            → Post
                (λ o w'. (view w' ≡ view w) × ((a : Auction) → o ≡ some a → a.id ≡ k → a ≡ view w))
                (λ w'. view w' ≡ view w)
                r
            → Post (λ o w'. Same w' × ((a : Auction) → o ≡ some a → a.id ≡ k → a ≡ v)) R r
        found (done o, w') (q, f) = (q ∙ e, λ a z i. f a z i ∙ e)
        found (failed x, w') q = inl (q ∙ e)
        found (thrown, w') q = inl (q ∙ e)

  -- However a call that changes an auction ends, each stored auction is as before, or it was a draft
  -- of the caller and is one still, with the same number, extensions and winner, the price and the end
  -- of the request, and an approved category.
  pub update_auction-Revises :
      RevisionLaws → (u : AuctionUpdate) (w : W) → Revises u (view w) (update_auction p s u w).1
  update_auction-Revises laws u w = update_auction-Revises_from laws (view w) u w refl
