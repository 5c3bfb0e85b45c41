-- ===== src/AutoBidConfigs/Steps.antt =====
-- A user has at most one configuration of an auction, and it stays the same one.
use auction_platform_backend.Prelude.{
  ℕ, ◌<◌, ◌≡◌, ◌∙◌, sym, refl, ◌⊎◌, inl, inr, Bool, true, false, Option, none, some, not, arith,
}
use auction_platform_backend.Outcome.{
  ok, Outcome, done, failed, thrown, and_then, settle, auction_not_found, auto_bid_only_for_active,
  auto_bid_only_for_long, config_exists, config_not_found,
}
use auction_platform_backend.Outcome.Post.{
  Post, Post-and_then, Post-guarded, Post-required, Post-settled, Post-both,
}
use auction_platform_backend.Auction.{is_active, is_long}
use auction_platform_backend.Auction.Bid.{
  AutoBidConfig, AutoBidStrategy, create_config, update_config, disable,
}
use auction_platform_backend.Services.{Platform}
use auction_platform_backend.AutoBidConfigs.{
  ConfigInput, is_set, new_config, create_auto_bid_config, update_auto_bid_config, disable_found,
  disable_auto_bid_config,
}

-- The same configuration, with other settings perhaps.
abbrev pub IsSame : AutoBidConfig → AutoBidConfig → Type 0
IsSame c c' =
    (c'.id ≡ c.id)
    × (c'.user_id ≡ c.user_id)
    × (c'.auction_id ≡ c.auction_id)
    × (c'.created_at ≡ c.created_at)

-- What may happen to the configuration of a user in an auction: nothing; a first one, active and
-- with a maximum above 0; other settings.
pub data ConfigStep : Option AutoBidConfig → Option AutoBidConfig → Type 0 where
  stay : {o : Option AutoBidConfig} → ConfigStep o o
  set_up :
      {c : AutoBidConfig} → c.is_active ≡ true → 0 < c.max_bid_amount → ConfigStep none (some c)
  change : {c c' : AutoBidConfig} → IsSame c c' → ConfigStep (some c) (some c')

made : (c c' : AutoBidConfig) → create_config c ≡ ok c' → (c' ≡ c) × (0 < c.max_bid_amount)
unfolding create_config
made c c' h = ground arith

module _ {W : Type 0} (p : Platform W) (view : W → Option AutoBidConfig) (u i : ℕ) where
  -- What the use cases rely on of the stored configuration of user `u` in auction `i`: reads change
  -- nothing and give it, and a save stores the configuration or changes nothing.
  pub record ConfigLaws : Type 0 where
    pub id_same : (w : W) → view (p.runtime.generate_id w).1 ≡ view w
    pub auction_same : (k : ℕ) (w : W) → view (p.auctions.find_by_id k w).1 ≡ view w
    pub find_same : (w : W) → view (p.configs.find_by_user_and_auction u i w).1 ≡ view w
    pub found_law :
        (w : W)
        → Post (λ o w'. o ≡ view w) (λ w'. Unit {0}) (p.configs.find_by_user_and_auction u i w)
    pub save_law :
        (c : AutoBidConfig) (w : W)
        → (view (p.configs.save c w).1 ≡ view w) ⊎ (view (p.configs.save c w).1 ≡ some c)

  module _ (laws : ConfigLaws) (o : Option AutoBidConfig) where
    abbrev End : W → Type 0
    End w = ConfigStep o (view w)

    abbrev Ends : {A : Type 0} → A → W → Type 0
    Ends x w = ConfigStep o (view w)

    abbrev Still : {A : Type 0} → A → W → Type 0
    Still x w = view w ≡ o

    still-End : (w : W) → view w ≡ o → End w
    still-End w e = rw e stay

    calm-Still : {A : Type 0} (r : Outcome A × W) → view r.1 ≡ o → Post Still End r
    calm-Still (done x, w) e = e
    calm-Still (failed x, w) e = still-End w e
    calm-Still (thrown, w) e = still-End w e

    any-Ends : {A : Type 0} (r : Outcome A × W) → End r.1 → Post Ends End r
    any-Ends (done x, w) h = h
    any-Ends (failed x, w) h = h
    any-Ends (thrown, w) h = h

    found-Still :
        (w : W)
        → view w ≡ o
        → Post (λ x w'. (view w' ≡ o) × (x ≡ o)) End (p.configs.find_by_user_and_auction u i w)
    found-Still w e =
        Post-both (λ x w'. view w' ≡ o) End (λ x w'. x ≡ o) (λ w'. Unit {0})
          (p.configs.find_by_user_and_auction u i w)
          (calm-Still (p.configs.find_by_user_and_auction u i w) (laws.find_same w ∙ e))
          (rw e at (laws.found_law w))

    saved-End :
        (c : AutoBidConfig) (w : W)
        → view w ≡ o
        → ConfigStep o (some c)
        → End (p.configs.save c w).1
    saved-End c w e s = elim (laws.save_law c w) [
      | inl same ↦ still-End (p.configs.save c w).1 (same ∙ e)
      | inr new ↦ rw new s
    ]

    none_of : (x : Option AutoBidConfig) → is_set x ≡ false → x ≡ none
    none_of none h = refl
    none_of (some c) h = cc

    -- A first configuration, saved.
    fresh-End :
        (input : ConfigInput) (w : W)
        → view w ≡ o
        → o ≡ none
        → Post Ends End (
            and_then
              (settle
                (create_config (
                  new_config
                    (p.runtime.generate_id w).0
                    input
                    (p.runtime.now (p.runtime.generate_id w).1)))
                (p.runtime.generate_id w).1)
              (λ c. p.configs.save c))
    fresh-End input w e q =
        let (id, w1) = p.runtime.generate_id w in
        let e1 = laws.id_same w ∙ e in
        Post-settled Ends End (create_config (new_config id input (p.runtime.now w1))) w1 _
          (still-End w1 e1)
          (λ c m.
            let (same, positive) = made (new_config id input (p.runtime.now w1)) c m in
            any-Ends (p.configs.save c w1)
              (saved-End c w1 e1 (rw (same, q) (set_up refl positive))))

    pub create-End :
        (input : ConfigInput) (w : W)
        → input.user_id ≡ u
        → input.auction_id ≡ i
        → view w ≡ o
        → Post Ends End (create_auto_bid_config p input w)
    unfolding create_auto_bid_config
    create-End input w j k e =
        Post-and_then Still Ends End (p.auctions.find_by_id input.auction_id w) _
          (calm-Still (p.auctions.find_by_id input.auction_id w)
            (laws.auction_same input.auction_id w ∙ e))
          (λ found w1 e1.
            Post-required Ends End found auction_not_found w1 _ (still-End w1 e1) (λ a q.
              Post-guarded Ends End (not (is_active a.status)) auto_bid_only_for_active w1 _
                (still-End w1 e1)
                (λ live.
                  Post-guarded Ends End (not (is_long a.auction_type)) auto_bid_only_for_long w1 _
                    (still-End w1 e1)
                    (λ open_bids.
                      Post-and_then (λ x w'. (view w' ≡ o) × (x ≡ o)) Ends End
                        (p.configs.find_by_user_and_auction input.user_id input.auction_id w1) _
                        (rw (j, k) (found-Still w1 e1))
                        (λ x w2 (e2, q2).
                          Post-guarded Ends End (is_set x) config_exists w2 _ (still-End w2 e2)
                            (λ free. fresh-End input w2 e2 (sym q2 ∙ none_of x free)))))))

    -- Another setting of the configuration stored, saved.
    changed-End :
        (c c' : AutoBidConfig) (w : W)
        → view w ≡ o
        → o ≡ some c
        → IsSame c c'
        → Post Ends End (p.configs.save c' w)
    changed-End c c' w e q s = any-Ends (p.configs.save c' w) (saved-End c' w e (rw q (change s)))

    updated-IsSame :
        (s : AutoBidStrategy) (n : ℕ) (on : Bool) (now : ℕ) (c : AutoBidConfig)
        → IsSame c (update_config s n on now c)
    unfolding update_config
    updated-IsSame s n on now c = (refl, refl, refl, refl)

    disabled-IsSame : (now : ℕ) (c : AutoBidConfig) → IsSame c (disable now c)
    unfolding disable
    disabled-IsSame now c = (refl, refl, refl, refl)

    pub update-End :
        (input : ConfigInput) (w : W)
        → input.user_id ≡ u
        → input.auction_id ≡ i
        → view w ≡ o
        → Post Ends End (update_auto_bid_config p input w)
    unfolding update_auto_bid_config
    update-End input w j k e =
        Post-and_then Still Ends End (p.auctions.find_by_id input.auction_id w) _
          (calm-Still (p.auctions.find_by_id input.auction_id w)
            (laws.auction_same input.auction_id w ∙ e))
          (λ found w1 e1.
            Post-required Ends End found auction_not_found w1 _ (still-End w1 e1) (λ a q.
              Post-guarded Ends End (not (is_long a.auction_type)) auto_bid_only_for_long w1 _
                (still-End w1 e1)
                (λ open_bids.
                  Post-and_then (λ x w'. (view w' ≡ o) × (x ≡ o)) Ends End
                    (p.configs.find_by_user_and_auction input.user_id input.auction_id w1) _
                    (rw (j, k) (found-Still w1 e1))
                    (λ x w2 (e2, q2).
                      Post-required Ends End x config_not_found w2 _ (still-End w2 e2) (λ c q3.
                        changed-End c
                          (update_config input.strategy input.max_bid_amount true (p.runtime.now w2)
                            c)
                          w2 e2 (sym q2 ∙ q3)
                          (updated-IsSame input.strategy input.max_bid_amount true
                            (p.runtime.now w2) c))))))

    pub disable-End : (w : W) → view w ≡ o → Post Ends End (disable_auto_bid_config p u i w)
    unfolding disable_auto_bid_config disable_found
    disable-End w e =
        Post-and_then (λ x w'. (view w' ≡ o) × (x ≡ o)) Ends End
          (p.configs.find_by_user_and_auction u i w) _ (found-Still w e)
          (λ x w1 (e1, q). there x w1 e1 (sym q))
      where
        there :
            (x : Option AutoBidConfig) (w1 : W)
            → view w1 ≡ o
            → o ≡ x
            → Post Ends End (disable_found p x w1)
        there none w1 e1 q = still-End w1 e1
        there (some c) w1 e1 q =
            Post-and_then Ends Ends End (p.configs.save (disable (p.runtime.now w1) c) w1) _
              (changed-End c (disable (p.runtime.now w1) c) w1 e1 q
                (disabled-IsSame (p.runtime.now w1) c))
              (λ y w2 h. h)

  -- A call by the user for the auction.
  pub data ConfigCommand : Type 0 where
    set_it change_it :
        (input : ConfigInput) → input.user_id ≡ u → input.auction_id ≡ i → ConfigCommand
    turn_off : ConfigCommand

  abbrev pub apply : ConfigCommand → W → W
  apply (set_it input j k) w = (create_auto_bid_config p input w).1
  apply (change_it input j k) w = (update_auto_bid_config p input w).1
  apply turn_off w = (disable_auto_bid_config p u i w).1

  ended :
      {A : Type 0} (o : Option AutoBidConfig) (r : Outcome A × W)
      → Post (λ x w. ConfigStep o (view w)) (λ w. ConfigStep o (view w)) r
      → ConfigStep o (view r.1)
  ended o (done x, w) h = h
  ended o (failed e, w) h = h
  ended o (thrown, w) h = h

  -- However a call of the three use cases ends, the configuration of a user in an auction is as
  -- before, or there was none and it is a first one, active and with a maximum above 0, or it is the
  -- same one with other settings: it is never removed or replaced.
  pub apply-ConfigStep :
      ConfigLaws → (c : ConfigCommand) (w : W) → ConfigStep (view w) (view (apply c w))
  apply-ConfigStep laws (set_it input j k) w =
      ended (view w) (create_auto_bid_config p input w) (create-End laws (view w) input w j k refl)
  apply-ConfigStep laws (change_it input j k) w =
      ended (view w) (update_auto_bid_config p input w) (update-End laws (view w) input w j k refl)
  apply-ConfigStep laws turn_off w =
      ended (view w) (disable_auto_bid_config p u i w) (disable-End laws (view w) w refl)
