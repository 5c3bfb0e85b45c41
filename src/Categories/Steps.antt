-- ===== src/Categories/Steps.antt =====
-- What the calls rely on of the table of categories, and what each of them makes of a category.
use auction_platform_backend.Prelude.{ℕ, ◌≡◌, sym, ◌∙◌, ◌⊎◌, inl, inr, Bool, Option, none, some}
use Prim.Native.String.{String}
use auction_platform_backend.Outcome.{
  Outcome, done, failed, thrown, M, and_then, attempted, return, attempt, require, gives, fail_if,
  ◌>>=◌, ◌>>◌, category_exists, category_not_found,
}
use auction_platform_backend.Outcome.Post.{Post}
use auction_platform_backend.Outcome.World.{
  after-Post, after-attempted, after-guarded, after-settled, after-valued,
}
use auction_platform_backend.Auction.Category.{
  AuctionCategory, pending_category, approve, verify, reject, change_active_status, set_name,
  set_parent_id,
}
use auction_platform_backend.Categories.{
  CategoryPlatform, CategoryInput, is_found, create_slug, approved_category, after, create_category,
  request_category, approve_category, reject_category, change_category_status, update_category,
}
use auction_platform_backend.Categories.Standing.{
  IsSound, Keeps, Follows, Follows-refl, reject-Keeps, approve-Keeps, change_active_status-Keeps,
  set-Keeps, create_slug-ne_empty, approved_category-IsSound, pending_category-IsSound,
  approved_category-id, pending_category-id,
}

-- `view` gives the stored category with the identifier `u`.
module _ {W : Type 0} (d : CategoryPlatform W) (view : W → Option AuctionCategory) (u : ℕ) where
  open d use {generate_id, slugify, find_by_id, find_by_slug, save}

  -- What a row found by its identifier tells of the category.
  abbrev pub Tells : ℕ → Option AuctionCategory → Option AuctionCategory → Type 0
  Tells i s none = Unit {0}
  Tells i s (some c) = c.id ≡ u → s ≡ some c

  pub record TableLaws : Type 0 where
    pub id_keeps : (w : W) → view (generate_id w).1 ≡ view w
    pub id_fresh : (w : W) → (generate_id w).0 ≡ u → view w ≡ none
    pub slug_keeps : (s : String) (w : W) → view (find_by_slug s w).1 ≡ view w
    pub find_keeps : (i : ℕ) (w : W) → view (find_by_id i w).1 ≡ view w
    pub find_law :
        (i : ℕ) (w : W) → Post (λ o w'. Tells i (view w) o) (λ w'. Unit {0}) (find_by_id i w)
    pub save_law :
        (c : AuctionCategory) (w : W)
        → (view (save c w).1 ≡ view w) ⊎ ((c.id ≡ u) × (view (save c w).1 ≡ some c))

  module _ (laws : TableLaws) (s : Option AuctionCategory) where
    abbrev pub Fine : W → Type 0
    Fine w = Follows s (view w)

    here : (w : W) → view w ≡ s → Fine w
    here w e = rw e (Follows-refl s)

    -- The end of a call: a save whose result nothing reads.
    saved_last :
        (c : AuctionCategory) (w : W)
        → view w ≡ s
        → (c.id ≡ u → Follows s (some c))
        → Fine ((attempt (save c) >>= λ y. return c) w).1
    saved_last c w e may = after-attempted Fine (save c w) _ stored (λ y w1 h. h)
      where
        stored : Fine (save c w).1
        stored = elim (laws.save_law c w) [
          | inl same ↦ here (save c w).1 (same ∙ e)
          | inr (i, q) ↦ rw q (may i)
        ]

    -- A row is read, changed and saved.
    changed :
        (i : ℕ) (w : W) (f : AuctionCategory → M W AuctionCategory)
        → view w ≡ s
        → ((c : AuctionCategory) (w' : W) → view w' ≡ s → Tells i s (some c) → Fine (f c w').1)
        → Fine ((find_by_id i >>= λ o. require o category_not_found >>= f) w).1
    changed i w f e k = go (find_by_id i w) (laws.find_keeps i w ∙ e) (rw e at (laws.find_law i w))
      where
        go :
            (r : Outcome (Option AuctionCategory) × W)
            → view r.1 ≡ s
            → Post (λ o w'. Tells i s o) (λ w'. Unit {0}) r
            → Fine (and_then r (λ o. require o category_not_found >>= f)).1
        go (done none, w') q t = here w' q
        go (done (some c), w') q t = k c w' q t
        go (failed x, w') q t = here w' q
        go (thrown, w') q t = here w' q

    -- A row keeps its identifier, so what is saved is what becomes of the category read.
    replaced :
        (i : ℕ) (c c' : AuctionCategory)
        → Tells i s (some c)
        → Keeps c c'
        → c'.id ≡ u
        → Follows s (some c')
    replaced i c c' t keeps same = rw (t (sym keeps.same_id ∙ same)) keeps

    pub approved : (i : ℕ) (w : W) → view w ≡ s → Fine (approve_category d i w).1
    unfolding approve_category
    approved i w e = changed i w _ e λ c w1 e1 t.
        after-settled Fine (verify (after c (approve c))) w1 _ (here w1 e1) λ v hv.
          after-settled Fine (approve c) w1 _ (here w1 e1)
            λ b hb. saved_last v w1 e1 (replaced i c v t (approve-Keeps c v b hv hb))

    pub rejected : (i : ℕ) (r : String) (w : W) → view w ≡ s → Fine (reject_category d i r w).1
    unfolding reject_category
    rejected i r w e =
        changed i w _ e
          λ c w1 e1 t. saved_last (after c (reject r c)) w1 e1 (replaced i c _ t (reject-Keeps r c))

    pub switched : (i : ℕ) (b : Bool) (w : W) → view w ≡ s → Fine (change_category_status d i b w).1
    unfolding change_category_status
    switched i b w e = changed i w _ e λ c w1 e1 t.
        saved_last (change_active_status b c) w1 e1
          (replaced i c _ t (change_active_status-Keeps b c))

    pub updated :
        (i : ℕ) (n : String) (p : Option ℕ) (w : W)
        → view w ≡ s
        → Fine (update_category d i n p w).1
    unfolding update_category
    updated i n p w e = changed i w _ e λ c w1 e1 t.
        saved_last (set_parent_id p (set_name n c)) w1 e1 (replaced i c _ t (set-Keeps n p c))

    -- A new row has an identifier that no row had.
    new :
        (w : W) (c : AuctionCategory)
        → view w ≡ s
        → c.id ≡ (generate_id w).0
        → IsSound c
        → c.id ≡ u
        → Follows s (some c)
    new w c e same h i = rw (sym e ∙ laws.id_fresh w (sym same ∙ i)) h

    -- What follows the search for the slug.
    opened :
        (o : Option AuctionCategory) (make : ℕ → AuctionCategory) (w : W)
        → view w ≡ s
        → ((id : ℕ) → (make id).id ≡ id)
        → ((id : ℕ) → IsSound (make id))
        → Fine
            ((do
              fail_if (is_found o) category_exists
              id ← gives generate_id
              saved ← attempt (save (make id))
              return (make id))
              w).1
    opened o make w e same sound =
        after-guarded Fine (is_found o) category_exists w _ (here w e) λ unused.
          let id = (generate_id w).0 in
          saved_last (make id) (generate_id w).1 (laws.id_keeps w ∙ e)
            (new w (make id) e (same id) (sound id))

    steady : {A : Type 0} (r : Outcome A × W) → view r.1 ≡ s → Post (λ a w. view w ≡ s) Fine r
    steady (done a, w) q = q
    steady (failed x, w) q = here w q
    steady (thrown, w) q = here w q

    pub created : (x : CategoryInput) (w : W) → view w ≡ s → Fine (create_category d x w).1
    unfolding create_category
    created x w e = after-settled Fine (create_slug (slugify x.name)) w _ (here w e) λ slug h.
        after-Post Fine (λ o w1. view w1 ≡ s) (find_by_slug slug w) _
          (steady (find_by_slug slug w) (laws.slug_keeps slug w ∙ e))
          λ o w1 e1.
            opened o (λ id. approved_category id slug x) w1 e1 (approved_category-id slug x)
              λ id. approved_category-IsSound id slug x (create_slug-ne_empty _ slug h)

    pub requested : (x : CategoryInput) (w : W) → view w ≡ s → Fine (request_category d x w).1
    unfolding request_category
    requested x w e = after-settled Fine (create_slug (slugify x.name)) w _ (here w e) λ slug h.
        after-Post Fine (λ o w1. view w1 ≡ s) (attempted (find_by_slug slug w)) _
          (steady (attempted (find_by_slug slug w))
            (attempted_view (find_by_slug slug w) (laws.slug_keeps slug w ∙ e)))
          λ r w1 e1. after-valued Fine r w1 _ (here w1 e1) λ o q.
            opened o (λ id. pending_category id x.name slug x.parent_id x.user_id) w1 e1
              (λ id. pending_category-id id x.name slug x.parent_id x.user_id)
              λ id.
                pending_category-IsSound id x.name slug x.parent_id x.user_id
                  (create_slug-ne_empty _ slug h)
      where
        attempted_view : {A : Type 0} (r : Outcome A × W) → view r.1 ≡ s → view (attempted r).1 ≡ s
        attempted_view (done a, w) q = q
        attempted_view (failed x, w) q = q
        attempted_view (thrown, w) q = q
