-- ===== src/Tests/Till.antt =====
-- A table of payments by their identifiers.
use auction_platform_backend.Prelude.{
  ℕ, ◌≡◌, ◌≢◌, refl, ◌∙◌, ap, ◌⊎◌, inl, inr, Bool, true, false, ◌==◌, Option, none, some, List, [],
  ◌∷◌, arith, if◌then◌else◌,
}
use auction_platform_backend.Outcome.{Outcome, done, failed, payment_not_found}
use auction_platform_backend.Payment.{Payment}
use auction_platform_backend.Services.{Platform}
use auction_platform_backend.Tests.Memory.{World, memory}

-- The row of an identifier.
abbrev pub row_at : ℕ → List Payment → Option Payment
row_at k [] = none
row_at k (y ∷ ys) = if y.id == k then some y else row_at k ys

-- A payment in place of the row of an identifier.
abbrev pub put : ℕ → Payment → List Payment → List Payment
put i x [] = []
put i x (y ∷ ys) = if y.id == i then record x { id = i } ∷ ys else y ∷ put i x ys

abbrev pub update_row : ℕ → Payment → World → Option Payment → Outcome Payment × World
update_row i x w none = (failed payment_not_found, w)
update_row i x w (some y) = (done x, record w { dues = put i x w.dues })

-- The memory with this table.
abbrev pub till : Platform World
till = record memory {
  payments = record memory.payments {
    find_by_id = λ i w. (done (row_at i w.dues), w);
    update = λ i x w. update_row i x w (row_at i w.dues);
  };
}

same_id : (i : ℕ) → (i == i) ≡ true
same_id i = ground arith

same_of : (j i : ℕ) → (j == i) ≡ true → i ≡ j
same_of j i h = ground arith

other_id : (i k : ℕ) → i ≢ k → (i == k) ≡ false
other_id i k n = ground arith

-- Two identifiers are the same or not.
pub same_or_not : (i k : ℕ) → (i ≡ k) ⊎ (i ≢ k)
same_or_not i k = go (i == k) refl
  where
    go : (t : Bool) → (i == k) ≡ t → (i ≡ k) ⊎ (i ≢ k)
    go true h = inl (ground arith)
    go false h = inr (λ e. ground arith)

pub row_at-id : (k : ℕ) (ys : List Payment) (x : Payment) → row_at k ys ≡ some x → x.id ≡ k
row_at-id k [] x e = cc
row_at-id k (y ∷ ys) x e = go (y.id == k) refl e (row_at-id k ys x)
  where
    go :
        (t : Bool)
        → (y.id == k) ≡ t
        → (if t then some y else row_at k ys) ≡ some x
        → (row_at k ys ≡ some x → x.id ≡ k)
        → x.id ≡ k
    go true h q ih = ground arith
    go false h q ih = ih q

-- An update of a row that is there changes this row.
pub row_at-put :
    (i : ℕ) (x y : Payment) (ys : List Payment)
    → row_at i ys ≡ some y
    → row_at i (put i x ys) ≡ some (record x { id = i })
row_at-put i x y [] e = cc
row_at-put i x y (z ∷ zs) e = go (z.id == i) refl e (row_at-put i x y zs)
  where
    go :
        (t : Bool)
        → (z.id == i) ≡ t
        → (if t then some z else row_at i zs) ≡ some y
        → (row_at i zs ≡ some y → row_at i (put i x zs) ≡ some (record x { id = i }))
        → row_at i (if t then record x { id = i } ∷ zs else z ∷ put i x zs)
          ≡ some (record x { id = i })
    go true h q ih = rw (same_id i) refl
    go false h q ih = rw h (ih q)

-- It leaves the other rows.
pub row_at-put_other :
    (i k : ℕ) (x : Payment) (ys : List Payment) → i ≢ k → row_at k (put i x ys) ≡ row_at k ys
row_at-put_other i k x [] n = refl
row_at-put_other i k x (z ∷ zs) n = go (z.id == i) refl (row_at-put_other i k x zs n)
  where
    go :
        (t : Bool)
        → (z.id == i) ≡ t
        → row_at k (put i x zs) ≡ row_at k zs
        → row_at k (if t then record x { id = i } ∷ zs else z ∷ put i x zs) ≡ row_at k (z ∷ zs)
    go true h ih = rw (other_id i k n, other_id z.id k (λ e. n (same_of z.id i h ∙ e))) refl
    go false h ih = ap (λ o. if z.id == k then some z else o) ih
