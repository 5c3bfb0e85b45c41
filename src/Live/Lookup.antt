-- ===== src/Live/Lookup.antt =====
-- Finding, changing and removing in lists.
use auction_platform_backend.Prelude.{
  Bool, true, false, none, some, List, [], ◌∷◌, ◌≡◌, refl, sym, not, find, filter, All,
  if◌then◌else◌,
}
use auction_platform_backend.Live.{update_first}

module _ {A : Type 0} (p : A → Bool) where
  pub All-update_first :
      (P : A → Type 0) (f : A → A) (xs : List A)
      → All P xs
      → ((x : A) → find p xs ≡ some x → P x → P (f x))
      → All P (update_first p f xs)
  All-update_first P f [] h k = h
  All-update_first P f (x ∷ xs) (hx, hs) k =
      go (p x) refl (λ e. All-update_first P f xs hs (λ y q. k y (rw e q)))
    where
      go :
          (b : Bool)
          → p x ≡ b
          → (p x ≡ false → All P (update_first p f xs))
          → All P (if b then f x ∷ xs else x ∷ update_first p f xs)
      go true e rest = (k x (rw e refl) hx, hs)
      go false e rest = (hx, rest e)

  pub All-filter : (P : A → Type 0) (xs : List A) → All P xs → All P (filter p xs)
  All-filter P [] h = h
  All-filter P (x ∷ xs) (hx, hs) = go (p x) (All-filter P xs hs)
    where
      go : (b : Bool) → All P (filter p xs) → All P (if b then x ∷ filter p xs else filter p xs)
      go true rest = (hx, rest)
      go false rest = rest

  -- What a change does to the element that is found, if that element is still accepted.
  pub find-update_first :
      (f : A → A) (x : A) (xs : List A)
      → find p xs ≡ some x
      → p (f x) ≡ true
      → find p (update_first p f xs) ≡ some (f x)
  find-update_first f x [] e still = absurd (cc e)
  find-update_first f x (y ∷ ys) e still = go (p y) refl e (λ h. find-update_first f x ys h still)
    where
      go :
          (b : Bool)
          → p y ≡ b
          → (if b then some y else find p ys) ≡ some x
          → (find p ys ≡ some x → find p (update_first p f ys) ≡ some (f x))
          → find p (if b then f y ∷ ys else y ∷ update_first p f ys) ≡ some (f x)
      go true q h rest = let same : y ≡ x = cc in rw (same, still) refl
      go false q h rest = rw q (rest h)

  -- Nothing is found where all that is accepted has been removed.
  pub find-filter : (xs : List A) → find p (filter (λ x. not (p x)) xs) ≡ none
  find-filter [] = refl
  find-filter (x ∷ xs) = go (p x) refl (find-filter xs)
    where
      go :
          (b : Bool)
          → p x ≡ b
          → find p (filter (λ x. not (p x)) xs) ≡ none
          → find p (if not b then x ∷ filter (λ x. not (p x)) xs else filter (λ x. not (p x)) xs)
            ≡ none
      go true q rest = rest
      go false q rest = rw q rest

  pub find-accepts :
      (P : A → Type 0) (x : A) (xs : List A) → All P xs → find p xs ≡ some x → P x × (p x ≡ true)
  find-accepts P x [] h e = absurd (cc e)
  find-accepts P x (y ∷ ys) (hy, hs) e = go (p y) refl e (find-accepts P x ys hs)
    where
      go :
          (b : Bool)
          → p y ≡ b
          → (if b then some y else find p ys) ≡ some x
          → (find p ys ≡ some x → P x × (p x ≡ true))
          → P x × (p x ≡ true)
      go true q h rest = let same : y ≡ x = cc in rw (sym same) (hy, q)
      go false q h rest = rest h
