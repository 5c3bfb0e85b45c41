-- ===== src/Double/Shares.antt =====
-- How far a rounded share is from the exact one.
use native.Mathlib.Nat.{
  mul-le-mul_right, mul-le-mul_left, mul-lt-mul_of_pos_right, le_of_mul-le-mul_right,
  le_of_mul-le-mul_left, lt_of_mul-lt-mul_left, div-add-mod', mod-lt, div-le_of_le-mul,
  div-mul-le_self, lt-mul-div-succ, mul_comm,
}
use auction_platform_backend.Prelude.{
  ℕ, zero, suc, ◌+◌, ◌*◌, ◌/◌, ◌%◌, ◌≤◌, ◌<◌, ◌≡◌, refl, sym, if◌then◌else◌, ltb, true, false, Bool,
  arith,
}
use auction_platform_backend.Double.{
  two_to_52, two_to_53, round_div, doublings, last_bit, round_bits, floor_share,
}

-- A number that another one is reached from by doubling.
pub data Doubles : ℕ → ℕ → Type 0 where
  here : {c : ℕ} → Doubles c c
  twice : {c e : ℕ} → Doubles (2 * c) e → Doubles c e

factor : {c e : ℕ} → Doubles c e → (j : ℕ) × (e ≡ c * j) × (0 < j)
factor here = (1, omega arith, omega arith)
factor (twice h) = let (j, e, l) = factor h in (2 * j, grind arith, omega arith)

doublings-Doubles : (k a b p : ℕ) → Doubles p (doublings k a b p)
unfolding doublings
doublings-Doubles zero a b p = here
doublings-Doubles (suc k) a b p =
    let ih = doublings-Doubles k a b (2 * p) in go (ltb (a * p) (two_to_52 * b)) ih
  where
    go :
        (t : Bool)
        → Doubles (2 * p) (doublings k a b (2 * p))
        → Doubles p (if t then doublings k a b (2 * p) else p)
    go true h = twice h
    go false h = here

last_bit-Doubles : (k n c e : ℕ) → Doubles c e → n < two_to_53 * e → Doubles (last_bit k n c) e
unfolding last_bit
last_bit-Doubles zero n c e d h = d
last_bit-Doubles (suc k) n c e d h =
    go d h (ltb n (two_to_53 * c)) refl (λ f. last_bit-Doubles k n (2 * c) e f h)
  where
    go :
        {e' : ℕ}
        → Doubles c e'
        → n < two_to_53 * e'
        → (t : Bool) → ltb n (two_to_53 * c) ≡ t
        → (Doubles (2 * c) e' → Doubles (last_bit k n (2 * c)) e')
        → Doubles (if t then c else last_bit k n (2 * c)) e'
    go d' h' true q ih = d'
    go here h' false q ih = absurd (ground arith)
    go (twice f) h' false q ih = ih f

scaled : ℕ → ℕ → ℕ
scaled zero y = y
scaled (suc k) y = scaled k (2 * y)

-- A rounded quotient is within a half.
near_of :
    (n d q r t : ℕ) (b c : Bool)
    → n ≡ q * d + r
    → r < d
    → t < 2
    → ltb (2 * r) d ≡ b
    → ltb d (2 * r) ≡ c
    → (2 * ((if b then q else if c then q + 1 else q + t) * d) ≤ 2 * n + d)
      × (2 * n ≤ 2 * ((if b then q else if c then q + 1 else q + t) * d) + d)
near_of n d q r t true c e h l f g = (grind arith, grind arith)
near_of n d q r t false true e h l f g = (grind arith, grind arith)
near_of n d q r zero false false e h l f g = (grind arith, grind arith)
near_of n d q r (suc zero) false false e h l f g = (grind arith, grind arith)
near_of n d q r (suc (suc t)) false false e h l f g = absurd (omega arith)

round_div-near :
    (n d : ℕ)
    → 0 < d
    → (2 * (round_div n d * d) ≤ 2 * n + d) × (2 * n ≤ 2 * (round_div n d * d) + d)
unfolding round_div
round_div-near n d h =
    near_of n d (n / d) (n % d) (n / d % 2) _ _ (sym (div-add-mod' n d)) (mod-lt n h)
      (mod-lt (n / d) (omega arith)) refl refl

-- A quotient that is at most a whole number is so rounded.
near-le : (n d r c : ℕ) → 0 < d → 2 * (r * d) ≤ 2 * n + d → n ≤ c * d → r ≤ c
near-le n d r c p h k = grind arith

scaled-le : (k x y : ℕ) → x ≤ y → scaled k x ≤ scaled k y
unfolding scaled
scaled-le zero x y h = h
scaled-le (suc k) x y h = scaled-le k (2 * x) (2 * y) (omega arith)

-- Enough doublings make `a` as large as wanted.
doublings-enough :
    (k a b p : ℕ) → two_to_52 * b ≤ scaled k (a * p) → two_to_52 * b ≤ a * doublings k a b p
unfolding doublings scaled
doublings-enough zero a b p h = h
doublings-enough (suc k) a b p h =
    go (ltb (a * p) (two_to_52 * b)) refl (doublings-enough k a b (2 * p) (rw (sym (swap a p)) h))
  where
    swap : (a p : ℕ) → 2 * (a * p) ≡ a * (2 * p)
    swap a p = grind arith

    go :
        (t : Bool)
        → ltb (a * p) (two_to_52 * b) ≡ t
        → two_to_52 * b ≤ a * doublings k a b (2 * p)
        → two_to_52 * b ≤ a * (if t then doublings k a b (2 * p) else p)
    go true q ih = ih
    go false q ih = ground arith

two_to_105 : scaled 105 1 ≡ 40564819207303340847894502572032
unfolding scaled
two_to_105 = refl

-- A positive number below a bound is multiplied by at least 2 ^ 52.
doublings-large : (a b : ℕ) → 0 < a → a ≤ b → b < two_to_53 → two_to_52 ≤ doublings 105 a b 1
doublings-large a b h k l =
    large a b (doublings 105 a b 1) h k (
      doublings-enough 105 a b 1 (omega (arith, scaled-le 105 1 (a * 1) (omega arith), two_to_105)))
  where
    large : (a b p : ℕ) → 0 < a → a ≤ b → two_to_52 * b ≤ a * p → two_to_52 ≤ p
    large a b p h k l =
        le_of_mul-le-mul_right {k = b} (omega (arith, l, mul-le-mul_right p k, mul_comm b p))
          (omega arith)

-- Two roundings and the cut after the point move a share by less than 2.
upper :
    (price left t e m v f : ℕ)
    → 0 < e
    → price ≤ e
    → 2 * (m * t) ≤ 2 * (left * e) + t
    → 2 * v ≤ 2 * (price * m) + e
    → f * e ≤ v
    → f * t ≤ price * left + t
upper price left t e m v f pos small h k l =
    le_of_mul-le-mul_left {k = e}
      (grind (
        arith,
        mul-le-mul_right t k,
        mul-le-mul_right t l,
        mul-le-mul_left price h,
        mul-le-mul_right t small,
      ))
      pos

lower :
    (price left t e m v f : ℕ)
    → 0 < e
    → 0 < t
    → price ≤ e
    → 2 * (left * e) ≤ 2 * (m * t) + t
    → 2 * (price * m) ≤ 2 * v + e
    → v < (f + 1) * e
    → price * left < (f + 2) * t
lower price left t e m v f pos pos_t small h k l = lt_of_mul-lt-mul_left e (
    grind (
      arith,
      mul-le-mul_right t k,
      mul-lt-mul_of_pos_right l pos_t,
      mul-le-mul_left price h,
      mul-le-mul_right t small,
    ))

-- Rounding at a unit that a power of two is a multiple of.
unit-near :
    (n price e c j r : ℕ)
    → 0 < c
    → e ≡ c * j
    → 0 < j
    → 2 * (r * c) ≤ 2 * n + c
    → 2 * n ≤ 2 * (r * c) + c
    → n ≤ price * e
    → (2 * (r * c) ≤ 2 * n + e) × (2 * n ≤ 2 * (r * c) + e) × (r * c ≤ price * e)
unit-near n price e c j r pos q pos_j up down h =
    let small : c * 1 ≤ c * j = mul-le-mul_left c pos_j in
    let same : price * j * c ≡ price * e = rw q (grind arith) in
    let least = near-le n c r (price * j) pos up (rw same h) in
    (
      omega (arith, small, q, up),
      omega (arith, small, q, down),
      omega (arith, same, mul-le-mul_right c least),
    )

unit-positive : (e c j : ℕ) → 0 < e → e ≡ c * j → 0 < c
unit-positive e zero j h q = absurd (omega (arith, h, q))
unit-positive e (suc c) j h q = omega arith

-- A number of at most a price times a power of two, rounded.
round_bits-near :
    (n price e : ℕ)
    → Doubles 1 e
    → 0 < e
    → price < two_to_53
    → n ≤ price * e
    → (2 * round_bits n ≤ 2 * n + e) × (2 * n ≤ 2 * round_bits n + e) × (round_bits n ≤ price * e)
unfolding round_bits
round_bits-near n price e d pos small h =
    let (j, q, pos_j) =
      factor (last_bit-Doubles 53 n 1 e d (omega (arith, h, mul-lt-mul_of_pos_right small pos))) in
    let pos_c = unit-positive e (last_bit 53 n 1) j pos q in
    let (up, down) = round_div-near n (last_bit 53 n 1) pos_c in
    unit-near n price e (last_bit 53 n 1) j (round_div n (last_bit 53 n 1)) pos_c q pos_j up down h

-- For whole numbers below 2 ^ 53, the share of a price that the code computes is no more than the
-- price, and no more than 1 above the exact share and less than 2 below it.
pub floor_share-IsNear :
    (price left total : ℕ)
    → price ≤ two_to_52
    → 0 < left
    → left ≤ total
    → total < two_to_53
    → (floor_share price left total ≤ price)
      × (floor_share price left total * total ≤ price * left + total)
      × (price * left < (floor_share price left total + 2) * total)
unfolding floor_share
floor_share-IsNear price left total cheap some_left part short =
    let e = doublings 105 left total 1 in
    let large = doublings-large left total some_left part short in
    let m = round_div (left * e) total in
    let (up, down) = round_div-near (left * e) total (omega arith) in
    let least =
      near-le (left * e) total m e (omega arith) up
        (omega (arith, mul-le-mul_right e part, mul_comm e total)) in
    let (above, below, bound) =
      round_bits-near (price * m) price e (doublings-Doubles 105 left total 1)
        (omega (arith, large)) (omega arith) (mul-le-mul_left price least) in
    let v = round_bits (price * m) in
    (
      div-le_of_le-mul e (omega (arith, bound, mul_comm price e)),
      upper price left total e m v (v / e) (omega (arith, large)) (omega (arith, large, cheap)) up
          above (div-mul-le_self v e),
      lower price left total e m v (v / e) (omega (arith, large)) (omega arith)
          (omega (arith, large, cheap)) down below
          (rw (mul_comm (v / e + 1) e) (lt-mul-div-succ v (omega (arith, large)))),
    )
