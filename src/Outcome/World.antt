-- ===== src/Outcome/World.antt =====
-- What holds of the world after a call, however it ends.
use auction_platform_backend.Prelude.{Bool, true, false, Option, none, some, ◌≡◌, refl}
use auction_platform_backend.Outcome.{
  Error, Result, ok, fail, Outcome, done, failed, thrown, M, and_then, attempted, caught, settle,
  settle_as, unwrap, value_of, require, fail_if, throw_if,
}
use auction_platform_backend.Outcome.Post.{Post}

module _ {W : Type 0} (P : W → Type 0) where
  -- A call, and what follows it.
  pub after-and_then :
      {A B : Type 0} (r : Outcome A × W) (f : A → M W B)
      → P r.1
      → ((a : A) (w : W) → P w → P (f a w).1)
      → P (and_then r f).1
  after-and_then (done a, w) f h k = k a w h
  after-and_then (failed e, w) f h k = h
  after-and_then (thrown, w) f h k = h

  -- A call that tells something of its value.
  pub after-Post :
      {A B : Type 0} (Q : A → W → Type 0) (r : Outcome A × W) (f : A → M W B)
      → Post Q P r
      → ((a : A) (w : W) → Q a w → P (f a w).1)
      → P (and_then r f).1
  after-Post Q (done a, w) f h k = k a w h
  after-Post Q (failed e, w) f h k = h
  after-Post Q (thrown, w) f h k = h

  -- A call whose failure is kept as a value.
  pub after-attempted :
      {A B : Type 0} (r : Outcome A × W) (f : Result A → M W B)
      → P r.1
      → ((x : Result A) (w : W) → P w → P (f x w).1)
      → P (and_then (attempted r) f).1
  after-attempted (done a, w) f h k = k (ok a) w h
  after-attempted (failed e, w) f h k = k (fail e) w h
  after-attempted (thrown, w) f h k = h

  pub after-guarded :
      {B : Type 0} (c : Bool) (e : Error) (w : W) (f : Unit {0} → M W B)
      → P w
      → (c ≡ false → P (f tt w).1)
      → P (and_then (fail_if c e w) f).1
  after-guarded true e w f h k = h
  after-guarded false e w f h k = k refl

  pub after-required :
      {A B : Type 0} (o : Option A) (e : Error) (w : W) (f : A → M W B)
      → P w
      → ((a : A) → o ≡ some a → P (f a w).1)
      → P (and_then (require o e w) f).1
  after-required none e w f h k = h
  after-required (some a) e w f h k = k a refl

  pub after-settled :
      {A B : Type 0} (r : Result A) (w : W) (f : A → M W B)
      → P w
      → ((a : A) → r ≡ ok a → P (f a w).1)
      → P (and_then (settle r w) f).1
  after-settled (ok a) w f h k = k a refl
  after-settled (fail e) w f h k = h

  pub after-settled_as :
      {A B : Type 0} (e : Error) (r : Result A) (w : W) (f : A → M W B)
      → P w
      → ((a : A) → r ≡ ok a → P (f a w).1)
      → P (and_then (settle_as e r w) f).1
  after-settled_as e (ok a) w f h k = k a refl
  after-settled_as e (fail x) w f h k = h

  pub after-unwrap :
      {A B : Type 0} (o : Option A) (w : W) (f : A → M W B)
      → P w
      → ((a : A) → o ≡ some a → P (f a w).1)
      → P (and_then (unwrap o w) f).1
  after-unwrap none w f h k = h
  after-unwrap (some a) w f h k = k a refl

  pub after-valued :
      {A B : Type 0} (r : Result A) (w : W) (f : A → M W B)
      → P w
      → ((a : A) → r ≡ ok a → P (f a w).1)
      → P (and_then (value_of r w) f).1
  after-valued (ok a) w f h k = k a refl
  after-valued (fail e) w f h k = h

  pub after-caught : {A : Type 0} (r : Outcome A × W) (e : Error) → P r.1 → P (caught r e).1
  after-caught (done a, w) e h = h
  after-caught (failed x, w) e h = h
  after-caught (thrown, w) e h = h

  pub after-thrown :
      {B : Type 0} (c : Bool) (w : W) (f : Unit {0} → M W B)
      → P w
      → (c ≡ false → P (f tt w).1)
      → P (and_then (throw_if c w) f).1
  after-thrown true w f h k = h
  after-thrown false w f h k = k refl

  -- The same as a postcondition.
  pub world-Post : {A : Type 0} (r : Outcome A × W) → P r.1 → Post (λ (x : A) w. P w) P r
  world-Post (done a, w) h = h
  world-Post (failed e, w) h = h
  world-Post (thrown, w) h = h

  pub attempted-Post :
      {A : Type 0} (r : Outcome A × W) → P r.1 → Post (λ (x : Result A) w. P w) P (attempted r)
  attempted-Post (done a, w) h = h
  attempted-Post (failed e, w) h = h
  attempted-Post (thrown, w) h = h
