-- ===== src/Outcome/Post.antt =====
-- Postconditions of asynchronous methods, and the rules by which they are proved.
use auction_platform_backend.Prelude.{Bool, true, false, Option, none, some, ◌≡◌, refl}
use auction_platform_backend.Outcome.{
  Error, Result, ok, fail, Outcome, done, failed, thrown, M, and_then, attempted, caught, settle,
  value_of, require, fail_if, throw_if,
}

module _ {W A : Type 0} (Q : A → W → Type 0) (E : W → Type 0) where
  -- `Q` of the value and the world if the call is done, and `E` of the world if it is not.
  abbrev pub Post : Outcome A × W → Type 0
  Post (done a, w) = Q a w
  Post (failed e, w) = E w
  Post (thrown, w) = E w

module _ {W A B : Type 0} (Q : A → W → Type 0) (R : B → W → Type 0) (E : W → Type 0) where
  pub Post-and_then :
      (r : Outcome A × W) (f : A → M W B)
      → Post Q E r
      → ((a : A) (w : W) → Q a w → Post R E (f a w))
      → Post R E (and_then r f)
  Post-and_then (done a, w) f h k = k a w h
  Post-and_then (failed e, w) f h k = h
  Post-and_then (thrown, w) f h k = h

module _ {W A : Type 0} (Q : A → W → Type 0) (E : W → Type 0) where
  -- A weaker postcondition.
  pub Post-weaken :
      (R : A → W → Type 0) (F : W → Type 0) (r : Outcome A × W)
      → Post Q E r
      → ((a : A) (w : W) → Q a w → R a w)
      → ((w : W) → E w → F w)
      → Post R F r
  Post-weaken R F (done a, w) h q e = q a w h
  Post-weaken R F (failed x, w) h q e = e w h
  Post-weaken R F (thrown, w) h q e = e w h

  pub Post-caught : (r : Outcome A × W) (e : Error) → Post Q E r → Post Q E (caught r e)
  Post-caught (done a, w) e h = h
  Post-caught (failed x, w) e h = h
  Post-caught (thrown, w) e h = h

module _ {W B : Type 0} (R : B → W → Type 0) (E : W → Type 0) where
  -- A test: what follows may use that it did not fire.
  pub Post-guarded :
      (c : Bool) (e : Error) (w : W) (f : Unit {0} → M W B)
      → E w
      → (c ≡ false → Post R E (f tt w))
      → Post R E (and_then (fail_if c e w) f)
  Post-guarded true e w f h k = h
  Post-guarded false e w f h k = k refl

  -- A test that throws.
  pub Post-thrown :
      (c : Bool) (w : W) (f : Unit {0} → M W B)
      → E w
      → (c ≡ false → Post R E (f tt w))
      → Post R E (and_then (throw_if c w) f)
  Post-thrown true w f h k = h
  Post-thrown false w f h k = k refl

  -- A value that must not be null.
  pub Post-required :
      {A : Type 0} (o : Option A) (e : Error) (w : W) (f : A → M W B)
      → E w
      → ((a : A) → o ≡ some a → Post R E (f a w))
      → Post R E (and_then (require o e w) f)
  Post-required none e w f h k = h
  Post-required (some a) e w f h k = k a refl

  -- A result that must not be a failure.
  pub Post-settled :
      {A : Type 0} (r : Result A) (w : W) (f : A → M W B)
      → E w
      → ((a : A) → r ≡ ok a → Post R E (f a w))
      → Post R E (and_then (settle r w) f)
  Post-settled (ok a) w f h k = k a refl
  Post-settled (fail e) w f h k = h

  -- The value of a result, which throws if it is a failure.
  pub Post-valued :
      {A : Type 0} (r : Result A) (w : W) (f : A → M W B)
      → E w
      → ((a : A) → r ≡ ok a → Post R E (f a w))
      → Post R E (and_then (value_of r w) f)
  Post-valued (ok a) w f h k = k a refl
  Post-valued (fail e) w f h k = h

module _ {W A : Type 0} (Q : A → W → Type 0) (E : W → Type 0) where
  -- Two postconditions of one call.
  pub Post-both :
      (R : A → W → Type 0) (F : W → Type 0) (r : Outcome A × W)
      → Post Q E r
      → Post R F r
      → Post (λ a w. Q a w × R a w) E r
  Post-both R F (done a, w) h k = (h, k)
  Post-both R F (failed x, w) h k = h
  Post-both R F (thrown, w) h k = h

  -- A call whose failure is kept as a value.
  pub Post-attempted :
      (R : Result A → W → Type 0) (F : W → Type 0) (r : Outcome A × W)
      → Post Q E r
      → ((a : A) (w : W) → Q a w → R (ok a) w)
      → ((e : Error) (w : W) → E w → R (fail e) w)
      → ((w : W) → E w → F w)
      → Post R F (attempted r)
  Post-attempted R F (done a, w) h q e t = q a w h
  Post-attempted R F (failed x, w) h q e t = e x w h
  Post-attempted R F (thrown, w) h q e t = t w h
