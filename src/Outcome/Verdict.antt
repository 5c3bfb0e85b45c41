-- ===== src/Outcome/Verdict.antt =====
-- What a call answers: its value, or the message of its failure.
use auction_platform_backend.Prelude.{Bool, true, false, Option, none, some, ◌≡◌, refl, sym}
use auction_platform_backend.Outcome.{
  Error, Outcome, done, failed, thrown, M, and_then, attempted, Result, ok, fail, caught, settle,
  settle_as, require, fail_if,
}

module _ {W A : Type 0} (Q : A → Type 0) (F : Error → Type 0) where
  -- `Q` of the value of a call that is done, and `F` of the message of one that has failed.
  abbrev pub Verdict : Outcome A × W → Type 0
  Verdict (done a, w) = Q a
  Verdict (failed e, w) = F e
  Verdict (thrown, w) = Unit

module _ {W B : Type 0} (R : B → Type 0) (F : Error → Type 0) where
  pub Verdict-and_then :
      {A : Type 0} (Q : A → Type 0) (r : Outcome A × W) (f : A → M W B)
      → Verdict Q F r
      → ((a : A) (w : W) → Q a → Verdict R F (f a w))
      → Verdict R F (and_then r f)
  Verdict-and_then Q (done a, w) f h k = k a w h
  Verdict-and_then Q (failed e, w) f h k = h
  Verdict-and_then Q (thrown, w) f h k = tt

  pub Verdict-required :
      {A : Type 0} (o : Option A) (e : Error) (w : W) (f : A → M W B)
      → F e
      → ((a : A) → o ≡ some a → Verdict R F (f a w))
      → Verdict R F (and_then (require o e w) f)
  Verdict-required none e w f h k = h
  Verdict-required (some a) e w f h k = k a refl

  pub Verdict-guarded :
      (c : Bool) (e : Error) (w : W) (f : Unit {0} → M W B)
      → (c ≡ true → F e)
      → (c ≡ false → Verdict R F (f tt w))
      → Verdict R F (and_then (fail_if c e w) f)
  Verdict-guarded true e w f h k = h refl
  Verdict-guarded false e w f h k = k refl

  pub Verdict-settled :
      {A : Type 0} (r : Result A) (w : W) (f : A → M W B)
      → ((e : Error) → F e)
      → ((a : A) → r ≡ ok a → Verdict R F (f a w))
      → Verdict R F (and_then (settle r w) f)
  Verdict-settled (ok a) w f h k = k a refl
  Verdict-settled (fail e) w f h k = h e

  pub Verdict-settled_as :
      {A : Type 0} (e : Error) (r : Result A) (w : W) (f : A → M W B)
      → F e
      → ((a : A) → r ≡ ok a → Verdict R F (f a w))
      → Verdict R F (and_then (settle_as e r w) f)
  Verdict-settled_as e (ok a) w f h k = k a refl
  Verdict-settled_as e (fail x) w f h k = h

  -- A call whose failure is kept as a value.
  pub Verdict-attempted :
      {A : Type 0} (Q : A → Type 0) (r : Outcome A × W) (f : Result A → M W B)
      → Verdict Q (λ e. Unit {0}) r
      → ((x : Result A) (w : W) → ((a : A) → x ≡ ok a → Q a) → Verdict R F (f x w))
      → Verdict R F (and_then (attempted r) f)
  Verdict-attempted Q (done a, w) f h k =
      k (ok a) w (λ b e. let same : a ≡ b = cc in rw (sym same) h)
  Verdict-attempted Q (failed e, w) f h k = k (fail e) w (λ b q. cc)
  Verdict-attempted Q (thrown, w) f h k = tt

  pub Verdict-caught :
      (r : Outcome B × W) (e : Error) → F e → Verdict R F r → Verdict R F (caught r e)
  Verdict-caught (done a, w) e f h = h
  Verdict-caught (failed x, w) e f h = h
  Verdict-caught (thrown, w) e f h = f

  -- A call whose result nothing reads.
  pub Verdict-ignored :
      {A : Type 0} (r : Outcome A × W) (f : Result A → M W B)
      → ((x : Result A) (w : W) → Verdict R F (f x w))
      → Verdict R F (and_then (attempted r) f)
  Verdict-ignored (done a, w) f k = k (ok a) w
  Verdict-ignored (failed e, w) f k = k (fail e) w
  Verdict-ignored (thrown, w) f k = tt

module _ {W A : Type 0} (Q R : A → Type 0) (F G : Error → Type 0) where
  pub Verdict-weaken :
      (r : Outcome A × W)
      → Verdict Q F r
      → ((a : A) → Q a → R a)
      → ((e : Error) → F e → G e)
      → Verdict R G r
  Verdict-weaken (done a, w) h q f = q a h
  Verdict-weaken (failed e, w) h q f = f e h
  Verdict-weaken (thrown, w) h q f = tt

pub Verdict-any :
    {W A : Type 0} (r : Outcome A × W) → Verdict (λ (a : A). Unit {0}) (λ e. Unit {0}) r
Verdict-any (done a, w) = tt
Verdict-any (failed e, w) = tt
Verdict-any (thrown, w) = tt
