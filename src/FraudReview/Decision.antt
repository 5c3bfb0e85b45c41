-- ===== src/FraudReview/Decision.antt =====
-- What a review does to the fraud level and the suspensions of a user.
use auction_platform_backend.Prelude.{
  ℕ, ◌+◌, ◌≤◌, ◌≡◌, ◌∙◌, refl, sym, Bool, true, false, List, [], ◌∷◌, ◌==◌, not, if◌then◌else◌,
  arith,
}
use auction_platform_backend.Fraud.{
  FraudReportLevel, low, medium, critical, FraudAdminDecision, no_action, fault_verified,
}
use auction_platform_backend.Users.{UserAccount, suspend, add_fraud_level}
use auction_platform_backend.FraudReview.{is_empty, is_fault, points, suspension}
use auction_platform_backend.Fraud.{UserSuspension}
use auction_platform_backend.FraudReview.Record.{
  Standing, IsNext, Reviewed, untouched, raised, suspended, put_account, put_suspension,
}

pub points-bounds : (l : FraudReportLevel) → (1 ≤ points l) × (points l ≤ 3)
unfolding points
points-bounds low = (omega arith, omega arith)
points-bounds medium = (omega arith, omega arith)
points-bounds critical = (omega arith, omega arith)

pub verified : (c : FraudAdminDecision) → not (is_fault c) ≡ false → c ≡ fault_verified
verified no_action e = absurd (cc e)
verified fault_verified e = refl

-- Saving an account leaves the suspensions alone.
pub put_account-suspensions :
    (u : ℕ) (a : UserAccount) (s : Standing) → (put_account u a s).suspensions ≡ s.suspensions
unfolding put_account
put_account-suspensions u a s = go (a.id == u)
  where
    go :
        (b : Bool)
        → (if b then record s { level = a.user_fraud_level } else s).suspensions ≡ s.suspensions
    go true = refl
    go false = refl

-- The rows that a review saves, as steps of the standing.
module _ (limit duration u : ℕ) (decision : FraudAdminDecision) (s : Standing) where
  abbrev pub After : Standing → Type 0
  After = Reviewed limit duration u decision s

  pub raised-After :
      (t p : ℕ) (a : UserAccount)
      → (a.id ≡ t) × (t ≡ u → a.user_fraud_level ≡ s.level)
      → decision ≡ fault_verified
      → (1 ≤ p) × (p ≤ 3)
      → After (put_account u (add_fraud_level p a) s)
  unfolding put_account
  raised-After t p a (i, l) e (b, c) = go (a.id == u) refl
    where
      go :
          (x : Bool)
          → (a.id == u) ≡ x
          → Reviewed limit duration u decision s
              (if x then record s { level = a.user_fraud_level + p } else s)
      go true q = rw (l (sym i ∙ ground arith)) (raised p e b c)
      go false q = untouched

  -- The last save stores the level that is stored already.
  pub settled_account :
      (p : ℕ) (a : UserAccount) (x : UserSuspension)
      → put_account u
          (suspend (add_fraud_level p a))
          (put_suspension u x (put_account u (add_fraud_level p a) s))
        ≡ put_suspension u x (put_account u (add_fraud_level p a) s)
  unfolding put_account put_suspension
  settled_account p a x = go (a.id == u) (x.user_id == u)
    where
      put : Bool → Standing → Standing
      put b r = if b then record r { level = a.user_fraud_level + p } else r

      add : Bool → Standing → Standing
      add b r = if b then record r { suspensions = x ∷ r.suspensions } else r

      go : (b c : Bool) → put b (add c (put b s)) ≡ add c (put b s)
      go true true = refl
      go true false = refl
      go false true = refl
      go false false = refl

  suspension-IsNext :
      (t r starts id m : ℕ) (l v : List UserSuspension)
      → is_empty l ≡ is_empty v
      → m ≡ duration
      → IsNext duration v (suspension id t r (not (is_empty l)) starts m)
  unfolding suspension
  suspension-IsNext t r starts id m l [] z k = rw (z, k) (refl, refl)
  suspension-IsNext t r starts id m l (y ∷ ys) z k = rw z (refl, refl)

  pub suspended-After :
      (t p r starts id : ℕ) (a : UserAccount) (l : List UserSuspension) (n m : ℕ)
      → (a.id ≡ t) × (t ≡ u → a.user_fraud_level ≡ s.level)
      → (t ≡ u → is_empty l ≡ is_empty s.suspensions)
      → n ≡ limit
      → m ≡ duration
      → n ≤ a.user_fraud_level + p
      → decision ≡ fault_verified
      → (1 ≤ p) × (p ≤ 3)
      → After (
          put_suspension u
            (suspension id t r (not (is_empty l)) starts m)
            (put_account u (add_fraud_level p a) s))
  unfolding put_account put_suspension suspension
  suspended-After t p r starts id a l n m (i, at) same q k enough e (b, c) = rw i (go (t == u) refl)
    where
      x : UserSuspension
      x = suspension id t r (not (is_empty l)) starts m

      go :
          (y : Bool)
          → (t == u) ≡ y
          → Reviewed limit duration u decision s (
              let v = (if y then record s { level = a.user_fraud_level + p } else s) in
              if y then record v { suspensions = x ∷ v.suspensions } else v)
      go true z =
          let h : t ≡ u = ground arith in
          let h' : limit ≤ s.level + p = rw (sym q, sym (at h)) enough in
          rw (at h) (
            suspended p x e b c h' (suspension-IsNext t r starts id m l s.suspensions (same h) k) h
              refl)
      go false z = untouched
