-- ===== src/FraudReview/Record.antt =====
-- The fraud level and the suspensions of one user, how a review may change them, and what the use
-- cases rely on of the tables.
use auction_platform_backend.Prelude.{
  ℕ, ◌+◌, ◌≤◌, ◌≡◌, ◌⊎◌, true, none, some, List, [], ◌∷◌, ◌==◌, if◌then◌else◌,
}
use auction_platform_backend.Outcome.{M}
use auction_platform_backend.Outcome.Post.{Post}
use auction_platform_backend.Fraud.{FraudReport, FraudAdminDecision, fault_verified}
use auction_platform_backend.Users.{UserAccount}
use auction_platform_backend.FraudReview.{is_empty, ReviewPlatform}
use auction_platform_backend.Fraud.{UserSuspension, temporary, permanent}

-- What is followed of the user: the suspensions, the last one first, and the fraud level.
pub record Standing : Type 0 where
  pub suspensions : List UserSuspension
  pub level : ℕ

-- The first suspension ends after `duration`; every later one has no end.
abbrev pub IsNext : ℕ → List UserSuspension → UserSuspension → Type 0
IsNext duration [] x = (x.suspension_type ≡ temporary) × (x.ends_at ≡ some (x.starts_at + duration))
IsNext duration (y ∷ ys) x = (x.suspension_type ≡ permanent) × (x.ends_at ≡ none)

-- What one review of a report may do to the user.
pub data Reviewed (limit duration u : ℕ) (decision : FraudAdminDecision) (s : Standing)
    : Standing → Type 0 where
  untouched : Reviewed limit duration u decision s s
  raised :
      (p : ℕ)
      → decision ≡ fault_verified
      → 1 ≤ p
      → p ≤ 3
      → Reviewed limit duration u decision s (record s { level = s.level + p })
  suspended :
      (p : ℕ) (x : UserSuspension)
      → decision ≡ fault_verified
      → 1 ≤ p
      → p ≤ 3
      → limit ≤ s.level + p
      → IsNext duration s.suspensions x
      → x.user_id ≡ u
      → x.is_active ≡ true
      → Reviewed limit duration u decision s
          (record { suspensions = x ∷ s.suspensions; level = s.level + p })

module _ (u : ℕ) where
  -- A row of the table of users that is saved, and one of the table of suspensions.
  unfoldable pub put_account : UserAccount → Standing → Standing
  put_account a s = if a.id == u then record s { level = a.user_fraud_level } else s

  unfoldable pub put_suspension : UserSuspension → Standing → Standing
  put_suspension x s = if x.user_id == u then record s { suspensions = x ∷ s.suspensions } else s

module _ {W : Type 0} (d : ReviewPlatform W) (view : W → Standing) (u limit duration : ℕ) where
  open d use {
    generate_id, find_report, save_report, update_report, find_today_reports, accounts,
    save_fault_notice, suspension_threshold, temporary_suspension_duration, find_user_suspensions,
    create_suspension,
  }

  abbrev pub Keeps : {A : Type 0} → M W A → Type 0
  Keeps m = (w : W) → view (m w).1 ≡ view w

  -- A call that keeps the standing and tells something of its value.
  abbrev pub Finds : {A : Type 0} → (A → Standing → Type 0) → M W A → Type 0
  Finds Q m =
      (w : W) → Post (λ a w'. (view w' ≡ view w) × Q a (view w)) (λ w'. view w' ≡ view w) (m w)

  -- A save stores the row if it is done, and stores it or not if it fails or throws.
  abbrev pub Stores : {A : Type 0} → (Standing → Standing) → M W A → Type 0
  Stores put m =
      (w : W)
      → Post (λ a w'. view w' ≡ put (view w)) (λ w'. (view w' ≡ view w) ⊎ (view w' ≡ put (view w)))
          (m w)

  abbrev pub Tells : ℕ → UserAccount → Standing → Type 0
  Tells i a s = (a.id ≡ i) × (i ≡ u → a.user_fraud_level ≡ s.level)

  pub record FraudLaws : Type 0 where
    pub id_keeps : (w : W) → view (generate_id w).1 ≡ view w
    pub report_keeps : (i : ℕ) → Keeps (find_report i)
    pub save_report_keeps : (r : FraudReport) → Keeps (save_report r)
    pub update_report_keeps : (r : FraudReport) → Keeps (update_report r)
    pub today_keeps : (i : ℕ) → Keeps (find_today_reports i)
    pub notice_keeps : (i v : ℕ) → Keeps (save_fault_notice i v)
    pub threshold_law : Finds (λ n s. n ≡ limit) suspension_threshold
    pub duration_law : Finds (λ n s. n ≡ duration) temporary_suspension_duration
    pub find_account_law : (i : ℕ) → Finds (Tells i) (accounts.find_by_id i)
    pub find_suspensions_law :
        (i : ℕ)
        → Finds (λ l s. i ≡ u → is_empty l ≡ is_empty s.suspensions) (find_user_suspensions i)
    pub save_account_law : (a : UserAccount) → Stores (put_account u a) (accounts.save a)
    pub create_suspension_law :
        (x : UserSuspension) → Stores (put_suspension u x) (create_suspension x)
