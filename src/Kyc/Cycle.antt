-- ===== src/Kyc/Cycle.antt =====
-- The cycle of the record of a user's documents, and what the calls rely on of the tables.
use auction_platform_backend.Prelude.{ℕ, ◌≡◌, ◌∙◌, ◌⊎◌, inl, inr, Option, none, some}
use auction_platform_backend.Outcome.{Outcome, done, failed, thrown, M, return, attempt, ◌>>=◌}
use auction_platform_backend.Outcome.Post.{Post}
use auction_platform_backend.Outcome.World.{after-attempted}
use auction_platform_backend.Users.{UserAccount}
use auction_platform_backend.Kyc.{
  Kyc, KycStatus, pending, approved, rejected, not_submitted, KycFor, KycDocument, KycPlatform,
}

-- The steps of a record: a user has none, or one in some status.
pub data Step : Option KycStatus → Option KycStatus → Type 0 where
  stay : {s : Option KycStatus} → Step s s
  opens : Step none (some not_submitted)
  submits : Step (some not_submitted) (some pending)
  approves : Step (some pending) (some approved)
  rejects : Step (some pending) (some rejected)
  resets : Step (some rejected) (some not_submitted)

module _ {W : Type 0} (d : KycPlatform W) (view : W → Option KycStatus) (u : ℕ) (f : KycFor) where
  open d use {generate_id, find_by_user_id_and_for, save_kyc, save_document, accounts}

  abbrev pub KeepsView : {A : Type 0} → M W A → Type 0
  KeepsView m = (w : W) → view (m w).1 ≡ view w

  -- What a row of the table tells of the record of user `u` for `f`.
  abbrev pub Tells : ℕ → KycFor → Option KycStatus → Option Kyc → Type 0
  Tells i g s none = i ≡ u → g ≡ f → s ≡ none
  Tells i g s (some x) = x.user_id ≡ u → x.kyc_for ≡ f → s ≡ some x.kyc_status

  pub record CycleLaws : Type 0 where
    pub id_keeps : (w : W) → view (generate_id w).1 ≡ view w
    pub find_keeps : (i : ℕ) (g : KycFor) → KeepsView (find_by_user_id_and_for i g)
    pub find_law :
        (i : ℕ) (g : KycFor) (w : W)
        → Post (λ o w'. Tells i g (view w) o) (λ w'. Unit {0}) (find_by_user_id_and_for i g w)
    pub document_keeps : (x : KycDocument) → KeepsView (save_document x)
    pub account_keeps : (i : ℕ) → KeepsView (accounts.find_by_id i)
    pub save_account_keeps : (a : UserAccount) → KeepsView (accounts.save a)
    pub save_law :
        (x : Kyc) (w : W)
        → (view (save_kyc x w).1 ≡ view w)
          ⊎ ((x.user_id ≡ u) × (x.kyc_for ≡ f) × (view (save_kyc x w).1 ≡ some x.kyc_status))

  module _ (laws : CycleLaws) (s : Option KycStatus) where
    abbrev pub Fine : W → Type 0
    Fine w = Step s (view w)

    -- What a row found tells, if it is that of the user.
    abbrev pub Owned : Kyc → Type 0
    Owned x = x.user_id ≡ u → x.kyc_for ≡ f → s ≡ some x.kyc_status

    pub kept : {A : Type 0} (m : M W A) (w : W) → KeepsView m → Fine w → Fine (m w).1
    kept m w keeps h = rw (keeps w) h

    pub here : (w : W) → view w ≡ s → Fine w
    here w e = rw e stay

    pub saved :
        (x : Kyc) (w : W)
        → (x.user_id ≡ u → x.kyc_for ≡ f → Step s (some x.kyc_status))
        → Fine w
        → Fine (save_kyc x w).1
    saved x w may h = elim (laws.save_law x w) [
      | inl same ↦ rw same h
      | inr (i, g, e) ↦ rw e (may i g)
    ]

    -- A row read while the record is still as before.
    pub found-Post :
        (i : ℕ) (g : KycFor) (w : W)
        → view w ≡ s
        → Post (λ o w'. (view w' ≡ s) × Tells i g s o) Fine (find_by_user_id_and_for i g w)
    found-Post i g w e =
        go (find_by_user_id_and_for i g w) (laws.find_keeps i g w ∙ e)
          (rw e at (laws.find_law i g w))
      where
        go :
            (r : Outcome (Option Kyc) × W)
            → view r.1 ≡ s
            → Post (λ o w'. Tells i g s o) (λ w'. Unit {0}) r
            → Post (λ o w'. (view w' ≡ s) × Tells i g s o) Fine r
        go (done o, w') q t = (q, t)
        go (failed x, w') q t = rw q stay
        go (thrown, w') q t = rw q stay

    -- The end of a call: a save whose result nothing reads.
    pub saved_last :
        {A : Type 0} (a : A) (x : Kyc) (w : W)
        → (x.user_id ≡ u → x.kyc_for ≡ f → Step s (some x.kyc_status))
        → Fine w
        → Fine ((attempt (save_kyc x) >>= λ y. return a) w).1
    saved_last a x w may h = after-attempted Fine (save_kyc x w) _ (saved x w may h) (λ y w1 h1. h1)
