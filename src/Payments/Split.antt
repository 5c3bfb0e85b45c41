-- ===== src/Payments/Split.antt =====
-- The two payments of a winner make up the amount won.
use auction_platform_backend.Prelude.{ℕ, zero, suc, ◌+◌, ◌*◌, ◌≤◌, ◌<◌, ◌≡◌, List, ◌∷◌, arith}
use auction_platform_backend.Outcome.{Outcome, M}
use auction_platform_backend.Outcome.Post.{Post}
use auction_platform_backend.Payment.{Payment, PaymentPhase, PaymentStatus}
use auction_platform_backend.Services.{Platform}
use auction_platform_backend.Payments.{WinInput, split_at}

mul_le : (m a b : ℕ) → a ≤ b → m * a ≤ m * b
mul_le zero a b h = omega arith
mul_le (suc m) a b h = omega (arith, mul_le m a b h, h)

-- Of an amount that a ratio of at most one splits, no part is lost.
pub split_at-sum :
    (ratio win : ℕ)
    → ratio ≤ 10000
    → (split_at ratio win).deposit + (split_at ratio win).balance ≡ win
unfolding split_at
split_at-sum ratio win h = let part = mul_le win ratio 10000 h in omega (arith, part)

-- What the use case relies on: the ratio is a setting that stays, reads change nothing, and a
-- payment that is created is stored.
module _ {W : Type 0} (p : Platform W) (view : W → List Payment) (ratio : ℕ) where
  abbrev pub Steady : {A : Type 0} → M W A → Type 0
  Steady m = (w : W) → view (m w).1 ≡ view w

  pub record PaymentLaws : Type 0 where
    pub id_steady : (w : W) → view (p.runtime.generate_id w).1 ≡ view w
    pub ratio_steady : Steady p.config.auction_winner_deposit_split_ratio
    pub ratio_law :
        (w : W)
        → Post (λ r w'. r ≡ ratio) (λ w'. Unit {0}) (p.config.auction_winner_deposit_split_ratio w)
    pub deposit_ms_steady : Steady p.config.auction_payment_deposit_due_ms
    pub balance_ms_steady : Steady p.config.auction_payment_balance_due_ms
    pub find_steady :
        (i u : ℕ) (f : PaymentPhase) → Steady (p.payments.find_by_reference_user_and_phase i u f)
    pub create_law :
        (x : Payment) (w : W)
        → Post (λ x' w'. view w' ≡ x ∷ view w) (λ w'. Unit {0}) (p.payments.create x w)

  -- A payment of the winner, pending, for this auction, in a phase and of an amount.
  abbrev pub IsDue : WinInput → PaymentPhase → ℕ → Payment → Type 0
  IsDue input phase amount x =
      (x.user_id ≡ input.user_id)
      × (x.reference_id ≡ input.auction_id)
      × (x.status ≡ PaymentStatus.pending)
      × (x.phase ≡ phase)
      × (x.amount ≡ amount)
      × (0 < x.amount)
      × (input.ended_at ≤ x.due_at)

  abbrev Whatever : W → Type 0
  Whatever w = Unit {0}

  module _ (laws : PaymentLaws) where
    -- A payment made from the amounts.
    Made : WinInput → PaymentPhase → ℕ → List Payment → Payment → W → Type 0
    Made input phase amount v x w' = (view w' ≡ v) × IsDue input phase amount x

    -- The two payments stored on top of `v`, which together are the amount won.
    abbrev pub AreDue : WinInput → List Payment → List Payment → Type 0
    AreDue input v v' =
        (first : Payment) × (second : Payment) × (v' ≡ second ∷ first ∷ v)
        × IsDue input PaymentPhase.deposit (split_at ratio input.win_amount).deposit first
        × IsDue input PaymentPhase.balance (split_at ratio input.win_amount).balance second
        × (first.amount + second.amount ≡ input.win_amount)
