-- ===== src/Payment.antt =====
-- src/domain/entities/payments/payments.entity.ts.
use auction_platform_backend.Prelude.{ℕ, Bool, true, false, not, leb, if◌then◌else◌}
use Prim.Native.String.{String}
use auction_platform_backend.Outcome.{
  Result, ok, fail, payment_amount_not_positive, payment_not_pending,
}

pub data PaymentFor : Type 0 where
  for_auction : PaymentFor

pub data PaymentStatus : Type 0 where
  pending completed failed declined : PaymentStatus

pub data PaymentPhase : Type 0 where
  deposit balance : PaymentPhase

pub record Payment : Type 0 where
  pub id : ℕ
  pub user_id : ℕ
  pub amount : ℕ
  pub currency : String
  pub status : PaymentStatus
  pub for_payment : PaymentFor
  pub reference_id : ℕ
  pub phase : PaymentPhase
  pub due_at : ℕ
  pub created_at : ℕ

abbrev pub is_pending : PaymentStatus → Bool
is_pending pending = true
is_pending _ = false

abbrev pub is_completed : PaymentStatus → Bool
is_completed completed = true
is_completed _ = false

abbrev pub is_declined : PaymentStatus → Bool
is_declined declined = true
is_declined _ = false

-- `Payments.create`.
unfoldable pub create_payment : Payment → Result Payment
create_payment x = if leb x.amount 0 then fail payment_amount_not_positive else ok x

unfoldable pub mark_as_completed : Payment → Result Payment
mark_as_completed x =
    if not (is_pending x.status)
    then fail payment_not_pending
    else ok (record x { status = completed })

unfoldable pub mark_as_declined : Payment → Result Payment
mark_as_declined x =
    if is_declined x.status
    then ok x
    else if not (is_pending x.status)
    then fail payment_not_pending
    else ok (record x { status = declined })
