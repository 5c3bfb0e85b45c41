-- ===== src/Fraud.antt =====
-- src/domain/entities/fraud: a report, without the user rows that it carries along, and a suspension.
use auction_platform_backend.Outcome.{Result, ok, fail, report_not_open}
use auction_platform_backend.Prelude.{Bool, true, false, some, not, if◌then◌else◌, ℕ, Option}
use Prim.Native.String.{String}

pub data FraudReportSource : Type 0 where
  manual system : FraudReportSource

pub data FraudReporterType : Type 0 where
  user seller system : FraudReporterType

pub data FraudReportCategory : Type 0 where
  auction_fraud_critical payment_critical other : FraudReportCategory

pub data FraudReportLevel : Type 0 where
  low medium critical : FraudReportLevel

pub data FraudReportStatus : Type 0 where
  opened under_review resolved : FraudReportStatus

pub data FraudAdminDecision : Type 0 where
  no_action fault_verified : FraudAdminDecision

-- An empty identifier of the reporting user is `none`.
pub record FraudReport : Type 0 where
  pub id : ℕ
  pub reported_user_id : Option ℕ
  pub targeted_user_id : ℕ
  pub reporter_type : FraudReporterType
  pub source : FraudReportSource
  pub category : FraudReportCategory
  pub level : FraudReportLevel
  pub reason : String
  pub status : FraudReportStatus
  pub admin_decision : Option FraudAdminDecision
  pub reviewed_by_id : Option ℕ
  pub reviewed_at : Option ℕ
  pub created_at : ℕ

abbrev pub is_opened : FraudReportStatus → Bool
is_opened opened = true
is_opened _ = false

unfoldable pub mark_under_review : FraudReport → Result FraudReport
mark_under_review r =
    if not (is_opened r.status)
    then fail report_not_open
    else ok (record r { status = under_review })

unfoldable pub resolve : ℕ → FraudAdminDecision → ℕ → FraudReport → FraudReport
resolve reviewer decision now r = record r {
  status = resolved;
  admin_decision = some decision;
  reviewed_by_id = some reviewer;
  reviewed_at = some now;
}

pub data SuspensionType : Type 0 where
  temporary permanent : SuspensionType

-- The reason, which names the report, is left out.
pub record UserSuspension : Type 0 where
  pub id : ℕ
  pub user_id : ℕ
  pub report_id : Option ℕ
  pub suspension_type : SuspensionType
  pub starts_at : ℕ
  pub ends_at : Option ℕ
  pub is_active : Bool
