-- ===== src/FraudReview.antt =====
-- What follows from reports of fraud: of src/application/usecases fraud/reviewFraudReport,
-- fraud/markFraudReportUnderReview, fraud/updateFraudReport, fraud/createFraudReport and
-- admin/blockUser.
pub mod Record
pub mod Decision
pub mod Steps
pub mod Others
pub mod Calls
use auction_platform_backend.Prelude.{
  ℕ, ◌+◌, Bool, true, false, Option, none, some, List, [], ◌∷◌, not, filter, if◌then◌else◌, leb,
  ◌==◌, ◌&&◌, length,
}
use Prim.Native.String.{String}
use auction_platform_backend.Outcome.{
  Result, ok, fail, M, return, settle, value_of, attempt, gives, gets, require, fail_if, ◌>>=◌,
  ◌>>◌, fraud_report_not_found, report_not_open,
}
use auction_platform_backend.Fraud.{
  SuspensionType, temporary, permanent, UserSuspension, is_opened, mark_under_review, resolve,
  FraudReport, FraudReportLevel, low, medium, critical, FraudReportStatus, opened, under_review,
  resolved, FraudAdminDecision, no_action, fault_verified, FraudReporterType, FraudReportSource,
  manual, FraudReportCategory,
}
use auction_platform_backend.Users.{
  UserAccount, UserStatus, active, suspended, blocked, suspend, add_fraud_level, AccountRepository,
}

unfoldable pub points : FraudReportLevel → ℕ
points critical = 3
points medium = 2
points low = 1

abbrev pub is_fault : FraudAdminDecision → Bool
is_fault fault_verified = true
is_fault no_action = false

abbrev pub is_empty : List UserSuspension → Bool
is_empty [] = true
is_empty (x ∷ xs) = false

-- A second suspension has no end.
unfoldable pub suspension : ℕ → ℕ → ℕ → Bool → ℕ → ℕ → UserSuspension
suspension id user report had_previous starts duration = record {
  id = id;
  user_id = user;
  report_id = some report;
  suspension_type = if had_previous then permanent else temporary;
  starts_at = starts;
  ends_at = if had_previous then none else some (starts + duration);
  is_active = true;
}

-- The repositories and the configuration that these use cases call. A notification is stored with
-- the texts that the review gives it.
pub record ReviewPlatform (W : Type 0) : Type 0 where
  pub now : W → ℕ
  pub generate_id : W → ℕ × W
  pub find_report : ℕ → M W (Option FraudReport)
  pub save_report : FraudReport → M W FraudReport
  pub update_report : FraudReport → M W FraudReport
  pub find_today_reports : ℕ → M W (List FraudReport)
  pub accounts : AccountRepository W
  pub save_fault_notice : ℕ → ℕ → M W (Unit {0})
  pub suspension_threshold : M W ℕ
  pub temporary_suspension_duration : M W ℕ
  pub find_user_suspensions : ℕ → M W (List UserSuspension)
  pub create_suspension : UserSuspension → M W UserSuspension

-- The input of `reviewFraudReport`.
pub record ReviewInput : Type 0 where
  pub report_id : ℕ
  pub admin_user_id : ℕ
  pub decision : FraudAdminDecision

-- The input of `updateFraudReport`: a missing field keeps its value, and a missing decision too.
pub record ReportUpdate : Type 0 where
  pub report_id : ℕ
  pub reporter_type : Option FraudReporterType
  pub source : Option FraudReportSource
  pub category : Option FraudReportCategory
  pub level : Option FraudReportLevel
  pub status : Option FraudReportStatus
  pub decision : Option (Option FraudAdminDecision)

-- The input of `createFraudReport`.
pub record ReportInput : Type 0 where
  pub reported_user_id : ℕ
  pub targeted_user_id : ℕ
  pub reported_user_type : FraudReporterType
  pub source : Option FraudReportSource
  pub category : FraudReportCategory
  pub level : FraudReportLevel
  pub reason : String

-- `a ?? b`
abbrev or_else : {A : Type 0} → Option A → A → A
or_else none b = b
or_else (some a) b = a

unfoldable pub updated_report : ReportUpdate → FraudReport → FraudReport
updated_report input r = record r {
  reporter_type = or_else input.reporter_type r.reporter_type;
  source = or_else input.source r.source;
  category = or_else input.category r.category;
  level = or_else input.level r.level;
  status = or_else input.status r.status;
  admin_decision = or_else input.decision r.admin_decision;
}

unfoldable pub new_report : ℕ → ℕ → ReportInput → FraudReport
new_report id now input = record {
  id = id;
  reported_user_id = some input.reported_user_id;
  targeted_user_id = input.targeted_user_id;
  reporter_type = input.reported_user_type;
  source = or_else input.source manual;
  category = input.category;
  level = input.level;
  reason = input.reason;
  status = opened;
  admin_decision = none;
  reviewed_by_id = none;
  reviewed_at = none;
  created_at = now;
}

abbrev by_seller : FraudReport → Bool
by_seller r = elim r.reporter_type [ FraudReporterType.seller ↦ true | _ ↦ false ]

abbrev by_user : FraudReport → Bool
by_user r = elim r.reporter_type [ FraudReporterType.user ↦ true | _ ↦ false ]

unfoldable pub needs_suspension : List FraudReport → Bool
needs_suspension rs = length (filter by_seller rs) == 3 && length (filter by_user rs) == 3

module _ {W : Type 0} (d : ReviewPlatform W) where
  open d use {
    now, generate_id, find_report, save_report, update_report, find_today_reports, accounts,
    save_fault_notice, suspension_threshold, temporary_suspension_duration, find_user_suspensions,
    create_suspension,
  }

  -- The end of `ReviewFraudReportUsecase.execute`, from the suspensions of the user on.
  unfoldable pub suspend_target : FraudReport → UserAccount → M W (Unit {0})
  suspend_target r target = do
    previous ← find_user_suspensions r.targeted_user_id
    starts ← gets now
    duration ← temporary_suspension_duration
    id ← gives generate_id
    created ←
        create_suspension
          (suspension id r.targeted_user_id r.id (not (is_empty previous)) starts duration)
    saved ← accounts.save (suspend target)
    return tt

  unfoldable pub notify_and_suspend : FraudReport → UserAccount → ℕ → M W (Unit {0})
  notify_and_suspend r target threshold = do
    id ← gives generate_id
    noticed ← save_fault_notice id r.targeted_user_id
    if not (leb threshold target.user_fraud_level) then return tt else suspend_target r target

  -- The part that a verified fault has, from the points on.
  unfoldable pub punish : FraudReport → M W (Unit {0})
  punish r = do
    account ← accounts.find_by_id r.targeted_user_id
    saved ← accounts.save (add_fraud_level (points r.level) account)
    threshold ← suspension_threshold
    notify_and_suspend r (add_fraud_level (points r.level) account) threshold

  -- `ReviewFraudReportUsecase.execute`; a report that is resolved already is reviewed again.
  unfoldable pub review : ReviewInput → M W (Unit {0})
  review input = do
    found ← find_report input.report_id
    r ← require found fraud_report_not_found
    at ← gets now
    updated ← update_report (resolve input.admin_user_id input.decision at r)
    if not (is_fault input.decision)
        then return tt
        else punish (resolve input.admin_user_id input.decision at r)

  -- What the report is after `markUnderReview`, whose failure is not read.
  unfoldable pub marked : Result FraudReport → FraudReport → FraudReport
  marked (ok r') r = r'
  marked (fail e) r = r

  -- `MarkFraudReportUnderReviewUsecase.execute`.
  unfoldable pub mark : ℕ → M W (Unit {0})
  mark report = do
    found ← find_report report
    r ← require found fraud_report_not_found
    updated ← update_report (marked (mark_under_review r) r)
    return tt

  -- `UpdateFraudReportUsecase.execute`.
  unfoldable pub update_fraud_report : ReportUpdate → M W (Unit {0})
  update_fraud_report input = do
    found ← find_report input.report_id
    r ← require found fraud_report_not_found
    updated ← update_report (updated_report input r)
    return tt

  -- `setStatus(SUSPENDED)` and a save whose result is not read.
  unfoldable pub suspend_if_needed : Bool → UserAccount → M W (Unit {0})
  suspend_if_needed false target = return tt
  suspend_if_needed true target = do saved ← attempt (accounts.save (suspend target)); return tt

  -- `CreateFraudReportUsecase.execute`.
  unfoldable pub create_report : ReportInput → M W FraudReport
  create_report input = do
    reported ← accounts.find_by_id input.reported_user_id
    target ← accounts.find_by_id input.targeted_user_id
    id ← gives generate_id
    at ← gets now
    save_result ← attempt (save_report (new_report id at input))
    previous_result ← attempt (find_today_reports target.id)
    previous ← value_of previous_result
    report ← settle save_result
    suspend_if_needed (needs_suspension previous) target
    return report

  -- `BlockUserUseCase.execute`.
  unfoldable pub block_user : ℕ → Bool → M W UserStatus
  block_user user block = do
    account ← accounts.find_by_id user
    saved ← attempt (accounts.save (record account { status = if block then blocked else active }))
    return (if block then blocked else active)
