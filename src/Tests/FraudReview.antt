-- ===== src/Tests/FraudReview.antt =====
-- Reviews of reports of fraud at concrete inputs.
use auction_platform_backend.Prelude.{
  ◌≤◌, ◌≡◌, refl, Bool, true, false, none, some, List, [], ◌∷◌, ◌==◌, if◌then◌else◌,
}
use auction_platform_backend.Outcome.{done}
use auction_platform_backend.Fraud.{
  FraudReport, FraudReporterType, manual, other, medium, opened, fault_verified, no_action,
}
use auction_platform_backend.Users.{UserAccount, active, user, local}
use auction_platform_backend.FraudReview.{
  ReviewPlatform, ReviewInput, review, punish, notify_and_suspend, points, suspend_target,
}
use auction_platform_backend.Fraud.{UserSuspension, resolve}
use auction_platform_backend.FraudReview.Record.{
  Standing, Reviewed, put_account, put_suspension, FraudLaws,
}
use auction_platform_backend.FraudReview.Steps.{review-Reviewed}
use auction_platform_backend.FraudReview.Calls.{
  Call, review_it, mark_it, block_it, IsGraded, run_all, run_all-IsGraded,
}

-- One report about user 3, and the rows of that user.
record Desk : Type 0 where
  report : FraudReport
  account : UserAccount
  suspensions : List UserSuspension

abbrev standing : Desk → Standing
standing w = record { suspensions = w.suspensions; level = w.account.user_fraud_level }

abbrev put_row : UserAccount → Desk → Desk
put_row a w = if a.id == 3 then record w { account = a } else w

abbrev add_row : UserSuspension → Desk → Desk
add_row x w = if x.user_id == 3 then record w { suspensions = x ∷ w.suspensions } else w

abbrev desk : ReviewPlatform Desk
desk = record {
  now = λ w. 5000;
  generate_id = λ w. (81, w);
  find_report = λ i w. (done (some w.report), w);
  save_report = λ r w. (done r, w);
  update_report = λ r w. (done r, record w { report = r });
  find_today_reports = λ i w. (done (w.report ∷ []), w);
  accounts = record {
    find_by_id = λ i w. (done (record w.account { id = i }), w);
    find_by_email = λ i w. (done w.account, w);
    find_by_phone = λ i w. (done w.account, w);
    save = λ a w. (done a, put_row a w);
  };
  save_fault_notice = λ i v w. (done tt, w);
  suspension_threshold = λ w. (done 3, w);
  temporary_suspension_duration = λ w. (done 1000, w);
  find_user_suspensions = λ i w. (done w.suspensions, w);
  create_suspension = λ x w. (done x, add_row x w);
}

standing-put_row :
    (a : UserAccount) (w : Desk) → standing (put_row a w) ≡ put_account 3 a (standing w)
unfolding put_account
standing-put_row a w = go (a.id == 3)
  where
    go :
        (b : Bool)
        → standing (if b then record w { account = a } else w)
          ≡ (if b then record (standing w) { level = a.user_fraud_level } else standing w)
    go true = refl
    go false = refl

standing-add_row :
    (x : UserSuspension) (w : Desk) → standing (add_row x w) ≡ put_suspension 3 x (standing w)
unfolding put_suspension
standing-add_row x w = go (x.user_id == 3)
  where
    go :
        (b : Bool)
        → standing (if b then record w { suspensions = x ∷ w.suspensions } else w)
          ≡ (if b then record (standing w) { suspensions = x ∷ w.suspensions } else standing w)
    go true = refl
    go false = refl

desk-FraudLaws : FraudLaws desk standing 3 3 1000
desk-FraudLaws = record {
  id_keeps = λ w. refl;
  report_keeps = λ i w. refl;
  save_report_keeps = λ r w. refl;
  update_report_keeps = λ r w. refl;
  today_keeps = λ i w. refl;
  notice_keeps = λ i v w. refl;
  threshold_law = λ w. (refl, refl);
  duration_law = λ w. (refl, refl);
  find_account_law = λ i w. (refl, (refl, λ e. refl));
  find_suspensions_law = λ i w. (refl, λ e. refl);
  save_account_law = standing-put_row;
  create_suspension_law = standing-add_row;
}

abbrev first_desk : Desk
first_desk = record {
  report = record {
    id = 40;
    reported_user_id = some 8;
    targeted_user_id = 3;
    reporter_type = FraudReporterType.user;
    source = manual;
    category = other;
    level = medium;
    reason = "no answer";
    status = opened;
    admin_decision = none;
    reviewed_by_id = none;
    reviewed_at = none;
    created_at = 4000;
  };
  account = record {
    id = 3;
    name = "bob";
    email = 31;
    phone = none;
    address = none;
    auth_provider = local 32;
    is_verified = true;
    roles = user ∷ [];
    status = active;
    user_fraud_level = 1;
  };
  suspensions = [];
}

abbrev verify_fault : ReviewInput
verify_fault = record { report_id = 40; admin_user_id = 9; decision = fault_verified }

abbrev calls : List Call
calls =
    mark_it 40
    ∷ review_it (record verify_fault { decision = no_action })
    ∷ review_it verify_fault
    ∷ block_it 3 true
    ∷ review_it verify_fault
    ∷ []

-- A fault of medium level brings the user from one point to three, the threshold.
first_suspension : (standing (review desk verify_fault first_desk).1).level ≡ 3
unfolding review punish notify_and_suspend points resolve suspend_target
first_suspension = refl

review-Reviewed_example :
    Reviewed 3 1000 3 fault_verified
      (standing first_desk)
      (standing (review desk verify_fault first_desk).1)
review-Reviewed_example =
    review-Reviewed desk standing 3 3 1000 desk-FraudLaws verify_fault first_desk

run_all-IsGraded_example :
    IsGraded 3 1000 3 (standing (run_all desk calls first_desk))
    × (1 ≤ (standing (run_all desk calls first_desk)).level)
run_all-IsGraded_example =
    run_all-IsGraded desk standing 3 3 1000 desk-FraudLaws calls first_desk (tt, tt)
