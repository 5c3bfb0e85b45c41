-- ===== src/FraudReview/Calls.antt =====
-- Any sequence of calls about reports of fraud and blocked users.
use auction_platform_backend.Prelude.{
  ℕ, ◌+◌, ◌≤◌, ◌≡◌, refl, Bool, true, List, [], ◌∷◌, length, arith,
}
use auction_platform_backend.Fraud.{FraudAdminDecision}
use auction_platform_backend.FraudReview.{
  ReviewPlatform, ReviewInput, ReportUpdate, ReportInput, review, mark, update_fraud_report,
  create_report, block_user,
}
use auction_platform_backend.Fraud.{UserSuspension}
use auction_platform_backend.FraudReview.Record.{
  Standing, IsNext, Reviewed, untouched, raised, suspended, FraudLaws,
}
use auction_platform_backend.FraudReview.Steps.{review-Reviewed}
use auction_platform_backend.FraudReview.Others.{mark-Same, update-Same, block-Same, report-Same}

pub data Call : Type 0 where
  review_it : ReviewInput → Call
  mark_it : ℕ → Call
  update_it : ReportUpdate → Call
  report_it : ReportInput → Call
  block_it : ℕ → Bool → Call

module _ (limit duration u : ℕ) where
  -- Active suspensions of the user, the first one with an end and the others without.
  abbrev pub IsEscalating : List UserSuspension → Type 0
  IsEscalating [] = Unit {0}
  IsEscalating (x ∷ xs) =
      IsNext duration xs x × (x.user_id ≡ u) × (x.is_active ≡ true) × IsEscalating xs

  -- The first suspension needs the threshold, and every later one another point.
  abbrev pub IsEarned : List UserSuspension → ℕ → Type 0
  IsEarned [] level = Unit {0}
  IsEarned (x ∷ xs) level = limit + length xs ≤ level

  abbrev pub IsGraded : Standing → Type 0
  IsGraded s = IsEscalating s.suspensions × IsEarned s.suspensions s.level

  earns_more : (xs : List UserSuspension) (n p : ℕ) → IsEarned xs n → IsEarned xs (n + p)
  earns_more [] n p h = tt
  earns_more (x ∷ xs) n p h = omega (arith, h)

  earns_next :
      (x : UserSuspension) (xs : List UserSuspension) (n p : ℕ)
      → IsEarned xs n
      → 1 ≤ p
      → limit ≤ n + p
      → IsEarned (x ∷ xs) (n + p)
  earns_next x [] n p h b e = omega (arith, e)
  earns_next x (y ∷ ys) n p h b e = omega (arith, h, b)

  Reviewed-IsGraded :
      {c : FraudAdminDecision} {s t : Standing}
      → Reviewed limit duration u c s t
      → IsGraded s
      → IsGraded t × (s.level ≤ t.level)
  Reviewed-IsGraded {s} untouched (h, e) = ((h, e), omega arith)
  Reviewed-IsGraded {s} (raised p c a b) (h, e) =
      ((h, earns_more s.suspensions s.level p e), omega arith)
  Reviewed-IsGraded {s} (suspended p x c a b enough next owner live) (h, e) =
      (((next, owner, live, h), earns_next x s.suspensions s.level p e a enough), omega arith)

module _ {W : Type 0} (d : ReviewPlatform W) where
  unfoldable pub run : Call → W → W
  run (review_it input) w = (review d input w).1
  run (mark_it report) w = (mark d report w).1
  run (update_it input) w = (update_fraud_report d input w).1
  run (report_it input) w = (create_report d input w).1
  run (block_it account block) w = (block_user d account block w).1

  unfoldable pub run_all : List Call → W → W
  run_all [] w = w
  run_all (c ∷ cs) w = run_all cs (run c w)

module _ {W : Type 0} (d : ReviewPlatform W) (view : W → Standing) (u limit duration : ℕ)
    (laws : FraudLaws d view u limit duration) where
  unchanged :
      {s t : Standing}
      → t ≡ s
      → IsGraded limit duration u s
      → IsGraded limit duration u t × (s.level ≤ t.level)
  unchanged {s} {t} e h = rw e (h, omega arith)

  run-IsGraded :
      (c : Call) (w : W)
      → IsGraded limit duration u (view w)
      → IsGraded limit duration u (view (run d c w)) × ((view w).level ≤ (view (run d c w)).level)
  unfolding run
  run-IsGraded (review_it input) w h =
      Reviewed-IsGraded limit duration u (review-Reviewed d view u limit duration laws input w) h
  run-IsGraded (mark_it i) w h =
      unchanged (mark-Same d view u limit duration laws (view w) i w refl) h
  run-IsGraded (update_it input) w h =
      unchanged (update-Same d view u limit duration laws (view w) input w refl) h
  run-IsGraded (report_it input) w h =
      unchanged (report-Same d view u limit duration laws (view w) input w refl) h
  run-IsGraded (block_it i b) w h =
      unchanged (block-Same d view u limit duration laws (view w) i b w refl) h

  -- Through any sequence of reviews, marks, updates and reports of fraud and of calls that block a
  -- user, however each of them ends, the fraud level of a user never falls, and the suspensions stay
  -- graded: only the first one has an end, and the first one needs a fraud level at the threshold,
  -- every later one another point.
  pub run_all-IsGraded :
      (cs : List Call) (w : W)
      → IsGraded limit duration u (view w)
      → IsGraded limit duration u (view (run_all d cs w))
        × ((view w).level ≤ (view (run_all d cs w)).level)
  unfolding run_all
  run_all-IsGraded [] w h = (h, omega arith)
  run_all-IsGraded (c ∷ cs) w h =
      let (h1, more) = run-IsGraded c w h in
      let (h2, still) = run_all-IsGraded cs (run d c w) h1 in (h2, omega (arith, more, still))
