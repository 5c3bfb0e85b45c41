-- ===== src/Kyc/Calls.antt =====
-- Any sequence of calls about the documents of sellers.
use auction_platform_backend.Prelude.{ℕ, Option, List, [], ◌∷◌}
use Prim.Native.String.{String}
use auction_platform_backend.Kyc.{
  KycPlatform, KycStatus, KycFor, DocumentInput, submit, update, approve, reject,
}
use auction_platform_backend.Kyc.Cycle.{Step}

pub data Call : Type 0 where
  submit_it : ℕ → KycFor → Call
  update_it : DocumentInput → Call
  approve_it : ℕ → Call
  reject_it : ℕ → Option String → Call

-- Steps one after the other.
pub data Course (s : Option KycStatus) : Option KycStatus → Type 0 where
  here : Course s s
  next : {t v : Option KycStatus} → Course s t → Step t v → Course s v

module _ {W : Type 0} (d : KycPlatform W) where
  unfoldable pub run : Call → W → W
  run (submit_it user kyc_for) w = (submit d user kyc_for w).1
  run (update_it input) w = (update d input w).1
  run (approve_it seller) w = (approve d seller w).1
  run (reject_it seller reason) w = (reject d seller reason w).1

  unfoldable pub run_all : List Call → W → W
  run_all [] w = w
  run_all (c ∷ cs) w = run_all cs (run c w)
