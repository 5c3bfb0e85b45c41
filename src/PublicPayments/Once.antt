-- ===== src/PublicPayments/Once.antt =====
-- An offer is paid for at most once as long as its saves are stored, whatever users try.
use auction_platform_backend.Prelude.{ℕ, ◌+◌, List, [], ◌∷◌}
use auction_platform_backend.Outcome.{Outcome, done, failed, thrown}
use auction_platform_backend.Outcome.Post.{Post}
use auction_platform_backend.Notice.{PublicFallbackPaymentStatus, pending, paid}
use auction_platform_backend.PublicPayments.{PublicPlatform, verify_public_payment}
use auction_platform_backend.PublicPayments.Sale.{Sale}

-- What is left of an offer: 1 while it waits for a payment.
abbrev pub open_offers : PublicFallbackPaymentStatus → ℕ
open_offers pending = 1
open_offers paid = 0

abbrev pub sales_of : {A W : Type 0} → Outcome A × W → ℕ
sales_of (done a, w) = 1
sales_of (failed e, w) = 0
sales_of (thrown, w) = 0

module _ {W : Type 0} (d : PublicPlatform W) (k : ℕ) where
  -- Calls of one user after another for auction `k`: how many are done, and the world after them.
  unfoldable pub verify_all : List ℕ → W → ℕ × W
  verify_all [] w = (0, w)
  verify_all (u ∷ us) w =
      let r = verify_public_payment d (record { auction_id = k; user_id = u }) w in
      let (n, w') = verify_all us r.1 in (sales_of r + n, w')
