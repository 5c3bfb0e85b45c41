-- ===== src/Categories/Calls.antt =====
-- Any sequence of calls about categories.
use auction_platform_backend.Prelude.{ℕ, refl, Bool, Option, List, [], ◌∷◌}
use Prim.Native.String.{String}
use auction_platform_backend.Auction.Category.{AuctionCategory}
use auction_platform_backend.Categories.{
  CategoryPlatform, CategoryInput, create_category, request_category, approve_category,
  reject_category, change_category_status, update_category,
}
use auction_platform_backend.Categories.Standing.{Follows, Follows-refl, Follows-trans}
use auction_platform_backend.Categories.Steps.{
  TableLaws, approved, rejected, switched, updated, created, requested,
}

pub data Call : Type 0 where
  create_it request_it : CategoryInput → Call
  approve_it : ℕ → Call
  reject_it : ℕ → String → Call
  change_it : ℕ → Bool → Call
  update_it : ℕ → String → Option ℕ → Call

module _ {W : Type 0} (d : CategoryPlatform W) where
  unfoldable pub run : Call → W → W
  run (create_it input) w = (create_category d input w).1
  run (request_it input) w = (request_category d input w).1
  run (approve_it id) w = (approve_category d id w).1
  run (reject_it id reason) w = (reject_category d id reason w).1
  run (change_it id active) w = (change_category_status d id active w).1
  run (update_it id name parent) w = (update_category d id name parent w).1

  unfoldable pub run_all : List Call → W → W
  run_all [] w = w
  run_all (c ∷ cs) w = run_all cs (run c w)

module _ {W : Type 0} (d : CategoryPlatform W) (view : W → Option AuctionCategory) (u : ℕ)
    (laws : TableLaws d view u) where
  run-Follows : (c : Call) (w : W) → Follows (view w) (view (run d c w))
  unfolding run
  run-Follows (create_it x) w = created d view u laws (view w) x w refl
  run-Follows (request_it x) w = requested d view u laws (view w) x w refl
  run-Follows (approve_it i) w = approved d view u laws (view w) i w refl
  run-Follows (reject_it i r) w = rejected d view u laws (view w) i r w refl
  run-Follows (change_it i b) w = switched d view u laws (view w) i b w refl
  run-Follows (update_it i n p) w = updated d view u laws (view w) i n p w refl

  -- Through any sequence of calls that create, request, approve, reject, switch and update
  -- categories, however each of them ends, a category that was not stored may come to be, and is
  -- then verified exactly if it is approved, has a reason exactly if it is rejected, and has a
  -- slug; one that was stored stays so, with its identifier, its slug and its submitter, with these
  -- three properties if it had them, and with its status and its reason unless it was pending.
  pub run_all-Follows : (cs : List Call) (w : W) → Follows (view w) (view (run_all d cs w))
  unfolding run_all
  run_all-Follows [] w = Follows-refl (view w)
  run_all-Follows (c ∷ cs) w =
      Follows-trans (view w) (view (run d c w)) (view (run_all d cs (run d c w))) (run-Follows c w)
        (run_all-Follows cs (run d c w))
