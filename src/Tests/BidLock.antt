-- ===== src/Tests/BidLock.antt =====
-- The lock at concrete inputs, over one key in memory.
use auction_platform_backend.Prelude.{
  ℕ, ◌≡◌, ◌≢◌, inl, refl, Bool, true, false, Option, none, some, List, [], ◌∷◌, arith,
}
use auction_platform_backend.Outcome.{Outcome, done}
use auction_platform_backend.BidLock.{
  Redis, Event, take, free, steps, AreRefused, RedisLaws, steps-AreRefused, bid_lock_service,
  release_script,
}

abbrev set_if_absent : Option ℕ → ℕ → Outcome Bool × Option ℕ
set_if_absent none t = (done true, some t)
set_if_absent (some x) t = (done false, some x)

-- The world is what the key holds.
abbrev key_store : Redis (Option ℕ)
key_store = record {
  set_nx = λ k t n w. set_if_absent w t;
  get = λ k w. w;
  del = λ k w. none;
  eval = λ f w. (done tt, f w);
}

absent :
    (t x : ℕ) (w : Option ℕ)
    → w ≡ some x
    → ((set_if_absent w t).1 ≡ some x) × ((set_if_absent w t).0 ≢ done true)
absent t x none e = absurd cc
absent t x (some y) e = (e, λ q. cc)

key_store-RedisLaws : RedisLaws key_store 7
key_store-RedisLaws = record { nx_law = λ t x n w e. absent t x w e; eval_law = λ f w. inl refl }

-- Requests 2 and 3 while request 1 holds the lock.
abbrev rivals : List Event
rivals = take 2 5 ∷ free 2 ∷ take 3 5 ∷ free 3 ∷ []

steps-AreRefused_example :
    (steps key_store 7 rivals (some 1) ≡ some 1) × AreRefused key_store 7 rivals (some 1)
steps-AreRefused_example =
    steps-AreRefused key_store 7 key_store-RedisLaws 1 rivals (some 1) refl
      ((λ e. ground arith), ((λ e. ground arith), ((λ e. ground arith), ((λ e. ground arith), tt))))

-- Its own release frees it.
own_release : steps key_store 7 (take 2 5 ∷ free 1 ∷ take 3 5 ∷ []) (some 1) ≡ some 3
unfolding bid_lock_service release_script
own_release = refl
