-- ===== src/BidLock.antt =====
-- The lock around a bid: src/infrastructure/services/lock/bid.lock.service.ts over the commands of
-- Redis, which are a parameter.
use auction_platform_backend.Prelude.{
  ℕ, ◌≡◌, ◌≢◌, ◌∙◌, refl, ◌⊎◌, inl, inr, Bool, true, false, Option, some, List, [], ◌∷◌, ◌==◌,
  is_id, All, if◌then◌else◌, arith,
}
use auction_platform_backend.Outcome.{M, done}
use auction_platform_backend.Services.{BidLockService}

-- The commands that the service sends: `SET key token EX ttl NX`, with `true` for the answer 'OK';
-- `GET` and `DEL` inside a script; and `EVAL`, which runs a script as one step or throws.
pub record Redis (W : Type 0) : Type 0 where
  pub set_nx : ℕ → ℕ → ℕ → M W Bool
  pub get : ℕ → W → Option ℕ
  pub del : ℕ → W → W
  pub eval : (W → W) → M W (Unit {0})

-- A call of the service by the request with a token.
pub data Event : Type 0 where
  take : ℕ → ℕ → Event
  free : ℕ → Event

abbrev pub token_of : Event → ℕ
token_of (take t n) = t
token_of (free t) = t

module _ {W : Type 0} (redis : Redis W) where
  -- `RELEASE_SCRIPT`.
  unfoldable pub release_script : ℕ → ℕ → W → W
  release_script key token w = if is_id (redis.get key w) token then redis.del key w else w

  -- `BidLockService`. The key of an auction is a text that holds its identifier, so here it is the
  -- identifier; `release` catches what `eval` throws.
  unfoldable pub bid_lock_service : BidLockService W
  bid_lock_service = record {
    lock = λ key token ttl. redis.set_nx key token ttl;
    release = λ key token w. (redis.eval (release_script key token) w).1;
  }

  -- The world after a call.
  abbrev pub step : ℕ → Event → W → W
  step key (take t n) w = ((bid_lock_service.lock) key t n w).1
  step key (free t) w = (bid_lock_service.release) key t w

  abbrev pub steps : ℕ → List Event → W → W
  steps key [] w = w
  steps key (e ∷ es) w = steps key es (step key e w)

  -- The call does not take the lock.
  abbrev pub IsRefused : ℕ → Event → W → Type 0
  IsRefused key (take t n) w = ((bid_lock_service.lock) key t n w).0 ≢ done true
  IsRefused key (free t) w = Unit

  abbrev pub AreRefused : ℕ → List Event → W → Type 0
  AreRefused key [] w = Unit
  AreRefused key (e ∷ es) w = IsRefused key e w × AreRefused key es (step key e w)

  -- What the service relies on of Redis, for as long as the key has not expired: `NX` sets no key
  -- that is there, and a script has run or has not.
  pub record RedisLaws (key : ℕ) : Type 0 where
    pub nx_law :
        (t x n : ℕ) (w : W)
        → redis.get key w ≡ some x
        → (redis.get key (redis.set_nx key t n w).1 ≡ some x)
          × ((redis.set_nx key t n w).0 ≢ done true)
    pub eval_law : (f : W → W) (w : W) → ((redis.eval f w).1 ≡ f w) ⊎ ((redis.eval f w).1 ≡ w)

  module _ (key : ℕ) (laws : RedisLaws key) where
    foreign_script :
        (t x : ℕ) (w : W) → redis.get key w ≡ some x → t ≢ x → release_script key t w ≡ w
    unfolding release_script
    foreign_script t x w held other = rw held (unless (x == t) refl)
      where
        unless : (b : Bool) → (x == t) ≡ b → (if b then redis.del key w else w) ≡ w
        unless true e = absurd (other (ground arith))
        unless false e = refl

    -- While a request holds the lock and the key has not expired, no sequence of calls by other
    -- requests takes the lock or frees it, whichever of them fail.
    pub steps-AreRefused :
        (x : ℕ) (es : List Event) (w : W)
        → redis.get key w ≡ some x
        → All (λ e. token_of e ≢ x) es
        → (redis.get key (steps key es w) ≡ some x) × AreRefused key es w
    unfolding bid_lock_service
    steps-AreRefused x [] w held others = (held, tt)
    steps-AreRefused x (take t n ∷ es) w held others =
        let (still, refused) = laws.nx_law t x n w held in
        let (end, rest) = steps-AreRefused x es (redis.set_nx key t n w).1 still others.1 in
        (end, (refused, rest))
    steps-AreRefused x (free t ∷ es) w held others =
        let same : (redis.eval (release_script key t) w).1 ≡ w =
          elim (laws.eval_law (release_script key t) w) [
            | inl ran ↦ ran ∙ foreign_script t x w held others.0
            | inr idle ↦ idle
          ] in
        let (end, rest) =
          steps-AreRefused x es (redis.eval (release_script key t) w).1 (rw same held) others.1 in
        (end, (tt, rest))
