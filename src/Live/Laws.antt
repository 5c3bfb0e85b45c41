-- ===== src/Live/Laws.antt =====
-- What the handlers for live auctions rely on, and the steps that they share.
use auction_platform_backend.Prelude.{ℕ, ◌≡◌, ◌⊎◌, true}
use auction_platform_backend.Outcome.{M, Outcome, done, failed, thrown, and_then}
use auction_platform_backend.Outcome.Post.{Post}
use auction_platform_backend.Outcome.World.{after-Post}
use auction_platform_backend.Live.{Studio}
use auction_platform_backend.Live.Handlers.{Signal, LivePlatform, changes}
use auction_platform_backend.Live.Hosts.{IsSound}

-- `seller` gives the seller of each auction.
module _ {W : Type 0} (d : LivePlatform W) (seller : ℕ → ℕ) where
  open d use {studio, put_studio, user_of, auction_room, join, create_router, emit}

  abbrev pub Keeps : {A : Type 0} → M W A → Type 0
  Keeps m = (w : W) → studio (m w).1 ≡ studio w

  -- The rooms are changed by the handlers only.
  pub record LiveLaws : Type 0 where
    pub put_law : (s : Studio) (w : W) → studio (put_studio s w) ≡ s
    pub emit_keeps : (k : ℕ) (x : Signal) (w : W) → studio (emit k x w) ≡ studio w
    pub view_law :
        (i k : ℕ) (w : W)
        → Post
            (λ v w'. (studio w' ≡ studio w) × (v.seller_id ≡ seller k))
            (λ w'. studio w' ≡ studio w)
            (auction_room i k w)
    pub join_keeps : (j k : ℕ) → Keeps (join j k)
    pub router_keeps : Keeps create_router
    pub transport_keeps : (r : ℕ) → Keeps (d.create_transport r)
    pub connect_keeps : (t : ℕ) → Keeps (d.connect t)
    pub produce_keeps : (t : ℕ) → Keeps (d.produce t)
    pub consume_keeps : (t p : ℕ) → Keeps (d.consume t p)
    pub resume_keeps : (c : ℕ) → Keeps (d.resume c)

  -- The user of a socket is an admin or the seller of an auction.
  abbrev pub MayHost : ℕ → ℕ → Type 0
  MayHost k socket = ((user_of socket).is_admin ≡ true) ⊎ (seller k ≡ (user_of socket).id)

  abbrev pub IsHosted : W → Type 0
  IsHosted w = IsSound MayHost (studio w)

  module _ (laws : LiveLaws) where
    pub changed :
        (f : Studio → Studio) (w : W) → IsSound MayHost (f (studio w)) → IsHosted (changes d f w)
    unfolding changes
    changed f w h = rw (laws.put_law (f (studio w)) w) h

    pub kept : {A : Type 0} (m : M W A) (w : W) → Keeps m → IsHosted w → IsHosted (m w).1
    kept m w keeps h = rw (keeps w) h

    -- A call that leaves the rooms alone, and what follows.
    pub after-kept :
        {A B : Type 0} (m : M W A) (w : W) (f : A → M W B)
        → Keeps m
        → IsHosted w
        → ((a : A) (w' : W) → studio w' ≡ studio w → IsHosted (f a w').1)
        → IsHosted (and_then (m w) f).1
    after-kept {A = A} m w f keeps h k =
        after-Post IsHosted (λ a w'. studio w' ≡ studio w) (m w) f (go (m w) (keeps w)) k
      where
        go :
            (r : Outcome A × W)
            → studio r.1 ≡ studio w
            → Post (λ a w'. studio w' ≡ studio w) IsHosted r
        go (done a, w') e = e
        go (failed x, w') e = rw e h
        go (thrown, w') e = rw e h
