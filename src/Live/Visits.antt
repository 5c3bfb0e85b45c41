-- ===== src/Live/Visits.antt =====
-- The handlers for live auctions keep the rooms to their hosts.
use auction_platform_backend.Prelude.{
  ℕ, ◌≡◌, refl, sym, inl, inr, Bool, true, false, Option, none, some, not, find, ◌==◌, ◌||◌, arith,
}
use auction_platform_backend.Outcome.{Outcome, done, failed, thrown}
use auction_platform_backend.Outcome.Post.{Post}
use auction_platform_backend.Outcome.World.{
  after-and_then, after-Post, after-required, after-guarded,
}
use auction_platform_backend.Live.{
  LiveRoom, Direction, send, recv, get_auction_room, get_user, get_transport, create_auction_room,
  set_transport, add_producer, add_consumer,
}
use auction_platform_backend.Live.Handlers.{
  RoomView, LivePlatform, live_user, changes, open_room, get_capabilities, create_live_transport,
  connect_live_transport, produce_live, consume_live, resume_consumer,
}
use auction_platform_backend.Live.Hosts.{
  IsAllowed, create_auction_room-IsSound, join_auction_room-IsSound, set_transport-IsSound,
  add_consumer-IsSound, add_producer-IsSound, found_may,
}
use auction_platform_backend.Live.Laws.{LiveLaws, MayHost, IsHosted, changed, kept, after-kept}

module _ {W : Type 0} (d : LivePlatform W) (seller : ℕ → ℕ) (laws : LiveLaws d seller) where
  open d use {studio, user_of, auction_room, join, create_router}

  abbrev Hosted : W → Type 0
  Hosted = IsHosted d seller

  open_room-IsHosted :
      (k : ℕ) (o : Option LiveRoom) (w : W) → Hosted w → Hosted (open_room d k o w).1
  unfolding open_room
  open_room-IsHosted k none w h =
      after-kept d seller laws create_router w _ laws.router_keeps h (λ router w1 e.
        changed d seller laws (create_auction_room k router) w1
          (create_auction_room-IsSound (MayHost d seller) k router (studio w1) (rw e h)))
  open_room-IsHosted k (some r) w h = h

  live_user-IsAllowed :
      (socket k : ℕ) (v : RoomView)
      → v.seller_id ≡ seller k
      → IsAllowed
          (MayHost d seller)
          k
          (live_user socket ((user_of socket).is_admin || v.seller_id == (user_of socket).id))
  live_user-IsAllowed socket k v e = (go (user_of socket).is_admin refl, inl refl)
    where
      go :
          (b : Bool)
          → (user_of socket).is_admin ≡ b
          → (b || v.seller_id == (user_of socket).id) ≡ true
          → (MayHost d seller) k socket
      go true q z = inl q
      go false q z = inr (rw (sym e) (ground arith))

  pub get_capabilities-IsHosted :
      (socket k : ℕ) (w : W) → Hosted w → Hosted (get_capabilities d socket k w).1
  unfolding get_capabilities
  get_capabilities-IsHosted socket k w h =
      after-Post Hosted (λ v w'. Hosted w' × (v.seller_id ≡ seller k))
        (auction_room (user_of socket).id k w) _
        (found (auction_room (user_of socket).id k w) (laws.view_law (user_of socket).id k w))
        (λ v w1 (h1, e). after-guarded Hosted (not v.is_live) _ w1 _ h1 (λ live.
          after-guarded Hosted (not v.is_active) _ w1 _ h1 (λ running.
            after-and_then Hosted (open_room d k (get_auction_room k (studio w1)) w1) _
              (open_room-IsHosted k (get_auction_room k (studio w1)) w1 h1)
              (λ x w2 h2.
                after-required Hosted (get_auction_room k (studio w2)) _ w2 _ h2 (λ room q.
                  after-kept d seller laws (join socket k) w2 _ (laws.join_keeps socket k) h2
                    (λ y w3 e3. changed d seller laws _ w3 (
                      join_auction_room-IsSound (MayHost d seller) k _ (studio w3)
                        (live_user-IsAllowed socket k v e) (rw e3 h2))))))))
    where
      found :
          (r : Outcome RoomView × W)
          → Post
              (λ v w'. (studio w' ≡ studio w) × (v.seller_id ≡ seller k))
              (λ w'. studio w' ≡ studio w)
              r
          → Post (λ v w'. Hosted w' × (v.seller_id ≡ seller k)) Hosted r
      found (done v, w') (e, q) = (rw e h, q)
      found (failed x, w') e = rw e h
      found (thrown, w') e = rw e h

  pub create_live_transport-IsHosted :
      (socket k : ℕ) (way : Direction) (w : W)
      → Hosted w
      → Hosted (create_live_transport d socket k way w).1
  unfolding create_live_transport
  create_live_transport-IsHosted socket k way w h =
      after-required Hosted (get_auction_room k (studio w)) _ w _ h (λ room q.
        after-required Hosted (get_user k socket (studio w)) _ w _ h (λ u q'.
          after-kept d seller laws (d.create_transport room.router) w _
            (laws.transport_keeps room.router) h
            (λ t w1 e.
              changed d seller laws (set_transport k socket way t) w1
                (set_transport-IsSound (MayHost d seller) k socket way t (studio w1) (rw e h)))))

  pub connect_live_transport-IsHosted :
      (socket k : ℕ) (way : Direction) (w : W)
      → Hosted w
      → Hosted (connect_live_transport d socket k way w).1
  unfolding connect_live_transport
  connect_live_transport-IsHosted socket k way w h =
      after-required Hosted (get_user k socket (studio w)) _ w _ h (λ u q.
        after-required Hosted (get_transport k socket way (studio w)) _ w _ h
          (λ t q'. kept d seller laws (d.connect t) w (laws.connect_keeps t) h))

  pub produce_live-IsHosted :
      (socket k : ℕ) (w : W) → Hosted w → Hosted (produce_live d socket k w).1
  unfolding produce_live
  produce_live-IsHosted socket k w h =
      after-required Hosted (get_user k socket (studio w)) _ w _ h (λ u q.
        after-guarded Hosted (not u.is_enabled_to_speak) _ w _ h (λ speaks.
          after-required Hosted (get_transport k socket send (studio w)) _ w _ h (λ t q'.
            after-kept d seller laws (d.produce t) w _ (laws.produce_keeps t) h (λ p w1 e.
              rw (laws.emit_keeps k _ _) (
                changed d seller laws (add_producer k socket p) w1 (
                  add_producer-IsSound (MayHost d seller) k socket p (studio w1)
                    (found_may (MayHost d seller) k socket u (studio w) h q (ground arith))
                    (rw e h)))))))

  pub consume_live-IsHosted :
      (socket k p : ℕ) (w : W) → Hosted w → Hosted (consume_live d socket k p w).1
  unfolding consume_live
  consume_live-IsHosted socket k p w h =
      after-required Hosted (get_auction_room k (studio w)) _ w _ h (λ room q.
        after-required Hosted (get_user k socket (studio w)) _ w _ h (λ u q1.
          after-required Hosted (get_transport k socket recv (studio w)) _ w _ h (λ t q2.
            after-guarded Hosted (not (d.can_consume room.router p w)) _ w _ h (λ allowed.
              after-kept d seller laws (d.consume t p) w _ (laws.consume_keeps t p) h (λ c w1 e.
                after-kept d seller laws (d.resume c) (changes d (add_consumer k socket c) w1) _
                  (laws.resume_keeps c)
                  (changed d seller laws (add_consumer k socket c) w1
                    (add_consumer-IsSound (MayHost d seller) k socket c (studio w1) (rw e h)))
                  (λ x w2 e2. rw e2 (
                    changed d seller laws (add_consumer k socket c) w1 (
                      add_consumer-IsSound (MayHost d seller) k socket c (studio w1)
                        (rw e h)))))))))

  pub resume_consumer-IsHosted :
      (socket k c : ℕ) (w : W) → Hosted w → Hosted (resume_consumer d socket k c w).1
  unfolding resume_consumer
  resume_consumer-IsHosted socket k c w h =
      after-required Hosted (get_user k socket (studio w)) _ w _ h (λ u q.
        after-required Hosted (find (λ x. x == c) u.consumers) _ w _ h
          (λ x q'. kept d seller laws (d.resume x) w (laws.resume_keeps x) h))
