-- ===== src/Live/Hosts.antt =====
-- Who speaks in a room, under the operations of the manager.
use auction_platform_backend.Prelude.{
  ℕ, ◌≡◌, refl, ◌⊎◌, inl, inr, Bool, true, false, Option, none, some, List, [], ◌∷◌, ◌++◌, not, any,
  find, filter, All, All-append, ◌==◌, arith, if◌then◌else◌,
}
use auction_platform_backend.Live.{
  LiveUser, LiveRoom, Studio, Direction, send, recv, update_first, is_room, is_user, put_user,
  change_user, user_in, is_vacant, transport_of, with_transport, drop_first, close, media,
  get_auction_room, create_auction_room, join_auction_room, dispose_room, remove_user,
  leave_auction_room, get_user, set_transport, add_producer, add_consumer, remove_producer,
}
use auction_platform_backend.Live.Lookup.{All-update_first, All-filter, find-accepts}

-- `May k j` says that the socket `j` may speak in the room `k`.
module _ (May : ℕ → ℕ → Type 0) where
  abbrev pub IsAllowed : ℕ → LiveUser → Type 0
  IsAllowed k u = (u.is_enabled_to_speak ≡ true → May k u.id) × ((u.producers ≡ []) ⊎ May k u.id)

  abbrev pub IsFine : LiveRoom → Type 0
  IsFine r = All (IsAllowed r.room_id) r.users

  abbrev pub IsSound : Studio → Type 0
  IsSound s = All IsFine s.rooms

  room_named : (k : ℕ) (r : LiveRoom) → is_room k r ≡ true → r.room_id ≡ k
  room_named k r e = ground arith

  user_named : (j : ℕ) (u : LiveUser) → is_user j u ≡ true → u.id ≡ j
  user_named j u e = ground arith

  pub create_auction_room-IsSound :
      (k router : ℕ) (s : Studio) → IsSound s → IsSound (create_auction_room k router s)
  unfolding create_auction_room
  create_auction_room-IsSound k router s h = go (any (is_room k) s.rooms)
    where
      new : LiveRoom
      new = record { room_id = k; router = router; users = [] }

      go : (b : Bool) → IsSound (if b then s else record s { rooms = s.rooms ++ (new ∷ []) })
      go true = h
      go false = All-append IsFine s.rooms (new ∷ []) h (tt, tt)

  -- A change of the room that is found.
  change_room-IsSound :
      (k : ℕ) (f : LiveRoom → LiveRoom) (s : Studio)
      → IsSound s
      → ((r : LiveRoom) → r.room_id ≡ k → IsFine r → IsFine (f r))
      → All IsFine (update_first (is_room k) f s.rooms)
  change_room-IsSound k f s h keeps =
      All-update_first (is_room k) IsFine f s.rooms h (λ r q fine.
        keeps r (room_named k r (find-accepts (is_room k) IsFine r s.rooms h q).1) fine)

  change_user-IsSound :
      (k j : ℕ) (f : LiveUser → LiveUser) (s : Studio)
      → IsSound s
      → ((u : LiveUser) → u.id ≡ j → IsAllowed k u → IsAllowed k (f u))
      → IsSound (change_user k j f s)
  change_user-IsSound k j f s h keeps =
      change_room-IsSound k (λ r. record r { users = update_first (is_user j) f r.users }) s h
        (λ r here fine.
          All-update_first (is_user j) (IsAllowed r.room_id) f r.users fine (λ u q allowed.
            rw here (
              keeps u
                (user_named j u (find-accepts (is_user j) (IsAllowed r.room_id) u r.users fine q).1)
                (rw here at allowed))))

  put_user-IsFine :
      (k : ℕ) (u : LiveUser) (us : List LiveUser)
      → IsAllowed k u
      → All (IsAllowed k) us
      → All (IsAllowed k) (put_user u us)
  put_user-IsFine k u us new h = go (any (is_user u.id) us)
    where
      go :
          (b : Bool)
          → All
              (IsAllowed k)
              (if b then update_first (is_user u.id) (λ x. u) us else us ++ (u ∷ []))
      go true = All-update_first (is_user u.id) (IsAllowed k) (λ x. u) us h (λ x q old. new)
      go false = All-append (IsAllowed k) us (u ∷ []) h (new, tt)

  pub join_auction_room-IsSound :
      (k : ℕ) (u : LiveUser) (s : Studio)
      → IsAllowed k u
      → IsSound s
      → IsSound (join_auction_room k u s)
  unfolding join_auction_room
  join_auction_room-IsSound k u s new h =
      change_room-IsSound k (λ r. record r { users = put_user u r.users }) s h
        (λ r here fine. put_user-IsFine r.room_id u r.users (rw here new) fine)

  remove_user-IsSound :
      (k j : ℕ) (o : Option LiveUser) (s : Studio) → IsSound s → IsSound (remove_user k j o s)
  unfolding remove_user
  remove_user-IsSound k j none s h = h
  remove_user-IsSound k j (some u) s h =
      change_room-IsSound k (λ r. record r { users = filter (λ x. not (is_user j x)) r.users }) s h
        (λ r here fine. All-filter (λ x. not (is_user j x)) (IsAllowed r.room_id) r.users fine)

  pub leave_auction_room-IsSound :
      (k j : ℕ) (s : Studio) → IsSound s → IsSound (leave_auction_room k j s)
  unfolding leave_auction_room
  leave_auction_room-IsSound k j s h = go (get_auction_room k s)
    where
      rest : LiveRoom → Studio
      rest r = remove_user k j (find (is_user j) r.users) s

      last : (r : LiveRoom) (b : Bool) → IsSound (if b then dispose_room k r (rest r) else rest r)
      last r true =
          All-filter (λ x. not (is_room k x)) IsFine (rest r).rooms
            (remove_user-IsSound k j (find (is_user j) r.users) s h)
      last r false = remove_user-IsSound k j (find (is_user j) r.users) s h

      go :
          (o : Option LiveRoom)
          → IsSound (elim o [
            | none ↦ s
            | some r ↦
                if is_vacant (filter (λ x. not (is_user j x)) r.users)
                then dispose_room k r (rest r)
                else rest r
          ])
      go none = h
      go (some r) = last r (is_vacant (filter (λ x. not (is_user j x)) r.users))

  pub set_transport-IsSound :
      (k j : ℕ) (way : Direction) (t : ℕ) (s : Studio)
      → IsSound s
      → IsSound (set_transport k j way t s)
  unfolding set_transport
  set_transport-IsSound k j way t s h = go (get_user k j s)
    where
      same :
          (w : Direction) (u : LiveUser)
          → u.id ≡ j
          → IsAllowed k u
          → IsAllowed k (with_transport w t u)
      same send u e allowed = allowed
      same recv u e allowed = allowed

      go :
          (o : Option LiveUser)
          → IsSound (elim o [
            | none ↦ s
            | some u ↦ close (media (transport_of way u)) (change_user k j (with_transport way t) s)
          ])
      go none = h
      go (some u) = change_user-IsSound k j (with_transport way t) s h (same way)

  pub add_consumer-IsSound : (k j c : ℕ) (s : Studio) → IsSound s → IsSound (add_consumer k j c s)
  unfolding add_consumer
  add_consumer-IsSound k j c s h =
      change_user-IsSound k j (λ u. record u { consumers = u.consumers ++ (c ∷ []) }) s h
        (λ u e allowed. allowed)

  pub add_producer-IsSound :
      (k j p : ℕ) (s : Studio) → May k j → IsSound s → IsSound (add_producer k j p s)
  unfolding add_producer
  add_producer-IsSound k j p s may h =
      change_user-IsSound k j (λ u. record u { producers = u.producers ++ (p ∷ []) }) s h
        (λ u e allowed. (allowed.0, inr (rw e may)))

  dropped :
      (k p : ℕ) (u : LiveUser)
      → IsAllowed k u
      → IsAllowed k (record u { producers = drop_first p u.producers })
  dropped k p u (speaks, inl e) = (speaks, inl (rw e refl))
  dropped k p u (speaks, inr m) = (speaks, inr m)

  pub remove_producer-IsSound : (k p : ℕ) (s : Studio) → IsSound s → IsSound (remove_producer k p s)
  unfolding remove_producer
  remove_producer-IsSound k p s h = change_room-IsSound k _ s h (λ r here fine.
      All-update_first (λ u. any (λ x. x == p) u.producers) (IsAllowed r.room_id) _ r.users fine
        (λ u q allowed. dropped r.room_id p u allowed))

  -- A user that is found and enabled to speak may speak.
  pub found_may :
      (k j : ℕ) (u : LiveUser) (s : Studio)
      → IsSound s
      → get_user k j s ≡ some u
      → u.is_enabled_to_speak ≡ true
      → May k j
  unfolding get_user get_auction_room
  found_may k j u s h e speaks = go (find (is_room k) s.rooms) refl e
    where
      go : (o : Option LiveRoom) → find (is_room k) s.rooms ≡ o → user_in j o ≡ some u → May k j
      go none q z = absurd (cc z)
      go (some r) q z =
          let (fine, here) = find-accepts (is_room k) IsFine r s.rooms h q in
          let (allowed, me) = find-accepts (is_user j) (IsAllowed r.room_id) u r.users fine z in
          rw (room_named k r here, user_named j u me) at (allowed.0 speaks)
