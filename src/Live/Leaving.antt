-- ===== src/Live/Leaving.antt =====
-- What is left of a user who leaves a room.
use auction_platform_backend.Prelude.{
  ℕ, ◌≡◌, ◌∙◌, refl, sym, Bool, true, false, Option, none, some, List, [], ◌∷◌, ◌++◌, not, find,
  filter, All, Member, head, tail, if◌then◌else◌,
}
use auction_platform_backend.Live.{
  LiveRoom, LiveUser, Studio, is_room, is_user, is_vacant, user_in, media_of, get_auction_room,
  get_user, dispose_room, remove_user, leave_auction_room,
}
use auction_platform_backend.Live.Lookup.{find-update_first, find-filter, find-accepts}

module _ {A : Type 0} where
  Member-right : {m : A} (xs : List A) {ys : List A} → Member m ys → Member m (xs ++ ys)
  Member-right [] h = h
  Member-right (x ∷ xs) h = tail (Member-right xs h)

  Member-left : {m : A} {xs : List A} (ys : List A) → Member m xs → Member m (xs ++ ys)
  Member-left ys head = head
  Member-left ys (tail h) = tail (Member-left ys h)

  All-weaken : (P Q : A → Type 0) (xs : List A) → ((x : A) → P x → Q x) → All P xs → All Q xs
  All-weaken P Q [] k h = tt
  All-weaken P Q (x ∷ xs) k (hx, hs) = (k x hx, All-weaken P Q xs k hs)

  All-self : (xs : List A) → All (λ x. Member x xs) xs
  All-self [] = tt
  All-self (x ∷ xs) = (
    head,
    All-weaken (λ y. Member y xs) (λ y. Member y (x ∷ xs)) xs (λ y h. tail h) (All-self xs),
  )

All-units : {A : Type 0} (xs : List A) → All (λ x. Unit {0}) xs
All-units [] = tt
All-units (x ∷ xs) = (tt, All-units xs)

-- All of `ms` have been closed.
abbrev pub HasClosed : Studio → List ℕ → Type 0
HasClosed s ms = All (λ m. Member m s.closed) ms

closed_last : (xs ms : List ℕ) → All (λ m. Member m (xs ++ ms)) ms
closed_last xs ms =
    All-weaken (λ m. Member m ms) (λ m. Member m (xs ++ ms)) ms (λ m h. Member-right xs h)
      (All-self ms)

still_closed : (xs ys ms : List ℕ) → All (λ m. Member m xs) ms → All (λ m. Member m (xs ++ ys)) ms
still_closed xs ys ms h =
    All-weaken (λ m. Member m xs) (λ m. Member m (xs ++ ys)) ms (λ m q. Member-left ys q) h

-- What leaving does, for the room that is found.
module _ (k j : ℕ) (s : Studio) where
  abbrev pub IsGone : Option LiveRoom → Studio → Type 0
  IsGone o s' =
      (get_user k j s' ≡ none)
      × ((u : LiveUser) → user_in j o ≡ some u → HasClosed s' (media_of u))
      × ((r : LiveRoom)
          → o ≡ some r
          → is_vacant (filter (λ x. not (is_user j x)) r.users) ≡ true
          → (get_auction_room k s' ≡ none) × HasClosed s' (r.router ∷ []))

  removed-HasClosed :
      (o : Option LiveUser) (u : LiveUser)
      → o ≡ some u
      → HasClosed (remove_user k j o s) (media_of u)
  unfolding remove_user
  removed-HasClosed none u e = absurd (cc e)
  removed-HasClosed (some x) u e =
      let same : x ≡ u = cc in rw same (closed_last s.closed (media_of u))

  room_found : (r : LiveRoom) → find (is_room k) s.rooms ≡ some r → is_room k r ≡ true
  room_found r e = (find-accepts (is_room k) (λ x. Unit {0}) r s.rooms (All-units s.rooms) e).1

  removed-none :
      (r : LiveRoom)
      → find (is_room k) s.rooms ≡ some r
      → get_user k j (remove_user k j (find (is_user j) r.users) s) ≡ none
  unfolding remove_user get_user get_auction_room
  removed-none r e = go (find (is_user j) r.users) refl
    where
      go :
          (o : Option LiveUser)
          → find (is_user j) r.users ≡ o
          → user_in j (find (is_room k) (remove_user k j o s).rooms) ≡ none
      go none q = rw (e, q) refl
      go (some u) q =
          let f : LiveRoom → LiveRoom =
            λ x. record x { users = filter (λ y. not (is_user j y)) x.users } in
          rw (find-update_first (is_room k) f r s.rooms e (room_found r e))
            (find-filter (is_user j) r.users)

  -- The room that is found, after its user has been removed.
  leaves :
      (r : LiveRoom)
      → find (is_room k) s.rooms ≡ some r
      → IsGone (some r) (
          if is_vacant (filter (λ x. not (is_user j x)) r.users)
          then dispose_room k r (remove_user k j (find (is_user j) r.users) s)
          else remove_user k j (find (is_user j) r.users) s)
  unfolding dispose_room get_user get_auction_room
  leaves r e = go (is_vacant (filter (λ x. not (is_user j x)) r.users)) refl
    where
      rest : Studio
      rest = remove_user k j (find (is_user j) r.users) s

      go :
          (b : Bool)
          → is_vacant (filter (λ x. not (is_user j x)) r.users) ≡ b
          → IsGone (some r) (if b then dispose_room k r rest else rest)
      go true v = (
        rw (find-filter (is_room k) rest.rooms) refl,
        λ u q.
            still_closed rest.closed (r.router ∷ []) (media_of u)
              (removed-HasClosed (find (is_user j) r.users) u q),
        λ x same z. (
          find-filter (is_room k) rest.rooms,
          let eq : r ≡ x = cc in rw (sym eq) (closed_last rest.closed (r.router ∷ [])),
        ),
      )
      go false v = (
        removed-none r e,
        λ u q. removed-HasClosed (find (is_user j) r.users) u q,
        λ x same z.
            let eq : r ≡ x = cc in
            let z' : is_vacant (filter (λ y. not (is_user j y)) r.users) ≡ true = rw eq z in
            absurd (cc (sym v ∙ z')),
      )

  -- After a user has left a room, the room does not hold the user, and the producers, consumers and
  -- transports that the user had in it are closed; if nobody else was in the room, it is gone, and its
  -- router is closed.
  pub leave_auction_room-IsGone : IsGone (get_auction_room k s) (leave_auction_room k j s)
  unfolding leave_auction_room get_auction_room get_user
  leave_auction_room-IsGone = go (find (is_room k) s.rooms) refl
    where
      go :
          (o : Option LiveRoom)
          → find (is_room k) s.rooms ≡ o
          → IsGone o (elim o [
            | none ↦ s
            | some r ↦
                if is_vacant (filter (λ x. not (is_user j x)) r.users)
                then dispose_room k r (remove_user k j (find (is_user j) r.users) s)
                else remove_user k j (find (is_user j) r.users) s
          ])
      go none e = (rw e refl, λ u q. absurd (cc q), λ r q. absurd (cc q))
      go (some r) e = leaves r e
