-- ===== src/Live.antt =====
-- The rooms of live auctions: src/socket/managers/liveAuctionRoom.manager.ts, and the handlers of
-- src/socket/handler/auction.handler.ts that use them, with `parseLiveRoomId` as the identity. A map
-- is a list in the order of insertion. Transports, producers, consumers and routers are numbers that
-- the media server gives; `closed` collects those that the code closes.
pub mod Handlers
pub mod Lookup
pub mod Leaving
pub mod Hosts
pub mod Laws
pub mod Visits
pub mod Calls
use auction_platform_backend.Prelude.{
  ℕ, ◌+◌, Bool, true, false, Option, none, some, List, [], ◌∷◌, ◌++◌, not, any, find, filter, ◌==◌,
  ◌||◌, if◌then◌else◌,
}
use auction_platform_backend.Outcome.{
  M, return, give_up, settle, attempt, gives, gets, acts, require, fail_if, ◌>>=◌, ◌>>◌,
  not_a_live_auction, auction_is_not_active, router_not_found, live_room_not_ready,
  live_user_not_joined, transport_not_found, only_host_can_publish, send_transport_not_ready,
  recv_transport_not_ready, cannot_consume, consumer_not_found,
}

pub data LiveRole : Type 0 where
  host viewer : LiveRole

pub data Direction : Type 0 where
  send recv : Direction

pub record LiveUser : Type 0 where
  pub id : ℕ
  pub role : LiveRole
  pub is_enabled_to_speak : Bool
  pub send_transport : Option ℕ
  pub recv_transport : Option ℕ
  pub producers : List ℕ
  pub consumers : List ℕ

pub record LiveRoom : Type 0 where
  pub room_id : ℕ
  pub router : ℕ
  pub users : List LiveUser

pub record Studio : Type 0 where
  pub rooms : List LiveRoom
  pub closed : List ℕ

-- The first element that a test accepts is changed.
abbrev pub update_first : {A : Type 0} → (A → Bool) → (A → A) → List A → List A
update_first p f [] = []
update_first p f (x ∷ xs) = if p x then f x ∷ xs else x ∷ update_first p f xs

abbrev pub is_room : ℕ → LiveRoom → Bool
is_room i r = r.room_id == i

abbrev pub is_user : ℕ → LiveUser → Bool
is_user j u = u.id == j

-- `Map.set`
abbrev pub put_user : LiveUser → List LiveUser → List LiveUser
put_user u us =
    if any (is_user u.id) us then update_first (is_user u.id) (λ x. u) us else us ++ (u ∷ [])

abbrev pub change_room : ℕ → (LiveRoom → LiveRoom) → Studio → Studio
change_room i f s = record s { rooms = update_first (is_room i) f s.rooms }

-- `getUser` and a change of what it gives.
abbrev pub change_user : ℕ → ℕ → (LiveUser → LiveUser) → Studio → Studio
change_user i j f = change_room i (λ r. record r { users = update_first (is_user j) f r.users })

unfoldable pub get_auction_room : ℕ → Studio → Option LiveRoom
get_auction_room i s = find (is_room i) s.rooms

unfoldable pub create_auction_room : ℕ → ℕ → Studio → Studio
create_auction_room i router s =
    if any (is_room i) s.rooms
    then s
    else record s { rooms = s.rooms ++ (record { room_id = i; router = router; users = [] } ∷ []) }

unfoldable pub join_auction_room : ℕ → LiveUser → Studio → Studio
join_auction_room i u = change_room i (λ r. record r { users = put_user u r.users })

abbrev pub media : Option ℕ → List ℕ
media none = []
media (some t) = t ∷ []

-- What `closeUserMedia` closes.
abbrev pub media_of : LiveUser → List ℕ
media_of u = u.producers ++ (u.consumers ++ (media u.send_transport ++ media u.recv_transport))

abbrev pub close : List ℕ → Studio → Studio
close ms s = record s { closed = s.closed ++ ms }

abbrev pub is_vacant : List LiveUser → Bool
is_vacant [] = true
is_vacant (u ∷ us) = false

unfoldable pub dispose_room : ℕ → LiveRoom → Studio → Studio
dispose_room i r s =
    close (r.router ∷ []) (record s { rooms = filter (λ x. not (is_room i x)) s.rooms })

-- `users.delete`, after the media of the user have been closed.
unfoldable pub remove_user : ℕ → ℕ → Option LiveUser → Studio → Studio
remove_user i j none s = s
remove_user i j (some u) s =
    close (media_of u)
      (change_room i (λ r. record r { users = filter (λ x. not (is_user j x)) r.users }) s)

abbrev pub user_in : ℕ → Option LiveRoom → Option LiveUser
user_in j none = none
user_in j (some r) = find (is_user j) r.users

unfoldable pub get_user : ℕ → ℕ → Studio → Option LiveUser
unfolding get_auction_room
get_user i j s = user_in j (get_auction_room i s)

unfoldable pub leave_auction_room : ℕ → ℕ → Studio → Studio
unfolding get_auction_room remove_user dispose_room
leave_auction_room i j s = elim (get_auction_room i s) [
  | none ↦ s
  | some r ↦
      if is_vacant (filter (λ x. not (is_user j x)) r.users)
      then dispose_room i r (remove_user i j (find (is_user j) r.users) s)
      else remove_user i j (find (is_user j) r.users) s
]

abbrev pub all_producers : List LiveUser → List ℕ
all_producers [] = []
all_producers (u ∷ us) = u.producers ++ all_producers us

unfoldable pub get_producers : ℕ → Studio → List ℕ
unfolding get_auction_room
get_producers i s = elim (get_auction_room i s) [ none ↦ [] | some r ↦ all_producers r.users ]

abbrev pub transport_of : Direction → LiveUser → Option ℕ
transport_of send u = u.send_transport
transport_of recv u = u.recv_transport

abbrev pub with_transport : Direction → ℕ → LiveUser → LiveUser
with_transport send t u = record u { send_transport = some t }
with_transport recv t u = record u { recv_transport = some t }

-- The transport that is replaced is closed.
unfoldable pub set_transport : ℕ → ℕ → Direction → ℕ → Studio → Studio
unfolding get_user
set_transport i j way t s = elim (get_user i j s) [
  | none ↦ s
  | some u ↦ close (media (transport_of way u)) (change_user i j (with_transport way t) s)
]

unfoldable pub get_transport : ℕ → ℕ → Direction → Studio → Option ℕ
unfolding get_user
get_transport i j way s = elim (get_user i j s) [ none ↦ none | some u ↦ transport_of way u ]

unfoldable pub add_producer : ℕ → ℕ → ℕ → Studio → Studio
add_producer i j p = change_user i j (λ u. record u { producers = u.producers ++ (p ∷ []) })

unfoldable pub add_consumer : ℕ → ℕ → ℕ → Studio → Studio
add_consumer i j c = change_user i j (λ u. record u { consumers = u.consumers ++ (c ∷ []) })

-- `splice(idx, 1)`
abbrev pub drop_first : ℕ → List ℕ → List ℕ
drop_first p [] = []
drop_first p (x ∷ xs) = if x == p then xs else x ∷ drop_first p xs

unfoldable pub remove_producer : ℕ → ℕ → Studio → Studio
remove_producer i p = change_room i (λ r. record r {
  users =
      update_first (λ u. any (λ x. x == p) u.producers)
        (λ u. record u { producers = drop_first p u.producers }) r.users;
})
