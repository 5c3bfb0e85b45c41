-- ===== src/Live/Handlers.antt =====
-- The handlers of src/socket/handler/auction.handler.ts for live auctions. A payload is taken as it
-- is parsed, and the parameters of the media protocol are left out, as are the counts of watchers.
use auction_platform_backend.Prelude.{
  ℕ, Bool, Option, none, some, List, [], ◌∷◌, not, find, ◌==◌, ◌||◌, if◌then◌else◌,
}
use auction_platform_backend.Outcome.{
  M, return, gets, acts, require, fail_if, ◌>>=◌, ◌>>◌, not_a_live_auction, auction_is_not_active,
  router_not_found, live_room_not_ready, live_user_not_joined, transport_not_found,
  only_host_can_publish, send_transport_not_ready, recv_transport_not_ready, cannot_consume,
  consumer_not_found,
}
use auction_platform_backend.Live.{
  host, viewer, Direction, send, recv, LiveUser, LiveRoom, Studio, get_auction_room,
  create_auction_room, join_auction_room, leave_auction_room, get_user, get_producers,
  set_transport, get_transport, add_producer, add_consumer, remove_producer, close,
}

-- The user of a connected socket.
pub record SocketUser : Type 0 where
  pub id : ℕ
  pub is_admin : Bool

-- What `GetAuctionRoomUsecase` tells of an auction here.
pub record RoomView : Type 0 where
  pub is_live : Bool
  pub is_active : Bool
  pub seller_id : ℕ

pub data Signal : Type 0 where
  new_producer : ℕ → ℕ → Signal
  producer_closed : ℕ → Signal

-- The socket server, the media server, and the manager of rooms as a part of the world.
pub record LivePlatform (W : Type 0) : Type 0 where
  pub studio : W → Studio
  pub put_studio : Studio → W → W
  pub user_of : ℕ → SocketUser
  pub auction_room : ℕ → ℕ → M W RoomView
  pub join : ℕ → ℕ → M W (Unit {0})
  pub create_router : M W ℕ
  pub create_transport : ℕ → M W ℕ
  pub connect : ℕ → M W (Unit {0})
  pub produce : ℕ → M W ℕ
  pub can_consume : ℕ → ℕ → W → Bool
  pub consume : ℕ → ℕ → M W ℕ
  pub resume : ℕ → M W (Unit {0})
  pub emit : ℕ → Signal → W → W

abbrev pub live_user : ℕ → Bool → LiveUser
live_user socket is_host = record {
  id = socket;
  role = if is_host then host else viewer;
  is_enabled_to_speak = is_host;
  send_transport = none;
  recv_transport = none;
  producers = [];
  consumers = [];
}

module _ {W : Type 0} (d : LivePlatform W) where
  open d use {studio, put_studio, user_of, auction_room, join, create_router, can_consume, emit}

  unfoldable pub changes : (Studio → Studio) → W → W
  changes f w = put_studio (f (studio w)) w

  unfoldable pub open_room : ℕ → Option LiveRoom → M W (Unit {0})
  open_room k none = do router ← create_router; acts (changes (create_auction_room k router))
  open_room k (some r) = return tt

  -- `handleLiveAuctionGetCapabilities`, which joins the room.
  unfoldable pub get_capabilities : ℕ → ℕ → M W (ℕ × List ℕ)
  get_capabilities socket k = do
    view ← auction_room (user_of socket).id k
    fail_if (not view.is_live) not_a_live_auction
    fail_if (not view.is_active) auction_is_not_active
    before ← gets studio
    open_room k (get_auction_room k before)
    after ← gets studio
    room ← require (get_auction_room k after) router_not_found
    join socket k
    acts (
        changes (
          join_auction_room k (
            live_user socket ((user_of socket).is_admin || view.seller_id == (user_of socket).id))))
    s ← gets studio
    return (room.router, get_producers k s)

  -- `handleLiveAuctionCreateTransport`.
  unfoldable pub create_live_transport : ℕ → ℕ → Direction → M W ℕ
  create_live_transport socket k way = do
    s ← gets studio
    room ← require (get_auction_room k s) live_room_not_ready
    u ← require (get_user k socket s) live_user_not_joined
    t ← d.create_transport room.router
    acts (changes (set_transport k socket way t))
    return t

  -- `handleLiveAuctionConnectTransport`.
  unfoldable pub connect_live_transport : ℕ → ℕ → Direction → M W (Unit {0})
  connect_live_transport socket k way = do
    s ← gets studio
    u ← require (get_user k socket s) live_user_not_joined
    t ← require (get_transport k socket way s) transport_not_found
    d.connect t

  -- `handleLiveAuctionProduce`.
  unfoldable pub produce_live : ℕ → ℕ → M W ℕ
  produce_live socket k = do
    s ← gets studio
    u ← require (get_user k socket s) only_host_can_publish
    fail_if (not u.is_enabled_to_speak) only_host_can_publish
    t ← require (get_transport k socket send s) send_transport_not_ready
    p ← d.produce t
    acts (changes (add_producer k socket p))
    acts (emit k (new_producer p socket))
    return p

  -- `handleLiveAuctionConsume`.
  unfoldable pub consume_live : ℕ → ℕ → ℕ → M W ℕ
  consume_live socket k producer = do
    s ← gets studio
    room ← require (get_auction_room k s) recv_transport_not_ready
    u ← require (get_user k socket s) recv_transport_not_ready
    t ← require (get_transport k socket recv s) recv_transport_not_ready
    allowed ← gets (can_consume room.router producer)
    fail_if (not allowed) cannot_consume
    c ← d.consume t producer
    acts (changes (add_consumer k socket c))
    d.resume c
    return c

  -- `handleLiveAuctionResumeConsumer`.
  unfoldable pub resume_consumer : ℕ → ℕ → ℕ → M W (Unit {0})
  resume_consumer socket k consumer = do
    s ← gets studio
    u ← require (get_user k socket s) live_user_not_joined
    c ← require (find (λ c. c == consumer) u.consumers) consumer_not_found
    d.resume c

  -- `handleSocketDisconnect`, for the rooms of a socket.
  unfoldable pub disconnect : ℕ → List ℕ → W → W
  disconnect socket [] w = w
  disconnect socket (k ∷ ks) w = disconnect socket ks (changes (leave_auction_room k socket) w)

  -- What `handleLiveAuctionProduce` does when the transport of a producer closes.
  unfoldable pub transport_closed : ℕ → ℕ → W → W
  transport_closed k p w =
      emit k (producer_closed p) (changes (λ s. remove_producer k p (close (p ∷ []) s)) w)
