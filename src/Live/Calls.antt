-- ===== src/Live/Calls.antt =====
-- Any sequence of calls of the handlers for live auctions.
use auction_platform_backend.Prelude.{ℕ, List, [], ◌∷◌}
use auction_platform_backend.Live.{Direction, leave_auction_room, remove_producer, close}
use auction_platform_backend.Live.Handlers.{
  LivePlatform, changes, get_capabilities, create_live_transport, connect_live_transport,
  produce_live, consume_live, resume_consumer, disconnect, transport_closed,
}
use auction_platform_backend.Live.Hosts.{leave_auction_room-IsSound, remove_producer-IsSound}
use auction_platform_backend.Live.Laws.{LiveLaws, MayHost, IsHosted, changed}
use auction_platform_backend.Live.Visits.{
  get_capabilities-IsHosted, create_live_transport-IsHosted, connect_live_transport-IsHosted,
  produce_live-IsHosted, consume_live-IsHosted, resume_consumer-IsHosted,
}

pub data Call : Type 0 where
  join_it : ℕ → ℕ → Call
  transport_it : ℕ → ℕ → Direction → Call
  connect_it : ℕ → ℕ → Direction → Call
  produce_it : ℕ → ℕ → Call
  consume_it : ℕ → ℕ → ℕ → Call
  resume_it : ℕ → ℕ → ℕ → Call
  leave_it : ℕ → List ℕ → Call
  transport_gone : ℕ → ℕ → Call

module _ {W : Type 0} (d : LivePlatform W) where
  unfoldable pub run : Call → W → W
  run (join_it socket k) w = (get_capabilities d socket k w).1
  run (transport_it socket k way) w = (create_live_transport d socket k way w).1
  run (connect_it socket k way) w = (connect_live_transport d socket k way w).1
  run (produce_it socket k) w = (produce_live d socket k w).1
  run (consume_it socket k p) w = (consume_live d socket k p w).1
  run (resume_it socket k c) w = (resume_consumer d socket k c w).1
  run (leave_it socket ks) w = disconnect d socket ks w
  run (transport_gone k p) w = transport_closed d k p w

  unfoldable pub run_all : List Call → W → W
  run_all [] w = w
  run_all (c ∷ cs) w = run_all cs (run c w)

module _ {W : Type 0} (d : LivePlatform W) (seller : ℕ → ℕ) (laws : LiveLaws d seller) where
  open d use {studio, user_of, auction_room, join, create_router}

  abbrev Hosted : W → Type 0
  Hosted = IsHosted d seller

  disconnect-IsHosted :
      (socket : ℕ) (ks : List ℕ) (w : W) → Hosted w → Hosted (disconnect d socket ks w)
  unfolding disconnect
  disconnect-IsHosted socket [] w h = h
  disconnect-IsHosted socket (k ∷ ks) w h =
      disconnect-IsHosted socket ks (changes d (leave_auction_room k socket) w) (
        changed d seller laws (leave_auction_room k socket) w
          (leave_auction_room-IsSound (MayHost d seller) k socket (studio w) h))

  transport_closed-IsHosted : (k p : ℕ) (w : W) → Hosted w → Hosted (transport_closed d k p w)
  unfolding transport_closed
  transport_closed-IsHosted k p w h = rw (laws.emit_keeps k _ _) (
      changed d seller laws (λ s. remove_producer k p (close (p ∷ []) s)) w
        (remove_producer-IsSound (MayHost d seller) k p (close (p ∷ []) (studio w)) h))

  run-IsHosted : (c : Call) (w : W) → Hosted w → Hosted (run d c w)
  unfolding run
  run-IsHosted (join_it socket k) w h = get_capabilities-IsHosted d seller laws socket k w h
  run-IsHosted (transport_it socket k way) w h =
      create_live_transport-IsHosted d seller laws socket k way w h
  run-IsHosted (connect_it socket k way) w h =
      connect_live_transport-IsHosted d seller laws socket k way w h
  run-IsHosted (produce_it socket k) w h = produce_live-IsHosted d seller laws socket k w h
  run-IsHosted (consume_it socket k p) w h = consume_live-IsHosted d seller laws socket k p w h
  run-IsHosted (resume_it socket k c) w h = resume_consumer-IsHosted d seller laws socket k c w h
  run-IsHosted (leave_it socket ks) w h = disconnect-IsHosted socket ks w h
  run-IsHosted (transport_gone k p) w h = transport_closed-IsHosted k p w h

  -- Through any sequence of calls of the handlers for live auctions, by whatever sockets and however
  -- each of them ends, whoever is enabled to speak or has a producer in the room of an auction is an
  -- admin or the seller of that auction.
  pub run_all-IsHosted :
      (cs : List Call) (w : W) → IsHosted d seller w → IsHosted d seller (run_all d cs w)
  unfolding run_all
  run_all-IsHosted [] w h = h
  run_all-IsHosted (c ∷ cs) w h = run_all-IsHosted cs (run d c w) (run-IsHosted c w h)
