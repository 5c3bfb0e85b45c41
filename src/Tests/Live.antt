-- ===== src/Tests/Live.antt =====
-- Live auctions at concrete inputs.
use auction_platform_backend.Prelude.{ℕ, ◌+◌, ◌≡◌, refl, true, none, some, List, [], ◌∷◌, ◌==◌}
use auction_platform_backend.Outcome.{done}
use auction_platform_backend.Live.{Studio, host, send, get_auction_room, leave_auction_room}
use auction_platform_backend.Live.Handlers.{LivePlatform}
use auction_platform_backend.Live.Laws.{LiveLaws, IsHosted}
use auction_platform_backend.Live.Calls.{
  Call, join_it, transport_it, produce_it, leave_it, run_all, run_all-IsHosted,
}
use auction_platform_backend.Live.Leaving.{IsGone, leave_auction_room-IsGone}

record Stage : Type 0 where
  rooms : Studio
  next_id : ℕ

-- User 7 sells in every auction, and user 9 is an admin.
abbrev stage : LivePlatform Stage
stage = record {
  studio = λ w. w.rooms;
  put_studio = λ s w. record w { rooms = s };
  user_of = λ j. record { id = j; is_admin = j == 9 };
  auction_room = λ i k w. (done (record { is_live = true; is_active = true; seller_id = 7 }), w);
  join = λ j k w. (done tt, w);
  create_router = λ w. (done w.next_id, record w { next_id = w.next_id + 1 });
  create_transport = λ r w. (done w.next_id, record w { next_id = w.next_id + 1 });
  connect = λ t w. (done tt, w);
  produce = λ t w. (done w.next_id, record w { next_id = w.next_id + 1 });
  can_consume = λ r p w. true;
  consume = λ t p w. (done w.next_id, record w { next_id = w.next_id + 1 });
  resume = λ c w. (done tt, w);
  emit = λ k x w. w;
}

stage-LiveLaws : LiveLaws stage (λ k. 7)
stage-LiveLaws = record {
  put_law = λ s w. refl;
  emit_keeps = λ k x w. refl;
  view_law = λ i k w. (refl, refl);
  join_keeps = λ j k w. refl;
  router_keeps = λ w. refl;
  transport_keeps = λ r w. refl;
  connect_keeps = λ t w. refl;
  produce_keeps = λ t w. refl;
  consume_keeps = λ t p w. refl;
  resume_keeps = λ c w. refl;
}

abbrev empty_stage : Stage
empty_stage = record { rooms = record { rooms = []; closed = [] }; next_id = 100 }

-- The seller speaks and leaves, and user 8 may only watch.
abbrev calls : List Call
calls =
    join_it 7 1
    ∷ join_it 8 1
    ∷ transport_it 7 1 send
    ∷ transport_it 8 1 send
    ∷ produce_it 7 1
    ∷ produce_it 8 1
    ∷ leave_it 7 (1 ∷ [])
    ∷ []

run_all-IsHosted_example : IsHosted stage (λ k. 7) (run_all stage calls empty_stage)
run_all-IsHosted_example = run_all-IsHosted stage (λ k. 7) stage-LiveLaws calls empty_stage tt

-- A room with its seller, who has one producer.
abbrev solo : Studio
solo = record {
  rooms =
      record {
        room_id = 1;
        router = 100;
        users =
            record {
              id = 7;
              role = host;
              is_enabled_to_speak = true;
              send_transport = some 101;
              recv_transport = none;
              producers = 102 ∷ [];
              consumers = [];
            }
            ∷ [];
      }
      ∷ [];
  closed = [];
}

all_closed : (leave_auction_room 1 7 solo).closed ≡ 102 ∷ 101 ∷ 100 ∷ []
unfolding leave_auction_room
all_closed = refl

leave_auction_room-IsGone_example :
    IsGone 1 7 solo (get_auction_room 1 solo) (leave_auction_room 1 7 solo)
leave_auction_room-IsGone_example = leave_auction_room-IsGone 1 7 solo
