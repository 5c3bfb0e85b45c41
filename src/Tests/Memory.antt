-- ===== src/Tests/Memory.antt =====
-- A platform held in memory: the tables as lists, newest row first.
use auction_platform_backend.Users.{UserAccount}
use auction_platform_backend.Otp.{Otp}
use auction_platform_backend.Prelude.{
  ℕ, ◌+◌, Bool, true, false, Option, none, some, List, [], ◌∷◌, leb, ◌==◌, filter, if◌then◌else◌,
  map,
}
use auction_platform_backend.Outcome.{Outcome, done, ok}
use auction_platform_backend.Auction.{Auction}
use auction_platform_backend.Auction.Bid.{
  Bid, AuctionParticipant, AuctionWinner, AutoBidConfig, get_amount,
}
use auction_platform_backend.Account.{Wallet, WalletTransaction}
use auction_platform_backend.Payment.{Payment}
use auction_platform_backend.Subscription.{UserSubscription}
use auction_platform_backend.Notice.{PublicFallbackAuction}
use auction_platform_backend.Services.{Platform, Receipt, AuctionEnded, FallbackJob}

pub record World : Type 0 where
  pub stored : Auction
  pub bids : List Bid
  pub participants : List AuctionParticipant
  pub winners : List AuctionWinner
  pub configs : List AutoBidConfig
  pub clock : ℕ
  pub next_id : ℕ
  pub lock_held : Option ℕ
  pub published : List AuctionEnded
  pub purse : Option Wallet
  pub entries : List WalletTransaction
  pub dues : List Payment
  pub verified : List Receipt
  pub jobs : List FallbackJob
  pub shelf : List Auction
  pub enrolled : UserSubscription
  pub offered : PublicFallbackAuction
  pub member : UserAccount
  pub code_row : Otp

-- The row of greatest amount.
abbrev pub greatest : Bid → List Bid → Bid
greatest b [] = b
greatest b (c ∷ cs) = greatest (if leb (get_amount b) (get_amount c) then c else b) cs

abbrev pub latest_of : List Bid → Option Bid
latest_of [] = none
latest_of (b ∷ bs) = some (greatest b bs)

abbrev pub first : {A : Type 0} → List A → Option A
first [] = none
first (x ∷ xs) = some x

abbrev pub bids_of : ℕ → List Bid → List Bid
bids_of user bs = filter (λ b. b.user_id == user) bs

abbrev pub take_lock : Option ℕ → ℕ → World → Outcome Bool × World
take_lock none token w = (done true, record w { lock_held = some token })
take_lock (some t) token w = (done false, w)

-- A payment in place of the one with its identifier.
abbrev pub replaced : Payment → Payment → Payment
replaced x y = if x.id == y.id then x else y

abbrev pub memory : Platform World
memory = record {
  runtime = record {
    generate_id = λ w. (w.next_id, record w { next_id = w.next_id + 1 });
    now = λ w. w.clock;
  };
  encryption = record { encrypt = λ n. ok n; decrypt = λ c. ok (some c) };
  auctions = record {
    find_by_id = λ i w. (done (if w.stored.id == i then some w.stored else none), w);
    save = λ a w. (done a, record w { stored = a });
    find_overdue_active_auctions = λ n now w. (done (w.stored ∷ []), w);
  };
  bids = record {
    find_latest_by_auction_id = λ i w. (done (latest_of w.bids), w);
    find_last_bids_by_user = λ i u w. (done (first (bids_of u w.bids)), w);
    find_all_by_auction_id = λ i w. (done w.bids, w);
    create = λ b w. (done b, record w { bids = b ∷ w.bids });
  };
  participants = record {
    find_by_auction_id = λ i w. (done w.participants, w);
    save = λ x w. (done x, record w { participants = x ∷ w.participants });
  };
  winners = record {
    find_all_by_auction_id = λ i w. (done w.winners, w);
    save = λ x w. (done x, record w { winners = x ∷ w.winners });
  };
  configs = record {
    find_by_user_and_auction =
        λ u i w. (done (first (filter (λ (c : AutoBidConfig). c.user_id == u) w.configs)), w);
    find_active_by_auction_id =
        λ i w. (done (filter (λ (c : AutoBidConfig). c.is_active) w.configs), w);
    disable_all_active_by_auction_id = λ i w. (done tt, record w { configs = [] });
    save = λ x w. (done x, record w { configs = x ∷ w.configs });
  };
  locks = record {
    lock = λ k token n w. take_lock w.lock_held token w;
    release = λ k token w. record w { lock_held = none };
  };
  config = record {
    auction_winner_fallback_max_rank = λ w. (done 2, w);
    auction_expiry_batch_size = λ w. (done 50, w);
    auction_min_start_price = λ w. (done 500, w);
    auction_max_max_extension_count = λ w. (done 10, w);
    auction_participant_initial_deposit_ratio = λ w. (done 1000, w);
    auction_winner_deposit_split_ratio = λ w. (done 2500, w);
    auction_payment_deposit_due_ms = λ w. (done 86400000, w);
    auction_payment_balance_due_ms = λ w. (done 2592000000, w);
  };
  events = record {
    publish = λ e w. record w { published = e ∷ w.published };
    publish_notification = λ n w. w;
  };
  wallets = record {
    find_by_user_id = λ i w. (done (if i == 1 then w.purse else none), w);
    save = λ x w. (done x, if x.user_id == 1 then record w { purse = some x } else w);
  };
  transactions = record { create = λ t w. (done t, record w { entries = t ∷ w.entries }) };
  users = record { find_by_id = λ i w. (done (some (record { id = i; name = "ann" })), w) };
  payments = record {
    find_by_id = λ i w. (done (first (filter (λ (x : Payment). x.id == i) w.dues)), w);
    find_by_reference_user_and_phase =
        λ i u f w. (done (first (filter (λ (x : Payment). x.user_id == u) w.dues)), w);
    create = λ x w. (done x, record w { dues = x ∷ w.dues });
    update = λ i x w. (done x, record w { dues = map (replaced x) w.dues });
    decline_all_pending_for_auction_user = λ i u w. (done tt, w);
  };
  reports = record { save = λ x w. (done x, w) };
  fallback_queue = record { enqueue = λ j w. (done tt, record w { jobs = j ∷ w.jobs }) };
  notifications = record { save = λ n w. (done n, w) };
  public_fallbacks = record { save = λ x w. (done x, w) };
  gateway = record { verify_payment = λ r w. (done 0, record w { verified = r ∷ w.verified }) };
  plans = record { can_place_bid = λ u i w. (done true, w) };
}
