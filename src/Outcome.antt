-- ===== src/Outcome.antt =====
-- How a call ends: `Result` of src/domain/shared/result.ts, and asynchronous methods that return
-- one. A `Result` here is always well formed, as the private constructor of the source ensures.
pub mod Post
pub mod Verdict
pub mod World
use auction_platform_backend.Prelude.{ℕ, Bool, true, false, Option, none, some}

-- The failure messages of the source, one constructor for each. `passed_on` stands for whatever
-- message a repository or a service gives, with a number to tell these apart.
pub data Error : Type 0 where
  passed_on : ℕ → Error
  -- src/domain/constants/auction.constants.ts
  auction_not_active auction_not_started auction_ended seller_cannot_place_bid : Error
  only_one_bid_per_user : Error
  cooldown_wait : ℕ → Error
  bid_below_min : ℕ → ℕ → Error
  -- the auction entity
  category_not_approved category_not_pending extension_count_exceeds_max min_increment_too_low :
      Error
  already_ended invalid_after_fallback already_sold win_amount_too_low : Error
  -- the bid and the configuration of automatic bids
  amount_and_encrypted max_bid_amount_not_positive : Error
  -- the auction use cases
  bid_limit_reached bid_being_processed manual_while_auto_bid not_paid_participant : Error
  auction_not_found unexpected_error not_authorized not_authorized_to_publish
        not_authorized_to_update only_active_can_be_ended :
      Error
  only_active_can_be_paused only_paused_can_be_resumed only_draft_can_be_published
        only_draft_can_be_updated :
      Error
  end_time_already_passed start_price_too_low max_extension_count_too_high : Error
  invalid_sealed_amount : Error
  auto_bid_only_for_active auto_bid_only_for_long config_exists config_not_found : Error
  -- the creation of an auction
  start_price_below_500 increment_below_one extension_count_above_10 start_too_far_from_end : Error
  auction_limit_reached category_not_found category_exists category_slug_empty : Error
  -- users and their documents
  kyc_already_pending kyc_already_approved kyc_already_rejected only_pending_kyc_approved : Error
  only_pending_kyc_rejected only_rejected_kyc_reset kyc_entity_error updated_kyc_error : Error
  kyc_not_found already_seller account_blocked account_suspended fraud_report_not_found
        report_not_open :
      Error
  invalid_email invalid_auth_provider not_local invalid_password too_many_otps invalid_token : Error
  invalid_email_format otp_not_found otp_blocked invalid_otp otp_already_verified : Error
  token_blocked token_already_verified only_local_reset email_or_phone_exists name_too_short : Error
  no_otp_found otp_expired otp_expired_ask_again otp_blocked_ask_again wrong_otp : Error
  invalid_old_password same_password too_many_otps_sent : Error
  -- one-time passwords
  otp_already_expired : Error
  -- wallets
  negative_balance negative_held_balance insufficient_balance wallet_not_found : Error
  auction_not_fallback_ended : Error
  amount_not_positive user_not_found : Error
  -- public payments
  not_public_notification previous_winner_cannot_pay fallback_not_found fallback_not_pending : Error
  fallback_not_pending_payment participant_rejected participant_not_pending : Error
  participant_not_found payment_status_not_pending amount_must_be_positive : Error
  -- subscriptions
  user_subscription_not_found subscription_plan_not_found event_missing subscription_id_missing :
      Error
  invalid_event webhook_failed bids_of_plan_used_up auctions_of_plan_used_up : Error
  already_subscribed key_not_configured plan_not_available : Error
  -- live auctions
  not_a_live_auction auction_is_not_active router_not_found live_room_not_ready : Error
  live_user_not_joined transport_not_found only_host_can_publish send_transport_not_ready : Error
  recv_transport_not_ready cannot_consume consumer_not_found : Error
  -- payments
  payment_amount_not_positive payment_not_pending payment_not_found : Error
  not_authorized_to_verify not_authorized_to_decline only_pending_can_be_verified
        only_pending_can_be_declined user_id_required :
      Error

pub data Result (A : Type 0) : Type 0 where
  ok : A → Result A
  fail : Error → Result A

-- An awaited call that returns a `Result`: it resolves to either kind, or it throws.
pub data Outcome (A : Type 0) : Type 0 where
  done : A → Outcome A
  failed : Error → Outcome A
  thrown : Outcome A

-- An asynchronous method over a world `W` of databases, queues and clocks.
abbrev pub M : Type 0 → Type 0 → Type 0
M W A = W → Outcome A × W

module _ {W A : Type 0} where
  abbrev pub return : A → M W A
  return a w = (done a, w)

  -- `return Result.fail(e)`
  abbrev pub give_up : Error → M W A
  give_up e w = (failed e, w)

  -- `if (r.isFailure) return Result.fail(r.getError()); const a = r.getValue();`
  abbrev pub settle : Result A → M W A
  settle (ok a) w = (done a, w)
  settle (fail e) w = (failed e, w)

  -- `if (r.isFailure) return Result.fail(e);` with a message of its own.
  abbrev pub settle_as : Error → Result A → M W A
  settle_as e (ok a) w = (done a, w)
  settle_as e (fail x) w = (failed e, w)

  -- A value that is read without a test: reading from null throws.
  abbrev pub unwrap : Option A → M W A
  unwrap none w = (thrown, w)
  unwrap (some a) w = (done a, w)

  -- `if (!o) return Result.fail(e);`
  abbrev pub require : Option A → Error → M W A
  require none e w = (failed e, w)
  require (some a) e w = (done a, w)

  -- `r.getValue()`, which throws on a failed result.
  abbrev pub value_of : Result A → M W A
  value_of (ok a) w = (done a, w)
  value_of (fail e) w = (thrown, w)

  -- What `attempt` makes of an outcome.
  abbrev pub attempted : Outcome A × W → Outcome (Result A) × W
  attempted (done a, w) = (done (ok a), w)
  attempted (failed e, w) = (done (fail e), w)
  attempted (thrown, w) = (thrown, w)

  -- `const r = await m;`, with the failure left for later.
  abbrev pub attempt : M W A → M W (Result A)
  attempt m w = attempted (m w)

  -- What `or_catch` makes of an outcome.
  abbrev pub caught : Outcome A × W → Error → Outcome A × W
  caught (done a, w) e = (done a, w)
  caught (failed e', w) e = (failed e', w)
  caught (thrown, w) e = (failed e, w)

  -- `try { … } catch { return Result.fail(e); }`
  abbrev pub or_catch : M W A → Error → M W A
  or_catch m e w = caught (m w) e

  -- `try { … } finally { … }`, where the last block does not throw.
  abbrev pub finally : M W A → (W → W) → M W A
  finally m k w = let (r, w') = m w in (r, k w')

module _ {W : Type 0} where
  -- What follows a call: nothing, if the call failed or threw.
  abbrev pub and_then : {A B : Type 0} → Outcome A × W → (A → M W B) → Outcome B × W
  and_then (done a, w) f = f a w
  and_then (failed e, w) f = (failed e, w)
  and_then (thrown, w) f = (thrown, w)

  -- A call that neither fails nor throws.
  abbrev pub gives : {A : Type 0} → (W → A × W) → M W A
  gives f w = let (a, w') = f w in (done a, w')

  abbrev pub gets : {A : Type 0} → (W → A) → M W A
  gets f w = (done (f w), w)

  abbrev pub acts : (W → W) → M W (Unit {0})
  acts f w = (done tt, f w)

  -- `if (c) return Result.fail(e);`
  abbrev pub fail_if : Bool → Error → M W (Unit {0})
  fail_if true e w = (failed e, w)
  fail_if false e w = (done tt, w)

  -- `if (c) throw new Error(...);`
  abbrev pub throw_if : Bool → M W (Unit {0})
  throw_if true w = (thrown, w)
  throw_if false w = (done tt, w)

  infixl 5 ◌>>=◌ ◌>>◌
  abbrev pub ◌>>=◌ : {A B : Type 0} → M W A → (A → M W B) → M W B
  ◌>>=◌ m f w = and_then (m w) f

  abbrev pub ◌>>◌ : {A B : Type 0} → M W A → M W B → M W B
  m >> k = m >>= λ _. k
