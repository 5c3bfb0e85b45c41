-- ===== src/Services.antt =====
-- The interfaces through which the use cases reach databases, queues, locks and clocks
-- (src/domain/repositories, src/application/interfaces/services), as records of operations over
-- a world `W`. What implements them (Prisma, Redis, Razorpay) is not part of the model.
use auction_platform_backend.Prelude.{ℕ, Bool, Option, List}
use Prim.Native.String.{String}
use auction_platform_backend.Outcome.{M, Result}
use auction_platform_backend.Auction.{Auction}
use auction_platform_backend.Account.{Wallet, WalletTransaction}
use auction_platform_backend.Notice.{Notification, PublicFallbackAuction}
use auction_platform_backend.Fraud.{FraudReport}
use auction_platform_backend.Payment.{Payment, PaymentPhase}
use auction_platform_backend.Auction.Bid.{Bid, AuctionParticipant, AuctionWinner, AutoBidConfig}

-- `IIdGeneratingService` and `Date.now()`.
pub record Runtime (W : Type 0) : Type 0 where
  pub generate_id : W → ℕ × W
  pub now : W → ℕ

-- `IAuctionRepository`.
pub record AuctionRepository (W : Type 0) : Type 0 where
  pub find_by_id : ℕ → M W (Option Auction)
  pub save : Auction → M W Auction
  pub find_overdue_active_auctions : ℕ → ℕ → M W (List Auction)

-- `IBidRepository`.
pub record BidRepository (W : Type 0) : Type 0 where
  pub find_latest_by_auction_id : ℕ → M W (Option Bid)
  pub find_last_bids_by_user : ℕ → ℕ → M W (Option Bid)
  pub find_all_by_auction_id : ℕ → M W (List Bid)
  pub create : Bid → M W Bid

-- `IAuctionParticipantRepository`.
pub record ParticipantRepository (W : Type 0) : Type 0 where
  pub find_by_auction_id : ℕ → M W (List AuctionParticipant)
  pub save : AuctionParticipant → M W AuctionParticipant

-- `IAuctionWinnerRepository`.
pub record WinnerRepository (W : Type 0) : Type 0 where
  pub find_all_by_auction_id : ℕ → M W (List AuctionWinner)
  pub save : AuctionWinner → M W AuctionWinner

-- `IAutoBidConfigRepository`.
pub record AutoBidConfigRepository (W : Type 0) : Type 0 where
  pub find_by_user_and_auction : ℕ → ℕ → M W (Option AutoBidConfig)
  pub find_active_by_auction_id : ℕ → M W (List AutoBidConfig)
  pub disable_all_active_by_auction_id : ℕ → M W (Unit {0})
  pub save : AutoBidConfig → M W AutoBidConfig

-- `IBidLockService`: the key is that of the auction, and `release` catches what it throws.
pub record BidLockService (W : Type 0) : Type 0 where
  pub lock : ℕ → ℕ → ℕ → M W Bool
  pub release : ℕ → ℕ → W → W

-- `IEncryptionService`. A decrypted text that is no finite number is `none`.
pub record EncryptionService : Type 0 where
  pub encrypt : ℕ → Result ℕ
  pub decrypt : ℕ → Result (Option ℕ)

-- `IWalletRepository` and `IWalletTransactionRepository`.
pub record WalletRepository (W : Type 0) : Type 0 where
  pub find_by_user_id : ℕ → M W (Option Wallet)
  pub save : Wallet → M W Wallet

pub record WalletTransactionRepository (W : Type 0) : Type 0 where
  pub create : WalletTransaction → M W WalletTransaction

-- `IUserRepository`; of a user the model reads the name.
pub record User : Type 0 where
  pub id : ℕ
  pub name : String

pub record UserRepository (W : Type 0) : Type 0 where
  pub find_by_id : ℕ → M W (Option User)

-- `IPaymentRepository`.
pub record PaymentRepository (W : Type 0) : Type 0 where
  pub find_by_id : ℕ → M W (Option Payment)
  pub find_by_reference_user_and_phase : ℕ → ℕ → PaymentPhase → M W (Option Payment)
  pub create : Payment → M W Payment
  pub update : ℕ → Payment → M W Payment
  pub decline_all_pending_for_auction_user : ℕ → ℕ → M W (Unit {0})

-- The arguments of `IPaymentGatewayService.verifyPayment`; a done call has verified the payment and
-- gives the amount of the order.
pub record Receipt : Type 0 where
  pub user_id : ℕ
  pub order_id : ℕ
  pub payment_id : ℕ
  pub signature : ℕ
  pub reference_id : ℕ

pub record PaymentGateway (W : Type 0) : Type 0 where
  pub verify_payment : Receipt → M W ℕ

-- `IFraudReportRepository`, and `IAuctionWinnerFallbackQueue` with what it holds.
pub record FraudReportRepository (W : Type 0) : Type 0 where
  pub save : FraudReport → M W FraudReport

pub record FallbackJob : Type 0 where
  pub auction_id : ℕ
  pub declined_user_id : ℕ
  pub payment_id : ℕ

pub record FallbackQueue (W : Type 0) : Type 0 where
  pub enqueue : FallbackJob → M W (Unit {0})

-- `ISubscriptionConfigService`.
pub record SubscriptionConfigService (W : Type 0) : Type 0 where
  pub can_place_bid : ℕ → ℕ → M W Bool

-- `ISystemConfigService`. A ratio is given in ten-thousandths.
pub record SystemConfigService (W : Type 0) : Type 0 where
  pub auction_winner_fallback_max_rank : M W ℕ
  pub auction_expiry_batch_size : M W ℕ
  pub auction_min_start_price : M W ℕ
  pub auction_max_max_extension_count : M W ℕ
  pub auction_participant_initial_deposit_ratio : M W ℕ
  pub auction_winner_deposit_split_ratio : M W ℕ
  pub auction_payment_deposit_due_ms : M W ℕ
  pub auction_payment_balance_due_ms : M W ℕ

-- `AuctionEnded` of src/domain/events and the bus that publishes it.
pub record AuctionEnded : Type 0 where
  pub auction_id : ℕ
  pub title : String
  pub winner_id : Option ℕ
  pub win_amount : ℕ
  pub ended_at : ℕ

pub record EventBus (W : Type 0) : Type 0 where
  pub publish : AuctionEnded → W → W
  pub publish_notification : Notification → W → W

-- `INotificationRepository` and `IPublicFallbackAuctionRepository`.
pub record NotificationRepository (W : Type 0) : Type 0 where
  pub save : Notification → M W Notification

pub record PublicFallbackAuctionRepository (W : Type 0) : Type 0 where
  pub save : PublicFallbackAuction → M W PublicFallbackAuction

-- What the container of src/di hands to the use cases.
pub record Platform (W : Type 0) : Type 0 where
  pub runtime : Runtime W
  pub encryption : EncryptionService
  pub auctions : AuctionRepository W
  pub bids : BidRepository W
  pub participants : ParticipantRepository W
  pub winners : WinnerRepository W
  pub configs : AutoBidConfigRepository W
  pub locks : BidLockService W
  pub plans : SubscriptionConfigService W
  pub config : SystemConfigService W
  pub events : EventBus W
  pub wallets : WalletRepository W
  pub transactions : WalletTransactionRepository W
  pub users : UserRepository W
  pub payments : PaymentRepository W
  pub gateway : PaymentGateway W
  pub notifications : NotificationRepository W
  pub reports : FraudReportRepository W
  pub fallback_queue : FallbackQueue W
  pub public_fallbacks : PublicFallbackAuctionRepository W
