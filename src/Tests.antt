-- ===== src/Tests.antt =====
-- The theorems at concrete inputs, over a platform held in memory.
pub mod Samples
pub mod Memory
mod Bidding
mod BidLock
mod Categories
mod AutoBidConfigs
mod Winner
mod Ending
mod Creation
mod Wallets
mod Till
mod Payments
mod PublicPayments
mod SignIn
mod Profile
mod Subscriptions
mod Live
mod Otp
mod FraudReview
mod Kyc
