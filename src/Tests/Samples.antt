-- ===== src/Tests/Samples.antt =====
-- Rows and a world for the runs.
use auction_platform_backend.Users.{UserAccount, UserRole, UserStatus, local}
use auction_platform_backend.Otp.{Otp, OtpChannel, OtpStatus, reset_password}
use auction_platform_backend.Prelude.{ℕ, ◌+◌, true, none, some, [], ◌∷◌}
use auction_platform_backend.Auction.{Auction, long, active}
use auction_platform_backend.Auction.Category.{AuctionCategory, approved}
use auction_platform_backend.Auction.Bid.{Bid, AuctionParticipant, paid, AutoBidConfig, slow}
use auction_platform_backend.Prelude.Int.{pos}
use auction_platform_backend.Account.{Wallet, WalletTransaction, deposit, inr_currency}
use auction_platform_backend.Subscription.{UserSubscription, UserSubscriptionStatus}
use auction_platform_backend.Notice.{
  PublicFallbackAuction, PublicFallbackStatus, PublicFallbackPaymentStatus,
}
use auction_platform_backend.Tests.Memory.{World}

abbrev pub books : AuctionCategory
books = record {
  id = 1;
  name = "books";
  slug = "books";
  parent_id = none;
  is_verified = true;
  is_active = true;
  status = approved;
  submitted_by = 9;
  rejection_reason = none;
}

-- Auction 7 of seller 9, from 1,000 to 100,000 ms, with a start price of 500 and steps of 10.
abbrev pub atlas : Auction
atlas = record {
  id = 7;
  auction_number = "A-7";
  seller_id = 9;
  auction_type = long;
  title = "atlas";
  description = "an atlas";
  category = books;
  condition = "used";
  start_price = 500;
  min_increment = 10;
  start_at = 1000;
  end_at = 100000;
  status = active;
  anti_snip_seconds = 60;
  extension_count = 0;
  max_extension_count = 3;
  bid_cooldown_seconds = 10;
  winner_id = none;
  win_amount = none;
  assets = [];
}

abbrev pub bidder : ℕ → AuctionParticipant
bidder user = record {
  id = 100 + user;
  auction_id = 7;
  user_id = user;
  intial_amount = paid;
  user_name = "bidder";
  joined_at = 0;
}

abbrev pub robot : ℕ → ℕ → AutoBidConfig
robot user max = record {
  id = 200 + user;
  user_id = user;
  auction_id = 7;
  max_bid_amount = max;
  strategy = slow;
  is_active = true;
  created_at = 0;
  updated_at = 0;
}

abbrev pub offer : ℕ → ℕ → ℕ → Bid
offer user n at = record {
  id = n;
  auction_id = 7;
  user_id = user;
  created_at = at;
  amount = some n;
  encrypted_amount = none;
}

-- The wallet of user 1, with a free balance of 1,000 in ten-thousandths, and its log.
abbrev pub ann : Wallet
ann = record {
  id = 50;
  user_id = 1;
  main_balance = pos 10000000;
  held_balance = pos 0;
  currency = inr_currency;
}

abbrev pub first_entry : WalletTransaction
first_entry = record {
  id = 60;
  wallet_id = 50;
  amount = pos 10000000;
  type_of = deposit;
  created_at = 0;
}

-- Two bids are in; users 3 and 4 bid automatically up to 700 and 630.
-- Auction 7 is offered publicly for 600.
abbrev pub offer_of_atlas : PublicFallbackAuction
offer_of_atlas = record {
  id = 60;
  auction_id = 7;
  amount = 600;
  status = PublicFallbackStatus.pending;
  payment_status = PublicFallbackPaymentStatus.pending;
  created_at = 0;
}

-- User 1 has paid for plan 5 and waits for the gateway.
abbrev pub gold_of_ann : UserSubscription
gold_of_ann = record {
  id = 50;
  user_id = 1;
  subscription_plan_id = 5;
  razorpay_subscription_id = some 77;
  status = UserSubscriptionStatus.pending;
  start_date = 0;
  end_date = 90000000000;
  created_at = 0;
  updated_at = 0;
}

abbrev pub cleo : UserAccount
cleo = record {
  id = 3;
  name = "cleo";
  email = 31;
  phone = none;
  address = none;
  auth_provider = local 33;
  is_verified = true;
  roles = UserRole.user ∷ [];
  status = UserStatus.active;
  user_fraud_level = 0;
}

-- A row for a new password, with the token 503.
abbrev pub code_of_cleo : Otp
code_of_cleo = record {
  id = 90;
  user_id = 3;
  purpose = reset_password;
  channel = OtpChannel.email;
  otp = 503;
  expires_at = 700000;
  max_attempts = 3;
  attempts = 1;
  status = OtpStatus.pending;
  created_at = 15000;
}

abbrev pub evening : World
evening = record {
  stored = atlas;
  bids = offer 2 600 1500 ∷ offer 1 500 1200 ∷ [];
  participants = bidder 1 ∷ bidder 2 ∷ bidder 3 ∷ bidder 4 ∷ [];
  winners = [];
  configs = robot 3 700 ∷ robot 4 630 ∷ [];
  clock = 20000;
  next_id = 1000;
  lock_held = none;
  published = [];
  purse = some ann;
  entries = first_entry ∷ [];
  dues = [];
  verified = [];
  jobs = [];
  shelf = [];
  enrolled = gold_of_ann;
  offered = offer_of_atlas;
  member = cleo;
  code_row = code_of_cleo;
}
