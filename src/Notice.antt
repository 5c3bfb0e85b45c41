-- ===== src/Notice.antt =====
-- src/domain/entities/notifications/notification.entity.ts and
-- src/domain/entities/auction/public-fallback-auction.entity.ts.
use auction_platform_backend.Prelude.{ℕ, Bool, false}
use Prim.Native.String.{String}

-- The texts that the auction use cases send, with the title of the auction.
pub data NoticeText : Type 0 where
  you_won you_lost another_chance checkout_room : String → NoticeText

pub record Notification : Type 0 where
  pub id : ℕ
  pub title : NoticeText
  pub message : NoticeText
  pub user_id : ℕ
  pub is_read : Bool
  pub is_delivered : Bool

-- `Notification.create`, which does not fail.
abbrev pub notification : ℕ → ℕ → NoticeText → NoticeText → Notification
notification id user title message = record {
  id = id;
  title = title;
  message = message;
  user_id = user;
  is_read = false;
  is_delivered = false;
}

pub data PublicFallbackStatus : Type 0 where
  accepted rejected pending : PublicFallbackStatus

pub data PublicFallbackPaymentStatus : Type 0 where
  pending paid : PublicFallbackPaymentStatus

pub record PublicFallbackAuction : Type 0 where
  pub id : ℕ
  pub auction_id : ℕ
  pub amount : ℕ
  pub status : PublicFallbackStatus
  pub payment_status : PublicFallbackPaymentStatus
  pub created_at : ℕ
