-- ===== src/Users.antt =====
-- src/domain/entities/user/user.entity.ts, with the value objects that it holds: what the code reads
-- of a user. An e-mail address, a phone number, an address and a hash are numbers, since they are
-- only compared.
pub mod Names
use auction_platform_backend.Prelude.{
  ℕ, ◌+◌, Bool, true, false, Option, List, ◌∷◌, any, if◌then◌else◌,
}
use Prim.Native.String.{String}
use auction_platform_backend.Outcome.{M}

pub data UserStatus : Type 0 where
  active suspended blocked : UserStatus

pub data UserRole : Type 0 where
  user admin seller : UserRole

pub data AuthProvider : Type 0 where
  local google : ℕ → AuthProvider

pub record UserAccount : Type 0 where
  pub id : ℕ
  pub name : String
  pub email : ℕ
  pub phone : Option ℕ
  pub address : Option ℕ
  pub auth_provider : AuthProvider
  pub is_verified : Bool
  pub roles : List UserRole
  pub status : UserStatus
  pub user_fraud_level : ℕ

abbrev pub is_active : UserStatus → Bool
is_active active = true
is_active _ = false

abbrev pub is_blocked : UserStatus → Bool
is_blocked blocked = true
is_blocked _ = false

abbrev pub is_suspended : UserStatus → Bool
is_suspended suspended = true
is_suspended _ = false

abbrev pub is_seller : UserRole → Bool
is_seller seller = true
is_seller _ = false

abbrev pub suspend : UserAccount → UserAccount
suspend u = record u { status = suspended }

-- `addRole(SELLER)`: the roles are a set.
abbrev pub add_seller : UserAccount → UserAccount
add_seller u = record u { roles = if any is_seller u.roles then u.roles else seller ∷ u.roles }

abbrev pub add_fraud_level : ℕ → UserAccount → UserAccount
add_fraud_level n u = record u { user_fraud_level = u.user_fraud_level + n }

-- The part of `IUserRepository` that the use cases about accounts call; a user that is not found is
-- a failure.
pub record AccountRepository (W : Type 0) : Type 0 where
  pub find_by_id : ℕ → M W UserAccount
  pub find_by_email : ℕ → M W UserAccount
  pub find_by_phone : ℕ → M W UserAccount
  pub save : UserAccount → M W UserAccount
