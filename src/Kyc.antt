-- ===== src/Kyc.antt =====
-- The documents of a seller: src/domain/entities/kyc, and of src/application/usecases kyc/submitKyc,
-- kyc/updateKyc, admin/approveSellerKyc and admin/rejectSellerKyc. The links to the stored files,
-- which the outputs carry, are left out.
pub mod Cycle
pub mod Reviews
pub mod Updates
pub mod Calls
use auction_platform_backend.Prelude.{
  ℕ, Bool, true, false, Option, none, some, List, [], not, any, if◌then◌else◌,
}
use Prim.Native.String.{String}
use auction_platform_backend.Outcome.{
  Result, ok, fail, M, return, settle, settle_as, unwrap, value_of, attempt, gives, require,
  fail_if, or_catch, ◌>>=◌, ◌>>◌, kyc_already_pending, kyc_already_approved, kyc_already_rejected,
  only_pending_kyc_approved, only_pending_kyc_rejected, only_rejected_kyc_reset, kyc_entity_error,
  updated_kyc_error, kyc_not_found, already_seller, user_not_found, unexpected_error,
}
use auction_platform_backend.Users.{
  UserAccount, is_active, is_seller, add_seller, AccountRepository,
}

pub data DocumentType : Type 0 where
  national_id passport driving_license voter_id pan_card kyc_id address_proof : DocumentType

pub data DocumentSide : Type 0 where
  front back : DocumentSide

pub data DocumentStatus : Type 0 where
  pending approved rejected : DocumentStatus

pub record KycDocument : Type 0 where
  pub id : ℕ
  pub kyc_id : ℕ
  pub document_id : ℕ
  pub document_type : DocumentType
  pub side : DocumentSide
  pub document_url : String
  pub document_status : DocumentStatus

pub data KycStatus : Type 0 where
  pending approved rejected not_submitted : KycStatus

pub data KycFor : Type 0 where
  for_seller for_moderator : KycFor

pub record Kyc : Type 0 where
  pub id : ℕ
  pub user_id : ℕ
  pub kyc_status : KycStatus
  pub kyc_for : KycFor
  pub documents : List KycDocument
  pub rejection_reason : Option String

unfoldable pub submit_kyc : Kyc → Result Kyc
submit_kyc x = elim x.kyc_status [
  | pending ↦ fail kyc_already_pending
  | approved ↦ fail kyc_already_approved
  | rejected ↦ fail kyc_already_rejected
  | not_submitted ↦ ok (record x { kyc_status = KycStatus.pending })
]

abbrev pub is_pending : KycStatus → Bool
is_pending KycStatus.pending = true
is_pending _ = false

abbrev pub is_rejected : KycStatus → Bool
is_rejected KycStatus.rejected = true
is_rejected _ = false

unfoldable pub approve_kyc : Kyc → Result Kyc
approve_kyc x =
    if not (is_pending x.kyc_status)
    then fail only_pending_kyc_approved
    else ok (record x { kyc_status = KycStatus.approved })

unfoldable pub reject_kyc : Option String → Kyc → Result Kyc
reject_kyc reason x =
    if not (is_pending x.kyc_status)
    then fail only_pending_kyc_rejected
    else ok (record x { kyc_status = KycStatus.rejected; rejection_reason = reason })

unfoldable pub reset_for_resubmission : Kyc → Result Kyc
reset_for_resubmission x =
    if not (is_rejected x.kyc_status)
    then fail only_rejected_kyc_reset
    else ok (record x { kyc_status = not_submitted; rejection_reason = none })

-- `IKycRepository`, `IKycDocumentRepository` and the repository of users, with the identifiers.
pub record KycPlatform (W : Type 0) : Type 0 where
  pub generate_id : W → ℕ × W
  pub find_by_user_id_and_for : ℕ → KycFor → M W (Option Kyc)
  pub save_kyc : Kyc → M W Kyc
  pub save_document : KycDocument → M W KycDocument
  pub accounts : AccountRepository W

-- The input of `updateKyc`: a user and a document.
pub record DocumentInput : Type 0 where
  pub user_id : ℕ
  pub kyc_for : KycFor
  pub document_type : DocumentType
  pub side : DocumentSide
  pub document_url : String

abbrev pub document : ℕ → ℕ → ℕ → DocumentInput → KycDocument
document id owner document_id input = record {
  id = id;
  kyc_id = owner;
  document_id = document_id;
  document_type = input.document_type;
  side = input.side;
  document_url = input.document_url;
  document_status = DocumentStatus.pending;
}

abbrev pub new_kyc : ℕ → DocumentInput → Kyc
new_kyc id input = record {
  id = id;
  user_id = input.user_id;
  kyc_status = not_submitted;
  kyc_for = input.kyc_for;
  documents = [];
  rejection_reason = none;
}

module _ {W : Type 0} (d : KycPlatform W) where
  open d use {generate_id, find_by_user_id_and_for, save_kyc, save_document, accounts}

  -- The body of `SubmitKycUsecase.execute`. For a user without a record it asks a successful result
  -- for its error, which throws.
  unfoldable pub try_submit : ℕ → KycFor → M W KycStatus
  try_submit user kyc_for = do
    found ← find_by_user_id_and_for user kyc_for
    x ← unwrap found
    x' ← settle (submit_kyc x)
    saved ← attempt (save_kyc x')
    return x'.kyc_status

  unfoldable pub submit : ℕ → KycFor → M W KycStatus
  submit user kyc_for = or_catch (try_submit user kyc_for) unexpected_error

  -- The record read again, after a document has been stored; the value is read before the failure is
  -- tested.
  unfoldable pub read_again : DocumentInput → M W KycStatus
  read_again input = do
    again ← attempt (find_by_user_id_and_for input.user_id input.kyc_for)
    found ← value_of again
    x ← require found updated_kyc_error
    return x.kyc_status

  unfoldable pub store_document : DocumentInput → ℕ → M W KycStatus
  store_document input owner = do
    id ← gives generate_id
    document_id ← gives generate_id
    stored ← attempt (save_document (document id owner document_id input))
    read_again input

  -- The first document of a user opens the record.
  unfoldable pub open_kyc : DocumentInput → M W KycStatus
  open_kyc input = do
    id ← gives generate_id
    document_row ← gives generate_id
    document_id ← gives generate_id
    saved ← attempt (save_kyc (new_kyc id input))
    stored ← attempt (save_document (document document_row id document_id input))
    read_again input

  -- A rejected record may be submitted again.
  unfoldable pub reset_if_rejected : Kyc → M W (Unit {0})
  reset_if_rejected x =
      if not (is_rejected x.kyc_status)
      then return tt
      else do x' ← settle (reset_for_resubmission x); saved ← attempt (save_kyc x'); return tt

  unfoldable pub update_found : DocumentInput → Option Kyc → M W KycStatus
  update_found input none = open_kyc input
  update_found input (some x) = do reset_if_rejected x; store_document input x.id

  unfoldable pub try_update : DocumentInput → M W KycStatus
  try_update input = do
    row ← attempt (find_by_user_id_and_for input.user_id input.kyc_for)
    found ← settle_as kyc_entity_error row
    update_found input found

  -- `UpdateKycUseCase.execute`.
  unfoldable pub update : DocumentInput → M W KycStatus
  update input = or_catch (try_update input) unexpected_error

  unfoldable pub try_approve : ℕ → M W (Unit {0})
  try_approve seller_id = do
    account ← accounts.find_by_id seller_id
    fail_if (not (is_active account.status)) user_not_found
    fail_if (any is_seller account.roles) already_seller
    found ← find_by_user_id_and_for seller_id for_seller
    x ← require found kyc_not_found
    x' ← settle (approve_kyc x)
    saved_account ← attempt (accounts.save (add_seller account))
    saved ← attempt (save_kyc x')
    return tt

  -- `ApproveSellerKycUseCase.execute`.
  unfoldable pub approve : ℕ → M W (Unit {0})
  approve seller_id = or_catch (try_approve seller_id) unexpected_error

  -- `RejectSellerKycUseCase.execute`.
  unfoldable pub reject : ℕ → Option String → M W (Unit {0})
  reject seller_id reason = do
    found ← find_by_user_id_and_for seller_id for_seller
    x ← require found kyc_not_found
    x' ← settle (reject_kyc reason x)
    saved ← attempt (save_kyc x')
    return tt
