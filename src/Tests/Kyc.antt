-- ===== src/Tests/Kyc.antt =====
-- Documents of sellers at concrete inputs.
use auction_platform_backend.Prelude.{
  ℕ, ◌+◌, Bool, true, false, Option, none, some, List, [], ◌∷◌, ◌==◌, ◌&&◌, if◌then◌else◌,
}
use auction_platform_backend.Outcome.{done}
use auction_platform_backend.Users.{UserAccount, active, user, local}
use auction_platform_backend.Kyc.{
  Kyc, KycStatus, KycFor, for_seller, for_moderator, KycPlatform, DocumentInput, passport, front,
}
use auction_platform_backend.Kyc.Calls.{Call, submit_it, update_it, approve_it, reject_it}

-- One record, that of user 3 as a seller, and a supply of identifiers.
record Shelf : Type 0 where
  row : Option Kyc
  next_id : ℕ

abbrev is_for_seller : KycFor → Bool
is_for_seller for_seller = true
is_for_seller for_moderator = false

abbrev is_row : ℕ → KycFor → Bool
is_row i g = i == 3 && is_for_seller g

abbrev bob : UserAccount
bob = record {
  id = 3;
  name = "bob";
  email = 31;
  phone = none;
  address = none;
  auth_provider = local 32;
  is_verified = true;
  roles = user ∷ [];
  status = active;
  user_fraud_level = 0;
}

abbrev registry : KycPlatform Shelf
registry = record {
  generate_id = λ w. (w.next_id, record w { next_id = w.next_id + 1 });
  find_by_user_id_and_for = λ i g w. (done (if is_row i g then w.row else none), w);
  save_kyc = λ x w. (done x, if is_row x.user_id x.kyc_for then record w { row = some x } else w);
  save_document = λ x w. (done x, w);
  accounts = record {
    find_by_id = λ i w. (done bob, w);
    find_by_email = λ i w. (done bob, w);
    find_by_phone = λ i w. (done bob, w);
    save = λ a w. (done a, w);
  };
}

abbrev status_of : Option Kyc → Option KycStatus
status_of none = none
status_of (some x) = some x.kyc_status

abbrev row_view : Shelf → Option KycStatus
row_view w = status_of w.row

abbrev scan : DocumentInput
scan = record {
  user_id = 3;
  kyc_for = for_seller;
  document_type = passport;
  side = front;
  document_url = "scan";
}

abbrev empty_shelf : Shelf
empty_shelf = record { row = none; next_id = 70 }

abbrev calls : List Call
calls =
    update_it scan
    ∷ submit_it 3 for_seller
    ∷ reject_it 3 (some "dark")
    ∷ update_it scan
    ∷ submit_it 3 for_seller
    ∷ approve_it 3
    ∷ reject_it 3 none
    ∷ []
