-- ===== src/Tests/Wallets.antt =====
-- Wallets at concrete inputs.
use auction_platform_backend.Prelude.{
  ◌≡◌, refl, ◌⊎◌, inl, inr, Bool, true, false, Option, none, some, List, [], ◌==◌, arith,
  if◌then◌else◌,
}
use auction_platform_backend.Prelude.Int.{pos, ◌+ℤ◌}
use auction_platform_backend.Outcome.Post.{Post}
use auction_platform_backend.Account.{Wallet, WalletTransaction, deposit, withdrawal}
use auction_platform_backend.Wallets.{
  AmountInput, credit_wallet, debit_wallet, add_auction_participant, release_participants,
}
use auction_platform_backend.Wallets.Ledger.{WalletLaws, Balanced, Booked}
use auction_platform_backend.Wallets.Amounts.{credit_wallet-Booked, debit_wallet-Booked}
use auction_platform_backend.Wallets.Joining.{IsHeld, add_auction_participant-IsHeld}
use auction_platform_backend.Wallets.Total.{PurseLaws, wealth, release_participants-wealth}
use auction_platform_backend.Tests.Memory.{World, memory}
use auction_platform_backend.Tests.Samples.{evening, ann}

abbrev purse_view : World → Option Wallet
purse_view w = w.purse

abbrev log_view : World → List WalletTransaction
log_view w = w.entries

-- The memory stores every entry.
abbrev no_loss : World → List WalletTransaction
no_loss w = []

saved_by :
    (x : Wallet) (w : World) (t : Bool)
    → (x.user_id == 1) ≡ t
    → x.user_id ≡ 1
    → (purse_view (if t then record w { purse = some x } else w) ≡ some x)
      × (log_view (if t then record w { purse = some x } else w) ≡ log_view w)
      × (no_loss (if t then record w { purse = some x } else w) ≡ no_loss w)
saved_by x w true e i = (refl, refl, refl)
saved_by x w false e i = absurd (ground arith)

memory-WalletLaws : WalletLaws memory purse_view log_view no_loss 1
memory-WalletLaws = record {
  id_same = λ w. (refl, refl, refl);
  find_same = λ w. (refl, refl, refl);
  found_law = λ w x e. e;
  log_law = λ t x w e i. (refl, inl (refl, refl));
  save_law = λ x w i. saved_by x w (x.user_id == 1) refl i;
  user_same = λ i w. (refl, refl, refl);
  auction_same = λ i w. (refl, refl, refl);
  ratio_same = λ w. (refl, refl, refl);
  participant_same = λ x w. (refl, refl, refl);
  participants_same = λ i w. (refl, refl, refl);
}

evening-Balanced : Balanced memory purse_view log_view no_loss 1 evening
unfolding ◌+ℤ◌
evening-Balanced x e =
    let same : x ≡ ann = cc in rw same (refl, refl, refl, omega arith, omega arith)

abbrev hundred : AmountInput
hundred = record { user_id = 1; amount = pos 1000000 }

credit_wallet-Booked_example :
    Post
      (λ out w'. Booked memory purse_view log_view no_loss 1 deposit (pos 1000000) evening w')
      (λ w'. Unit {0})
      (credit_wallet memory hundred evening)
credit_wallet-Booked_example =
    credit_wallet-Booked memory purse_view log_view no_loss 1 memory-WalletLaws hundred evening refl
      (omega arith) evening-Balanced

debit_wallet-Booked_example :
    Post
      (λ out w'. Booked memory purse_view log_view no_loss 1 withdrawal (pos 1000000) evening w')
      (λ w'. Unit {0})
      (debit_wallet memory hundred evening)
debit_wallet-Booked_example =
    debit_wallet-Booked memory purse_view log_view no_loss 1 memory-WalletLaws hundred evening refl
      evening-Balanced

add_auction_participant-IsHeld_example :
    Post
      (λ out w'. IsHeld memory purse_view log_view no_loss 1 memory-WalletLaws evening w')
      (λ w'. Unit {0})
      (add_auction_participant memory 7 1 evening)
add_auction_participant-IsHeld_example =
    add_auction_participant-IsHeld memory purse_view log_view no_loss 1 memory-WalletLaws 7 evening
      evening-Balanced

stored_by :
    (x : Wallet) (w : World) (t : Bool)
    → (x.user_id == 1) ≡ t
    → (purse_view (if t then record w { purse = some x } else w) ≡ purse_view w)
      ⊎ ((x.user_id ≡ 1) × (purse_view (if t then record w { purse = some x } else w) ≡ some x))
stored_by x w true e = inr (ground arith, refl)
stored_by x w false e = inl refl

read_by :
    (o : Option Wallet) (x : Wallet) (t : Bool) → (if t then o else none) ≡ some x → o ≡ some x
read_by o x true e = e
read_by o x false e = cc

memory-PurseLaws : PurseLaws memory purse_view 1
memory-PurseLaws = record {
  id_unmoved = λ w. refl;
  auction_unmoved = λ i w. refl;
  participants_unmoved = λ i w. refl;
  ratio_unmoved = λ w. refl;
  find_unmoved = λ i w. refl;
  read_law = λ i w x e j. read_by w.purse x (i == 1) e;
  store_law = λ x w. stored_by x w (x.user_id == 1) refl;
}

release_participants-wealth_example :
    wealth (purse_view (release_participants memory 7 evening).1) ≡ wealth (purse_view evening)
release_participants-wealth_example =
    release_participants-wealth memory purse_view 1 memory-PurseLaws 7 evening
