-- ===== src/Ledger/Examples.antt =====
-- The theorems of the ledger at a concrete entry.
use jungle_gaming.Prelude.{◌≡◌, refl, arith}
use jungle_gaming.Prelude.Bytes.{codes}
use jungle_gaming.Prelude.Int.{ℤ, pos}
use jungle_gaming.Prelude.Int64.{IsInt64}
use jungle_gaming.Shared.{ok, err}
use jungle_gaming.Money.{Money}
use jungle_gaming.Wallet.{Wallet, Movement}
use jungle_gaming.Wallet.Movements.{IsValid, IsReported, moved}
use jungle_gaming.Ledger.{Entry, credit, debit, new_entry, err_inconsistent_entry}
use jungle_gaming.Ledger.Equation.{IsBalanced, new_entry-IsBalanced, new_entry-IsReported}

abbrev brl : ℤ → Money
brl minor = record { minor = minor; currency = codes "BRL" }

abbrev purse : Wallet
purse = record {
  id = 1;
  player_id = 2;
  currency = codes "BRL";
  balance = brl (pos 10000);
  version = pos 1;
  created_at = 5;
  updated_at = 5;
}

purse-IsValid : IsValid purse
purse-IsValid = ground arith

abbrev debited : Wallet × Movement
debited = moved purse (brl (pos 2500)) (pos 7500) 6

debited-IsValid : IsValid debited.0
unfolding jungle_gaming.Prelude.Int64.add64
debited-IsValid = ground arith

debited-IsReported : IsReported purse (brl (pos 2500)) debited.0 debited.1
unfolding jungle_gaming.Prelude.Int64.add64
debited-IsReported = ground arith

abbrev entry : Entry
entry = record {
  id = 9;
  wallet_id = 1;
  transaction_id = 7;
  direction = debit;
  amount = brl (pos 2500);
  balance_before = brl (pos 10000);
  balance_after = brl (pos 7500);
  created_at = 6;
}

unbalanced_test :
    new_entry 9 1 7 credit (brl (pos 2500)) (brl (pos 10000)) (brl (pos 7500)) 6
    ≡ err err_inconsistent_entry
unfolding new_entry jungle_gaming.Money.add jungle_gaming.Money.add_money jungle_gaming.Money.equal
    jungle_gaming.Prelude.Bytes.bytes_eq jungle_gaming.Prelude.Int64.add64
    jungle_gaming.Prelude.Int64.sub64
unbalanced_test = refl

new_entry-IsBalanced_example : IsBalanced entry
unfolding new_entry jungle_gaming.Money.equal jungle_gaming.Money.sub_money
    jungle_gaming.Money.subtract jungle_gaming.Prelude.Bytes.bytes_eq
    jungle_gaming.Prelude.Int64.add64 jungle_gaming.Prelude.Int64.sub64
new_entry-IsBalanced_example =
    new_entry-IsBalanced 9 1 7 (brl (pos 2500)) (brl (pos 10000)) (brl (pos 7500)) 6
      (omega arith, omega arith) (omega arith, omega arith) debit entry refl

new_entry-IsReported_example :
    new_entry 9 1 7 debit (brl (pos 2500)) (brl (pos 10000)) (brl (pos 7500)) 6 ≡ ok entry
unfolding jungle_gaming.Prelude.Int.◌-ℤ◌
new_entry-IsReported_example =
    new_entry-IsReported debit 9 7 6 purse debited.0 (brl (pos 2500)) debited.1 (ground arith)
      (ground arith) (ground arith) purse-IsValid debited-IsValid (omega arith, omega arith)
      debited-IsReported refl
