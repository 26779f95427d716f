-- ===== src/Wallet/Examples.antt =====
-- Tests of the wallet, and the theorems at a concrete one.
use jungle_gaming.Prelude.{◌≡◌, refl, arith, true, false, if◌then◌else◌, not}
use jungle_gaming.Prelude.Bytes.{codes, bytes_eq}
use jungle_gaming.Prelude.Int.{ℤ, pos, ◌+ℤ◌, ◌-ℤ◌}
use jungle_gaming.Prelude.Int64.{IsInt64}
use jungle_gaming.Shared.{ok, err}
use jungle_gaming.Money.{Money}
use jungle_gaming.Wallet.{Wallet, Movement, open_wallet, credit, debit, err_insufficient_funds}
use jungle_gaming.Wallet.Movements.{
  IsValid, IsReported, moved, credit_lem, debit_lem, credit-IsReported, debit-IsReported,
  credit-IsValid, debit-IsValid,
}
use jungle_gaming.Wallet.Lifecycle.{open_wallet-IsValid, debit-credit}

abbrev brl : ℤ → Money
brl minor = record { minor = minor; currency = codes "BRL" }

-- A hundred units, opened at the instant 5.
abbrev purse : Wallet
purse = record {
  id = 1;
  player_id = 2;
  currency = codes "BRL";
  balance = brl (pos 10000);
  version = pos 1;
  created_at = 5;
  updated_at = 5;
}

purse-IsValid : IsValid purse
purse-IsValid = ground arith

abbrev credited : Wallet × Movement
credited = moved purse (brl (pos 2500)) (pos 12500) 6

abbrev debited : Wallet × Movement
debited = moved purse (brl (pos 2500)) (pos 7500) 6

sum_fits : IsInt64 (pos 2500)
sum_fits = (omega arith, omega arith)

credit_example : credit purse (brl (pos 2500)) 6 ≡ ok credited
unfolding credit bytes_eq jungle_gaming.Money.add_money jungle_gaming.Money.add
    jungle_gaming.Prelude.Int64.add64 jungle_gaming.Prelude.Int64.sub64
credit_example = refl

debit_example : debit purse (brl (pos 2500)) 6 ≡ ok debited
unfolding debit bytes_eq jungle_gaming.Money.sub_money jungle_gaming.Money.subtract
    jungle_gaming.Prelude.Int64.add64 jungle_gaming.Prelude.Int64.sub64
debit_example = refl

credit_lem_example : credit purse (brl (pos 2500)) 6 ≡ ok credited
unfolding bytes_eq ◌+ℤ◌
credit_lem_example = credit_lem purse (brl (pos 2500)) 6 purse-IsValid sum_fits

debit_lem_example : debit purse (brl (pos 20000)) 6 ≡ err err_insufficient_funds
unfolding bytes_eq
debit_lem_example = debit_lem purse (brl (pos 20000)) 6 purse-IsValid (omega arith, omega arith)

credit-IsReported_example :
    IsReported purse (brl (pos 2500)) credited.0 credited.1 × (pos 12500 ≡ pos 10000 +ℤ pos 2500)
credit-IsReported_example =
    credit-IsReported purse (brl (pos 2500)) 6 purse-IsValid sum_fits credited.0 credited.1
      credit_example

debit-IsReported_example :
    IsReported purse (brl (pos 2500)) debited.0 debited.1 × (pos 7500 ≡ pos 10000 -ℤ pos 2500)
debit-IsReported_example =
    debit-IsReported purse (brl (pos 2500)) 6 purse-IsValid sum_fits debited.0 debited.1
      debit_example

credit-IsValid_example : IsValid credited.0
credit-IsValid_example =
    credit-IsValid purse (brl (pos 2500)) 6 purse-IsValid sum_fits credited.0 credited.1
      (omega arith) credit_example

debit-IsValid_example : IsValid debited.0
debit-IsValid_example =
    debit-IsValid purse (brl (pos 2500)) 6 purse-IsValid sum_fits debited.0 debited.1 (omega arith)
      debit_example

open_wallet-IsValid_example :
    IsValid purse
    × (purse.balance ≡ brl (pos 10000))
    × (purse.version ≡ pos 1)
    × (purse.id ≡ 1)
    × (purse.player_id ≡ 2)
unfolding open_wallet
open_wallet-IsValid_example =
    open_wallet-IsValid 1 2 (brl (pos 10000)) 5 purse (omega arith, omega arith) refl

debit-credit_example :
    debit credited.0 (brl (pos 2500)) 7 ≡ ok (moved credited.0 (brl (pos 2500)) (pos 10000) 7)
debit-credit_example =
    debit-credit purse (brl (pos 2500)) 6 7 credited.0 credited.1 purse-IsValid sum_fits
      (omega arith) (ground arith) credit_example
