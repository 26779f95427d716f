-- ===== src/Wagering/Examples.antt =====
-- Tests of the transaction, and its theorems at a concrete one.
use jungle_gaming.Prelude.{◌≡◌, refl, arith, true, Option, none, some, []}
use jungle_gaming.Prelude.Bytes.{Bytes, codes}
use jungle_gaming.Prelude.Int.{ℤ, pos}
use jungle_gaming.Shared.{ok, err}
use jungle_gaming.Money.{Money}
use jungle_gaming.Wagering.Kind.{bet, refund, opening, err_reference_required}
use jungle_gaming.Wagering.Status.{pending, processed, err_illegal_transition}
use jungle_gaming.Wagering.Failure.{FailureCode}
use jungle_gaming.Wagering.Transaction.{
  Transaction, FinancialResult, ExternalParams, OpeningParams, external, internal, new_external,
}
use jungle_gaming.Wagering.Transaction.Machine.{mark_processed, reject, new_processed_opening}
use jungle_gaming.Wagering.Transaction.Rehydrate.{rehydrate}
use jungle_gaming.Wagering.Transaction.Lifecycle.{
  IsCoherent, IsSameOperation, Step, process, here, next, Reach-terminal, external_life,
}
use jungle_gaming.Wagering.Transaction.Stored.{
  IsStorable, IsSnapshot, state_of, rehydrate_lem, rehydrate_sound, external_stored,
}

abbrev brl : ℤ → Money
brl minor = record { minor = minor; currency = codes "BRL" }

abbrev bet_params : ExternalParams
bet_params = record {
  id = 7;
  kind = bet;
  wallet_id = 1;
  player_id = 2;
  amount = brl (pos 2500);
  provider_id = codes "p";
  external_id = codes "x1";
  idempotency_key = codes "k1";
  payload_hash = codes "h1";
  round_id = codes "r1";
  game_id = codes "g1";
  reference_external_id = [];
  created_at = 6;
}

abbrev registered : Transaction
registered = record {
  id = 7;
  origin = external;
  kind = bet;
  wallet_id = 1;
  player_id = 2;
  amount = brl (pos 2500);
  status = pending;
  provider_id = codes "p";
  external_id = codes "x1";
  idempotency_key = codes "k1";
  payload_hash = codes "h1";
  round_id = codes "r1";
  game_id = codes "g1";
  reference_external_id = [];
  reference_id = none;
  failure_code = none;
  result = none;
  attempt_count = pos 0;
  next_retry_at = none;
  created_at = 6;
  updated_at = 6;
}

abbrev after_bet : FinancialResult
after_bet = record { balance = brl (pos 7500); wallet_version = pos 2 }

abbrev settled : Transaction
settled = record registered { status = processed; result = some after_bet; updated_at = 8 }

abbrev opening_params : OpeningParams
opening_params = record {
  id = 5;
  wallet_id = 1;
  player_id = 2;
  amount = brl (pos 10000);
  created_at = 5;
}

abbrev opened_result : FinancialResult
opened_result = record { balance = brl (pos 10000); wallet_version = pos 1 }

abbrev opened : Transaction
opened = record {
  id = 5;
  origin = internal;
  kind = opening;
  wallet_id = 1;
  player_id = 2;
  amount = brl (pos 10000);
  status = processed;
  provider_id = [];
  external_id = [];
  idempotency_key = [];
  payload_hash = [];
  round_id = [];
  game_id = [];
  reference_external_id = [];
  reference_id = none;
  failure_code = none;
  result = some opened_result;
  attempt_count = pos 0;
  next_retry_at = none;
  created_at = 5;
  updated_at = 5;
}

new_external_test : new_external bet_params ≡ ok registered
unfolding new_external jungle_gaming.Prelude.Bytes.bytes_eq
    jungle_gaming.Wagering.Kind.parse_external_kind jungle_gaming.Wagering.Kind.validate_amount
    jungle_gaming.Wagering.Kind.validate_reference
new_external_test = refl

unreferenced_refund_test :
    new_external (record bet_params { kind = refund }) ≡ err err_reference_required
unfolding new_external jungle_gaming.Prelude.Bytes.bytes_eq
    jungle_gaming.Wagering.Kind.parse_external_kind jungle_gaming.Wagering.Kind.validate_amount
    jungle_gaming.Wagering.Kind.validate_reference
unreferenced_refund_test = refl

reject-settled_test :
    reject settled (some FailureCode.insufficient_funds) 9 ≡ err err_illegal_transition
unfolding reject
reject-settled_test = refl

mark_processed_test : mark_processed registered after_bet 8 ≡ ok settled
unfolding mark_processed
mark_processed_test = refl

opening_test : new_processed_opening opening_params opened_result ≡ ok opened
unfolding new_processed_opening
opening_test = refl

settling : Step registered settled
settling = process registered settled after_bet 8 mark_processed_test

registered-IsCoherent : IsCoherent registered
registered-IsCoherent = ground arith

Reach-terminal_example : settled ≡ settled
Reach-terminal_example = Reach-terminal {s = settled} {t = settled} refl here

external_life_example : IsCoherent settled × IsSameOperation registered settled
external_life_example =
    external_life bet_params registered settled new_external_test
      (next {t = registered} here settling)

settled-IsStorable : IsStorable settled
settled-IsStorable = ground arith

rehydrate_sound_example : (state_of settled ≡ state_of settled) × IsSnapshot (state_of settled)
rehydrate_sound_example =
    rehydrate_sound (state_of settled) settled (rehydrate_lem settled settled-IsStorable)

external_stored_example : rehydrate (state_of settled) ≡ ok settled
external_stored_example =
    external_stored bet_params registered settled new_external_test
      (next {t = registered} here settling)
