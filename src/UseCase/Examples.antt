-- ===== src/UseCase/Examples.antt =====
-- Runs of the use cases on small databases, and the theorems at these runs.
use jungle_gaming.Prelude.{
  ℕ, suc, ◌+◌, ◌≡◌, ◌⊎◌, refl, arith, Bool, true, false, ◌==◌, if◌then◌else◌, Option, none, some,
  List, [], sym, ◌↔◌,
}
use jungle_gaming.Prelude.Bytes.{Bytes, codes, bytes_eq}
use jungle_gaming.Prelude.Int.{ℤ, pos, ◌-ℤ◌}
use jungle_gaming.Shared.{Result, ok, err, wrapped, external, Uuid}
use jungle_gaming.Money.{Money}
use jungle_gaming.Wallet.{Wallet}
use jungle_gaming.Wagering.Kind.{bet}
use jungle_gaming.Wagering.Transaction.{Transaction, external as origin_external}
use jungle_gaming.Repository.Wallets
use jungle_gaming.Repository.Transactions
use jungle_gaming.Repository.Tables.{err_not_found}
use jungle_gaming.Repository.Entries.{sum_entries, count_entries, sum_by_wallet}
use jungle_gaming.UseCase.Process.Parse.{parse}
use jungle_gaming.UseCase.Process.Apply.{find_replay, replay_of}
use jungle_gaming.UseCase.Replay.{IsReplay, process_replayed}
use jungle_gaming.UseCase.Report.{report, reconcile_agrees, reconcile_decides}
use jungle_gaming.Wagering.Status.{processed, rejected}
use jungle_gaming.UseCase.Monad.{Env, World, opened, execute, execute_read_only}
use jungle_gaming.UseCase.Results.{
  Command, Request, TransactionResult, err_idempotency_conflict, err_operation_reapplied,
}
use jungle_gaming.UseCase.Process.{process, execute_in}
use jungle_gaming.UseCase.OpenWallet.{OpenCommand, open_for}
use jungle_gaming.UseCase.Reconcile.{compare_books, reconcile}
use jungle_gaming.UseCase.Atomic.{execute_atomic, IsUndone, IsDone}
use jungle_gaming.UseCase.Books.{IsBooked}
use jungle_gaming.UseCase.Books.Keeping.{process-IsBooked}
use jungle_gaming.UseCase.Books.Opening.{open_for-IsBooked}

abbrev pub brl : ℤ → Money
brl minor = record { minor = minor; currency = codes "BRL" }

abbrev fails : Option ℕ → ℕ → Option ℕ
fails none n = none
fails (some k) n = if n == k then some 7 else none

-- Two identifiers have a text; a call that has the given number fails.
abbrev pub env_failing : Option ℕ → Env
env_failing failing = record {
  new_v7 = λ n. ok (suc n + 100);
  now = λ n. suc n + 1000;
  fault = λ n. fails failing n;
  commits = λ n. false;
  uuid_parse = λ s. if bytes_eq s (codes "w") then ok 101 else ok 2;
  uuid_string = λ u. if u == 101 then codes "w" else codes "p";
  digest = λ fields. codes "hash";
  correlation_id = codes "c";
}

abbrev pub env : Env
env = env_failing none

abbrev pub empty_world : World
empty_world = record {
  db = record { wallets = []; transactions = []; entries = []; inbox = []; outbox = [] };
  calls = 0;
  aborted = false;
}

abbrev pub open_command : OpenCommand
open_command = record {
  player_id = codes "p";
  initial_balance = record { amount = codes "100.00"; currency = codes "BRL" };
}

abbrev pub opened_world : World
opened_world = (open_for env open_command empty_world).1

abbrev pub bet_command : Command
bet_command = record {
  idempotency_key = codes "k1";
  provider_id = codes "pr";
  external_transaction_id = codes "x1";
  player_id = codes "p";
  wallet_id = codes "w";
  round_id = codes "r";
  game_id = codes "g";
  kind = codes "BET";
  money = record { amount = codes "25.00"; currency = codes "BRL" };
  reference_external_transaction_id = [];
}

pub empty-IsBooked : IsBooked [] []
empty-IsBooked = record { balances = tt; owners = tt }

abbrev pub bet_run : Result TransactionResult × World
bet_run = process env bet_command opened_world

-- The same command again, the same key with another amount of money, and another key.
abbrev replay_run : Result TransactionResult × World
replay_run = process env bet_command bet_run.1

abbrev reapplied_run : Result TransactionResult × World
reapplied_run = process env (record bet_command { idempotency_key = codes "k2" }) bet_run.1

-- A failure in the middle of the writes.
abbrev failed_run : Result TransactionResult × World
failed_run = process (env_failing (some 22)) bet_command opened_world

abbrev bet_result : TransactionResult
bet_result = record {
  transaction_id = 118;
  status = some processed;
  balance = brl (pos 7500);
  has_balance = true;
  failure_code = none;
  idempotent_replay = false;
}

abbrev bet_request : Request
bet_request = record {
  command = bet_command;
  hash = codes "hash";
  kind = bet;
  wallet_id = 101;
  player_id = 2;
  amount = brl (pos 2500);
}

abbrev wallet_after : Wallet
wallet_after = record {
  id = 101;
  player_id = 2;
  currency = codes "BRL";
  balance = brl (pos 7500);
  version = pos 2;
  created_at = 1002;
  updated_at = 1019;
}

abbrev pub registered : Transaction
registered = record {
  id = 118;
  origin = origin_external;
  kind = bet;
  wallet_id = 101;
  player_id = 2;
  amount = brl (pos 2500);
  status = processed;
  provider_id = codes "pr";
  external_id = codes "x1";
  idempotency_key = codes "k1";
  payload_hash = codes "hash";
  round_id = codes "r";
  game_id = codes "g";
  reference_external_id = [];
  reference_id = none;
  failure_code = none;
  result = some (record { balance = brl (pos 7500); wallet_version = pos 2 });
  attempt_count = pos 0;
  next_retry_at = none;
  created_at = 1019;
  updated_at = 1019;
}

runs_test :
    (bet_run.0 ≡ ok bet_result)
    × (replay_run.0 ≡ ok (record bet_result { idempotent_replay = true }))
    × (reapplied_run.0 ≡ err err_operation_reapplied)
    × (failed_run.0 ≡ err (wrapped (external 7)))
    × (parse env bet_command ≡ ok bet_request)
    × ((Wallets.find_by_id 101 bet_run.1.db).0 ≡ ok wallet_after)
    × ((Transactions.find_by_idempotency_key (codes "pr") (codes "k1") bet_run.1.db).0
        ≡ ok registered)
    × ((Transactions.find_by_idempotency_key (codes "pr") (codes "k2") bet_run.1.db).0
        ≡ err err_not_found)
    × ((Transactions.find_by_external_id (codes "pr") (codes "x1") bet_run.1.db).0 ≡ ok registered)
    × ((sum_by_wallet 101 bet_run.1.db).0 ≡ ok (brl (pos 7500), 2))
    × (sum_entries 101 bet_run.1.db.entries ≡ pos 7500)
    × (bytes_eq (codes "hash") (codes "hash") ≡ true)
    × (bet_run.1.aborted ≡ false)
unfolding jungle_gaming.Ledger.new_entry jungle_gaming.Money.parse_currency jungle_gaming.Money.add
    jungle_gaming.Money.subtract jungle_gaming.Money.multiply jungle_gaming.Money.add_money
    jungle_gaming.Money.sub_money jungle_gaming.Money.equal jungle_gaming.Money.Text.cut_at
    jungle_gaming.Money.Text.require_digits jungle_gaming.Money.Text.integer_units
    jungle_gaming.Money.Text.digits_to_minor_units jungle_gaming.Money.Text.signed
    jungle_gaming.Money.Text.parse_parts jungle_gaming.Money.Text.parse_minor_units
    jungle_gaming.Money.Text.parse jungle_gaming.Prelude.Bytes.bytes_eq
    jungle_gaming.Prelude.Int64.add64 jungle_gaming.Prelude.Int64.sub64
    jungle_gaming.Prelude.Int64.mul64 jungle_gaming.Prelude.Int64.quo64
    jungle_gaming.Repository.Entries.append jungle_gaming.Repository.Messages.append
    jungle_gaming.Repository.Rows.rehydrate_wallet jungle_gaming.Repository.Rows.origin_of
    jungle_gaming.Repository.Rows.to_transaction_row jungle_gaming.Repository.Rows.to_domain
    jungle_gaming.Repository.Transactions.transaction_checks
    jungle_gaming.Repository.Transactions.transaction_collides
    jungle_gaming.Repository.Transactions.create
    jungle_gaming.Repository.Transactions.find_by_idempotency_key
    jungle_gaming.Repository.Transactions.find_by_external_id
    jungle_gaming.Repository.Wallets.create jungle_gaming.Repository.Wallets.find_by_id
    jungle_gaming.Repository.Wallets.update_balance jungle_gaming.Shared.Errors.errors_is
    jungle_gaming.Shared.Id.parse_id jungle_gaming.UseCase.Monad.statement
    jungle_gaming.UseCase.Monad.new_id jungle_gaming.UseCase.Monad.read_clock
    jungle_gaming.UseCase.Monad.execute jungle_gaming.UseCase.OpenWallet.record_opening
    jungle_gaming.UseCase.OpenWallet.store_opened jungle_gaming.UseCase.OpenWallet.open_for
    jungle_gaming.UseCase.Outbox.append_outbox jungle_gaming.UseCase.Outbox.append_transaction_event
    jungle_gaming.UseCase.Outbox.append_balance_changed
    jungle_gaming.UseCase.Outbox.append_processed_events
    jungle_gaming.UseCase.Outbox.append_opening_events jungle_gaming.UseCase.Outbox.append_entry
    jungle_gaming.UseCase.Process.execute_in jungle_gaming.UseCase.Process.process
    jungle_gaming.UseCase.Process.Apply.replay_of jungle_gaming.UseCase.Process.Apply.find_replay
    jungle_gaming.UseCase.Process.Apply.apply_direct jungle_gaming.UseCase.Process.Apply.apply
    jungle_gaming.UseCase.Process.Parse.parse_id_input jungle_gaming.UseCase.Process.Parse.parse
    jungle_gaming.UseCase.Process.Settle.store jungle_gaming.UseCase.Process.Settle.record_movement
    jungle_gaming.UseCase.Process.Settle.persist_settled jungle_gaming.UseCase.Process.Settle.move
    jungle_gaming.UseCase.Results.payload_hash jungle_gaming.Wagering.Kind.parse_kind
    jungle_gaming.Wagering.Kind.validate_amount jungle_gaming.Wagering.Kind.validate_reference
    jungle_gaming.Wagering.Status.parse_status jungle_gaming.Wagering.Transaction.new_external
    jungle_gaming.Wagering.Transaction.Machine.new_processed_opening
    jungle_gaming.Wagering.Transaction.Rehydrate.rehydrate jungle_gaming.Wallet.open_wallet
    jungle_gaming.Wallet.rehydrate jungle_gaming.Wallet.opening_movement jungle_gaming.Wallet.debit
    jungle_gaming.UseCase.Reconcile.reconcile jungle_gaming.UseCase.Reconcile.compare_books
    jungle_gaming.UseCase.Monad.execute_read_only jungle_gaming.Repository.Entries.sum_by_wallet
    jungle_gaming.Repository.Entries.sum_entries jungle_gaming.Repository.Entries.count_entries
    jungle_gaming.Repository.Entries.min_currency
runs_test = (refl, refl, refl, refl, refl, refl, refl, refl, refl, refl, refl, refl, refl)

pub works : (k : ℕ) → env.fault k ≡ none
works k = refl

open_for-IsBooked_example : IsBooked opened_world.db.wallets opened_world.db.entries
open_for-IsBooked_example = open_for-IsBooked env open_command empty_world empty-IsBooked

process-IsBooked_example : IsBooked bet_run.1.db.wallets bet_run.1.db.entries
process-IsBooked_example =
    process-IsBooked env bet_command opened_world
      (open_for-IsBooked env open_command empty_world empty-IsBooked)

failed_execute :
    (execute
      (env_failing (some 22))
      (execute_in (env_failing (some 22)) bet_command)
      opened_world).0
    ≡ err (wrapped (external 7))
unfolding process
failed_execute = let (_, _, _, failed, _, _, _, _, _, _, _, _, _) = runs_test in failed

execute_atomic_example :
    IsUndone (env_failing (some 22)) (execute_in (env_failing (some 22)) bet_command) opened_world
    ⊎ IsDone (env_failing (some 22)) (execute_in (env_failing (some 22)) bet_command) opened_world
execute_atomic_example =
    execute_atomic (env_failing (some 22)) (execute_in (env_failing (some 22)) bet_command)
      opened_world

process_replayed_example :
    (r : TransactionResult) × ((process env bet_command bet_run.1).0 ≡ ok r)
    × IsReplay registered r
    × ((process env bet_command bet_run.1).1.db ≡ bet_run.1.db)
process_replayed_example =
    let (_, _, _, _, parsed, locked, found, _, _, _, _, same, _) = runs_test in
    process_replayed env bet_command bet_request wallet_after registered bet_run.1 works parsed
      locked found same

abbrev other_key : Request
other_key = record bet_request { command = record bet_command { idempotency_key = codes "k2" } }

reconcile_agrees_example :
    (reconcile env 101 bet_run.1).0
    ≡ ok (report 101 (brl (pos 7500)) (brl (pos 7500)) 2 (brl (pos 0)))
reconcile_agrees_example =
    let (_, _, _, _, _, found, _, _, _, summed_up, total, _, _) = runs_test in
    reconcile_agrees env 101 bet_run.1 wallet_after (brl (pos 7500)) 2 works found summed_up
      (omega arith, omega arith) (sym total) refl refl

reconcile_decides_example :
    (brl (pos 7500) ≡ brl (pos 7500))
    × (pos 7500 ≡ sum_entries 101 bet_run.1.db.entries)
    × (pos 0 ≡ pos 7500 -ℤ sum_entries 101 bet_run.1.db.entries)
    × (2 ≡ count_entries 101 bet_run.1.db.entries)
    × ((true ≡ true) ↔ (pos 7500 ≡ sum_entries 101 bet_run.1.db.entries))
reconcile_decides_example =
    let (_, _, _, _, _, found, _, _, _, summed_up, total, _, _) = runs_test in
    reconcile_decides env 101 bet_run.1 wallet_after (brl (pos 7500)) 2 works found summed_up
      (report 101 (brl (pos 7500)) (brl (pos 7500)) 2 (brl (pos 0))) (omega arith, omega arith)
      (reconcile_agrees env 101 bet_run.1 wallet_after (brl (pos 7500)) 2 works found summed_up
        (omega arith, omega arith) (sym total) refl refl)
