-- ===== src/UseCase/Pending/Examples.antt =====
-- Runs of the worker of pending references, and the theorems at these.
use jungle_gaming.Prelude.{
  ℕ, suc, ◌+◌, ◌≡◌, ◌≤◌, refl, arith, Bool, true, false, Option, none, some, List, [], ◌∷◌, ◌==◌,
  ap, All, ◌&&◌, leb, ◌⊎◌, ◌^◌,
}
use jungle_gaming.Prelude.Bytes.{codes}
use jungle_gaming.Prelude.Int.{ℤ, pos, ◌≤ℤ◌, ◌<ℤ◌, ◌+ℤ◌, ◌*ℤ◌}
use jungle_gaming.Shared.{Result, ok, err, Time, add_duration}
use jungle_gaming.Wagering.Status.{Status, processed, pending_reference}
use jungle_gaming.Wallet.{Wallet}
use jungle_gaming.UseCase.Monad.{Env, World}
use jungle_gaming.UseCase.Results.{Command, TransactionResult, no_result}
use jungle_gaming.UseCase.Process.{process}
use jungle_gaming.UseCase.Books.Keeping.{process-IsBooked}
use jungle_gaming.UseCase.Books.Opening.{open_for-IsBooked}
use jungle_gaming.Repository.Wallets
use jungle_gaming.UseCase.Examples.{
  brl, env, empty_world, opened_world, open_command, bet_command, empty-IsBooked,
}
use jungle_gaming.UseCase.Pending.Policy.{PendingReferencePolicy, with_defaults}
use jungle_gaming.UseCase.Pending.Policy.{reference_backoff, double_delay, exhausted}
use jungle_gaming.UseCase.Pending.Backoff.{reference_backoff_lem}
use jungle_gaming.UseCase.Pending.Resume.{wait_or_expire}
use jungle_gaming.UseCase.Pending.Waiting.{met, again, Waits-bound}
use jungle_gaming.UseCase.Pending.Amounts.{FitsColumn}
use jungle_gaming.Wagering.Kind.{rollback}
use jungle_gaming.Wagering.Transaction.{Transaction, external as origin_external}
use jungle_gaming.Wagering.Transaction.Machine.{schedule_reference_retry}
use jungle_gaming.Repository.Rows.{TransactionRow, to_transaction_row, to_domain}
use jungle_gaming.Repository.Tables.{count_rows, find_row}
use jungle_gaming.Repository.Transactions.{write_outcome}
use jungle_gaming.Repository.Pending.{claim_pending_references}
use jungle_gaming.Repository.Claiming.{
  IsDue, attempt_instant, transaction_name, is_waiting, fewer, claim_pending_references_lem,
}
use jungle_gaming.Repository.Selection.{IsOrdered}
use jungle_gaming.Prelude.Int64.{add64}
use jungle_gaming.UseCase.Pending.Tick.{tick, TickResult}
use jungle_gaming.UseCase.Pending.Keeping.{IsKept, tick-IsKept}

-- The policy of a configuration that says nothing.
abbrev policy : PendingReferencePolicy
policy = with_defaults (record {
  max_attempts = pos 0;
  ttl = pos 0;
  backoff_base = pos 0;
  backoff_max = pos 0;
  batch_size = pos 0;
})

-- A rollback of a bet that is not there yet.
abbrev rollback_command : Command
rollback_command = record bet_command {
  idempotency_key = codes "k2";
  external_transaction_id = codes "x2";
  kind = codes "ROLLBACK";
  reference_external_transaction_id = codes "x1";
}

abbrev pending_run : Result TransactionResult × World
pending_run = process env rollback_command opened_world

-- The worker meets it, the bet arrives, and the worker meets it again two seconds later.
abbrev waiting_run : TickResult × World
waiting_run = tick env policy pending_run.1

abbrev bet_after : Result TransactionResult × World
bet_after = process env bet_command waiting_run.1

abbrev later : Env
later = record env { now = λ n. suc n + 2000001000 }

abbrev settled_run : TickResult × World
settled_run = tick later policy bet_after.1

abbrev status_of : Result TransactionResult → Option Status
status_of (ok r) = r.status
status_of (err e) = none

abbrev balance_of : Result Wallet → Option ℤ
balance_of (ok w) = some w.balance.minor
balance_of (err e) = none

abbrev balance_in : World → Option ℤ
balance_in w = balance_of (Wallets.find_by_id 101 w.db).0

worker_test :
    (status_of pending_run.0 ≡ some pending_reference)
    × (waiting_run.0 ≡ record { processed = 1; failure = none })
    × (status_of bet_after.0 ≡ some processed)
    × (balance_in bet_after.1 ≡ some (pos 7500))
    × (settled_run.0 ≡ record { processed = 1; failure = none })
    × (balance_in settled_run.1 ≡ some (pos 10000))
    × All FitsColumn pending_run.1.db.transactions
unfolding jungle_gaming.Ledger.new_entry jungle_gaming.Money.parse_currency jungle_gaming.Money.add
    jungle_gaming.Money.Text.cut_at jungle_gaming.Money.Text.digits_to_minor_units
    jungle_gaming.Money.Text.integer_units jungle_gaming.Money.Text.parse
    jungle_gaming.Money.Text.parse_minor_units jungle_gaming.Money.Text.parse_parts
    jungle_gaming.Money.Text.require_digits jungle_gaming.Money.Text.signed
    jungle_gaming.Money.add_money jungle_gaming.Money.equal jungle_gaming.Money.multiply
    jungle_gaming.Money.sub_money jungle_gaming.Money.subtract jungle_gaming.Prelude.Bytes.bytes_eq
    jungle_gaming.Prelude.Int64.add64 jungle_gaming.Prelude.Int64.mul64
    jungle_gaming.Prelude.Int64.quo64 jungle_gaming.Prelude.Int64.sub64
    jungle_gaming.Repository.Entries.append jungle_gaming.Repository.Entries.count_entries
    jungle_gaming.Repository.Entries.min_currency jungle_gaming.Repository.Entries.sum_by_wallet
    jungle_gaming.Repository.Entries.sum_entries jungle_gaming.Repository.Messages.append
    jungle_gaming.Repository.Messages.find_message jungle_gaming.Repository.Messages.record_message
    jungle_gaming.Repository.Rows.origin_of jungle_gaming.Repository.Rows.rehydrate_wallet
    jungle_gaming.Repository.Rows.to_domain jungle_gaming.Repository.Rows.to_transaction_row
    jungle_gaming.Repository.Transactions.create
    jungle_gaming.Repository.Transactions.find_by_external_id
    jungle_gaming.Repository.Transactions.find_by_idempotency_key
    jungle_gaming.Repository.Transactions.transaction_checks
    jungle_gaming.Repository.Transactions.transaction_collides
    jungle_gaming.Repository.Wallets.create jungle_gaming.Repository.Wallets.find_by_id
    jungle_gaming.Repository.Wallets.update_balance jungle_gaming.Shared.Errors.errors_is
    jungle_gaming.Shared.Id.parse_id jungle_gaming.UseCase.Monad.execute
    jungle_gaming.UseCase.Monad.execute_read_only jungle_gaming.UseCase.Monad.new_id
    jungle_gaming.UseCase.Monad.read_clock jungle_gaming.UseCase.Monad.statement
    jungle_gaming.UseCase.OpenWallet.open_for jungle_gaming.UseCase.OpenWallet.record_opening
    jungle_gaming.UseCase.OpenWallet.store_opened
    jungle_gaming.UseCase.Outbox.append_balance_changed jungle_gaming.UseCase.Outbox.append_entry
    jungle_gaming.UseCase.Outbox.append_opening_events jungle_gaming.UseCase.Outbox.append_outbox
    jungle_gaming.UseCase.Outbox.append_processed_events
    jungle_gaming.UseCase.Outbox.append_transaction_event jungle_gaming.UseCase.Process.Apply.apply
    jungle_gaming.UseCase.Process.Apply.apply_direct jungle_gaming.UseCase.Process.Apply.find_replay
    jungle_gaming.UseCase.Process.Apply.replay_of jungle_gaming.UseCase.Process.Parse.parse
    jungle_gaming.UseCase.Process.Parse.parse_id_input jungle_gaming.UseCase.Process.Settle.move
    jungle_gaming.UseCase.Process.Settle.persist_settled
    jungle_gaming.UseCase.Process.Settle.record_movement jungle_gaming.UseCase.Process.Settle.store
    jungle_gaming.UseCase.Process.execute_in jungle_gaming.UseCase.Process.process
    jungle_gaming.UseCase.Reconcile.compare_books jungle_gaming.UseCase.Reconcile.reconcile
    jungle_gaming.UseCase.Results.payload_hash jungle_gaming.Wagering.Kind.parse_kind
    jungle_gaming.Wagering.Kind.validate_amount jungle_gaming.Wagering.Kind.validate_reference
    jungle_gaming.Wagering.Status.parse_status
    jungle_gaming.Wagering.Transaction.Machine.new_processed_opening
    jungle_gaming.Wagering.Transaction.Rehydrate.rehydrate
    jungle_gaming.Wagering.Transaction.new_external jungle_gaming.Wallet.debit
    jungle_gaming.Wallet.open_wallet jungle_gaming.Wallet.opening_movement
    jungle_gaming.Wallet.rehydrate jungle_gaming.UseCase.Process.Settle.persist_rejected
    jungle_gaming.Wagering.Transaction.Machine.reject
    jungle_gaming.UseCase.Pending.Policy.with_defaults
    jungle_gaming.UseCase.Pending.Policy.double_delay
    jungle_gaming.UseCase.Pending.Policy.reference_backoff
    jungle_gaming.UseCase.Pending.Policy.exhausted
    jungle_gaming.UseCase.Pending.Resume.request_from_pending
    jungle_gaming.UseCase.Pending.Resume.rescheduled
    jungle_gaming.UseCase.Pending.Resume.wait_or_expire
    jungle_gaming.UseCase.Pending.Resume.settle_pending
    jungle_gaming.UseCase.Pending.Resume.resume_with jungle_gaming.UseCase.Pending.Resume.resume
    jungle_gaming.UseCase.Pending.Tick.resume_next jungle_gaming.UseCase.Pending.Tick.tick_rounds
    jungle_gaming.UseCase.Pending.Tick.tick jungle_gaming.UseCase.Pending.Tick.resume_first
    jungle_gaming.UseCase.Pending.Tick.advance
    jungle_gaming.Repository.Pending.claim_pending_references
    jungle_gaming.Repository.Pending.is_eligible jungle_gaming.Repository.Ordered.comes_first
    jungle_gaming.Repository.Pending.pending_rows jungle_gaming.Repository.Pending.scan_rows
    jungle_gaming.Repository.Ordered.insert_row jungle_gaming.Repository.Ordered.select_rows
    jungle_gaming.Repository.Transactions.update
    jungle_gaming.Repository.Transactions.has_successful_reversal
    jungle_gaming.Wagering.Transaction.Machine.schedule_reference_retry
    jungle_gaming.Wagering.Transaction.Machine.mark_pending_reference
    jungle_gaming.Wagering.Transaction.Machine.resolve_reference
    jungle_gaming.UseCase.Process.Apply.apply_reversal
    jungle_gaming.UseCase.Process.Apply.reversal_rejection
    jungle_gaming.UseCase.Process.Apply.eligible_for_reversal
    jungle_gaming.UseCase.Process.Apply.agrees jungle_gaming.UseCase.Process.Settle.mark_pending
    jungle_gaming.UseCase.Outbox.append_pending_reference_event jungle_gaming.Wallet.credit
worker_test = (
  refl,
  refl,
  refl,
  refl,
  refl,
  refl,
  ((omega arith, omega arith), ((omega arith, omega arith), tt)),
)

kept : IsKept pending_run.1.db
kept =
    let (_, _, _, _, _, _, fits) = worker_test in
    record {
      booked =
          process-IsBooked env rollback_command opened_world
            (open_for-IsBooked env open_command empty_world empty-IsBooked);
      amounts = fits;
    }

tick-IsKept_example : IsKept waiting_run.1.db × (waiting_run.0.processed ≤ 10)
unfolding with_defaults
tick-IsKept_example = tick-IsKept env policy pending_run.1 kept

-- The third attempt under the default policy: four seconds.
reference_backoff_lem_example :
    (pos 1000000000 ≤ℤ reference_backoff (pos 3) (pos 1000000000) (pos 30000000000))
    × (reference_backoff (pos 3) (pos 1000000000) (pos 30000000000) ≤ℤ pos 30000000000)
    × (reference_backoff (pos 3) (pos 1000000000) (pos 30000000000)
        ≤ℤ reference_backoff (pos 4) (pos 1000000000) (pos 30000000000))
    × ((reference_backoff (pos 3) (pos 1000000000) (pos 30000000000)
          ≡ pos 1000000000 *ℤ pos (2 ^ 2))
        ⊎ (reference_backoff (pos 3) (pos 1000000000) (pos 30000000000) ≡ pos 30000000000))
reference_backoff_lem_example =
    reference_backoff_lem 2 (pos 1000000000) (pos 30000000000) (omega arith) (omega arith)
      (omega arith, omega arith)

abbrev pending_rollback : Transaction
pending_rollback = record {
  id = 7;
  origin = origin_external;
  kind = rollback;
  wallet_id = 101;
  player_id = 2;
  amount = brl (pos 2500);
  status = pending_reference;
  provider_id = codes "pr";
  external_id = codes "x2";
  idempotency_key = codes "k2";
  payload_hash = codes "hash";
  round_id = codes "r";
  game_id = codes "g";
  reference_external_id = codes "x1";
  reference_id = none;
  failure_code = none;
  result = none;
  attempt_count = pos 0;
  next_retry_at = some 1000;
  created_at = 1000;
  updated_at = 1000;
}

abbrev waiting_rollback : Transaction
waiting_rollback = record pending_rollback {
  attempt_count = pos 1;
  next_retry_at = some 1000002000;
  updated_at = 2000;
}

-- The operation in the table of an opened wallet.
abbrev waiting_world : World
waiting_world = record opened_world {
  db = record opened_world.db {
    transactions = to_transaction_row pending_rollback ∷ opened_world.db.transactions;
  };
}

abbrev waited_run : Result TransactionResult × World
waited_run = wait_or_expire env policy pending_rollback 2000 waiting_world

abbrev waited_result : TransactionResult
waited_result = record no_result { transaction_id = 7; status = some pending_reference }

waiting_test :
    (waited_run.0 ≡ ok waited_result)
    × (find_row (λ stored. stored.id == 7) waited_run.1.db.transactions
        ≡ some (to_transaction_row waiting_rollback))
    × (to_domain (to_transaction_row waiting_rollback) ≡ ok waiting_rollback)
    × ((claim_pending_references 1 5000 waiting_world.db).0 ≡ ok (pending_rollback ∷ []))
unfolding jungle_gaming.Ledger.new_entry jungle_gaming.Money.parse_currency jungle_gaming.Money.add
    jungle_gaming.Money.Text.cut_at jungle_gaming.Money.Text.digits_to_minor_units
    jungle_gaming.Money.Text.integer_units jungle_gaming.Money.Text.parse
    jungle_gaming.Money.Text.parse_minor_units jungle_gaming.Money.Text.parse_parts
    jungle_gaming.Money.Text.require_digits jungle_gaming.Money.Text.signed
    jungle_gaming.Money.add_money jungle_gaming.Money.equal jungle_gaming.Money.multiply
    jungle_gaming.Money.sub_money jungle_gaming.Money.subtract jungle_gaming.Prelude.Bytes.bytes_eq
    jungle_gaming.Prelude.Int64.add64 jungle_gaming.Prelude.Int64.mul64
    jungle_gaming.Prelude.Int64.quo64 jungle_gaming.Prelude.Int64.sub64
    jungle_gaming.Repository.Entries.append jungle_gaming.Repository.Entries.count_entries
    jungle_gaming.Repository.Entries.min_currency jungle_gaming.Repository.Entries.sum_by_wallet
    jungle_gaming.Repository.Entries.sum_entries jungle_gaming.Repository.Messages.append
    jungle_gaming.Repository.Messages.find_message jungle_gaming.Repository.Messages.record_message
    jungle_gaming.Repository.Rows.origin_of jungle_gaming.Repository.Rows.rehydrate_wallet
    jungle_gaming.Repository.Rows.to_domain jungle_gaming.Repository.Rows.to_transaction_row
    jungle_gaming.Repository.Transactions.create
    jungle_gaming.Repository.Transactions.find_by_external_id
    jungle_gaming.Repository.Transactions.find_by_idempotency_key
    jungle_gaming.Repository.Transactions.transaction_checks
    jungle_gaming.Repository.Transactions.transaction_collides
    jungle_gaming.Repository.Wallets.create jungle_gaming.Repository.Wallets.find_by_id
    jungle_gaming.Repository.Wallets.update_balance jungle_gaming.Shared.Errors.errors_is
    jungle_gaming.Shared.Id.parse_id jungle_gaming.UseCase.Monad.execute
    jungle_gaming.UseCase.Monad.execute_read_only jungle_gaming.UseCase.Monad.new_id
    jungle_gaming.UseCase.Monad.read_clock jungle_gaming.UseCase.Monad.statement
    jungle_gaming.UseCase.OpenWallet.open_for jungle_gaming.UseCase.OpenWallet.record_opening
    jungle_gaming.UseCase.OpenWallet.store_opened
    jungle_gaming.UseCase.Outbox.append_balance_changed jungle_gaming.UseCase.Outbox.append_entry
    jungle_gaming.UseCase.Outbox.append_opening_events jungle_gaming.UseCase.Outbox.append_outbox
    jungle_gaming.UseCase.Outbox.append_processed_events
    jungle_gaming.UseCase.Outbox.append_transaction_event jungle_gaming.UseCase.Process.Apply.apply
    jungle_gaming.UseCase.Process.Apply.apply_direct jungle_gaming.UseCase.Process.Apply.find_replay
    jungle_gaming.UseCase.Process.Apply.replay_of jungle_gaming.UseCase.Process.Parse.parse
    jungle_gaming.UseCase.Process.Parse.parse_id_input jungle_gaming.UseCase.Process.Settle.move
    jungle_gaming.UseCase.Process.Settle.persist_settled
    jungle_gaming.UseCase.Process.Settle.record_movement jungle_gaming.UseCase.Process.Settle.store
    jungle_gaming.UseCase.Process.execute_in jungle_gaming.UseCase.Process.process
    jungle_gaming.UseCase.Reconcile.compare_books jungle_gaming.UseCase.Reconcile.reconcile
    jungle_gaming.UseCase.Results.payload_hash jungle_gaming.Wagering.Kind.parse_kind
    jungle_gaming.Wagering.Kind.validate_amount jungle_gaming.Wagering.Kind.validate_reference
    jungle_gaming.Wagering.Status.parse_status
    jungle_gaming.Wagering.Transaction.Machine.new_processed_opening
    jungle_gaming.Wagering.Transaction.Rehydrate.rehydrate
    jungle_gaming.Wagering.Transaction.new_external jungle_gaming.Wallet.debit
    jungle_gaming.Wallet.open_wallet jungle_gaming.Wallet.opening_movement
    jungle_gaming.Wallet.rehydrate jungle_gaming.UseCase.Process.Settle.persist_rejected
    jungle_gaming.Wagering.Transaction.Machine.reject
    jungle_gaming.UseCase.Pending.Policy.with_defaults
    jungle_gaming.UseCase.Pending.Policy.double_delay
    jungle_gaming.UseCase.Pending.Policy.reference_backoff
    jungle_gaming.UseCase.Pending.Policy.exhausted
    jungle_gaming.UseCase.Pending.Resume.request_from_pending
    jungle_gaming.UseCase.Pending.Resume.rescheduled
    jungle_gaming.UseCase.Pending.Resume.wait_or_expire
    jungle_gaming.UseCase.Pending.Resume.settle_pending
    jungle_gaming.UseCase.Pending.Resume.resume_with jungle_gaming.UseCase.Pending.Resume.resume
    jungle_gaming.UseCase.Pending.Tick.resume_next jungle_gaming.UseCase.Pending.Tick.tick_rounds
    jungle_gaming.UseCase.Pending.Tick.tick jungle_gaming.UseCase.Pending.Tick.resume_first
    jungle_gaming.UseCase.Pending.Tick.advance
    jungle_gaming.Repository.Pending.claim_pending_references
    jungle_gaming.Repository.Pending.is_eligible jungle_gaming.Repository.Ordered.comes_first
    jungle_gaming.Repository.Pending.pending_rows jungle_gaming.Repository.Pending.scan_rows
    jungle_gaming.Repository.Ordered.insert_row jungle_gaming.Repository.Ordered.select_rows
    jungle_gaming.Repository.Transactions.update
    jungle_gaming.Repository.Transactions.has_successful_reversal
    jungle_gaming.Wagering.Transaction.Machine.schedule_reference_retry
    jungle_gaming.Wagering.Transaction.Machine.mark_pending_reference
    jungle_gaming.Wagering.Transaction.Machine.resolve_reference
    jungle_gaming.UseCase.Process.Apply.apply_reversal
    jungle_gaming.UseCase.Process.Apply.reversal_rejection
    jungle_gaming.UseCase.Process.Apply.eligible_for_reversal
    jungle_gaming.UseCase.Process.Apply.agrees jungle_gaming.UseCase.Process.Settle.mark_pending
    jungle_gaming.UseCase.Outbox.append_pending_reference_event jungle_gaming.Wallet.credit
waiting_test = (refl, refl, refl, refl)

Waits-bound_example :
    (waiting_rollback.attempt_count ≡ pos 0 +ℤ pos 1)
    × (waiting_rollback.attempt_count <ℤ policy.max_attempts)
    × (pos 1 <ℤ policy.max_attempts)
unfolding with_defaults
Waits-bound_example =
    let (waited, found, read, _) = waiting_test in
    Waits-bound policy (omega arith) pending_rollback (omega arith) (omega arith) 0 waiting_rollback
      (again met env 2000 waiting_world waited_run.1 waited_result
        (to_transaction_row waiting_rollback)
        (ap (λ (r : Result TransactionResult). (r, waited_run.1)) waited) refl found read)

claim_pending_references_lem_example :
    All (IsDue 5000) (pending_rollback ∷ [])
    × IsOrdered attempt_instant transaction_name (pending_rollback ∷ [])
    × (1 ≡ fewer 1 (count_rows (is_waiting 5000) waiting_world.db.transactions))
claim_pending_references_lem_example =
    let (_, _, _, claimed) = waiting_test in
    claim_pending_references_lem 1 5000 waiting_world.db (pending_rollback ∷ []) claimed
