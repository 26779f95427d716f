-- ===== src/UseCase/Inbox/Examples.antt =====
-- Deliveries of the queue, and the theorems at these.
use jungle_gaming.Prelude.{
  ℕ, suc, ◌==◌, ◌≡◌, refl, ap, Bool, true, false, Option, none, some, List, [], ◌∷◌,
}
use jungle_gaming.Prelude.Bytes.{Bytes, codes, bytes_eq}
use jungle_gaming.Prelude.Int.{pos}
use jungle_gaming.Shared.{Result, ok, err, wrapped, external}
use jungle_gaming.Repository.Tables.{find_row, exists_row}
use jungle_gaming.Repository.Messages.{is_delivery}
use jungle_gaming.Wagering.Status.{processed}
use jungle_gaming.UseCase.Monad.{Env, World}
use jungle_gaming.UseCase.Results.{Command, TransactionResult, no_result}
use jungle_gaming.UseCase.Process.{execute_in}
use jungle_gaming.UseCase.Examples.{brl, env, env_failing, opened_world, bet_command, works}
use jungle_gaming.UseCase.Inbox.{handle}
use jungle_gaming.UseCase.Inbox.Envelope.{
  Decoder, Handler, Parcel, MessageData, Envelope, new_handler, parse_envelope,
  wager_requested_type,
}
use jungle_gaming.UseCase.Inbox.Recorded.{IsRecorded, handle-IsRecorded}
use jungle_gaming.UseCase.Inbox.Delivery.{handle_twice}
use jungle_gaming.UseCase.Inbox.Outcome.{handle_new, recorded_world, Fate}

-- Two raw messages: a bet of 25.00 in the currency that the text names.
abbrev pub decoder : Decoder
decoder = record {
  envelope = λ raw. ok (record {
    message_id = codes "m1";
    correlation_id = codes "c";
    message_type = wager_requested_type;
    occurred_at = 1;
    raw_data = raw;
  });
  message_data = λ raw. ok (record {
    provider_id = codes "pr";
    external_transaction_id = codes "x1";
    idempotency_key = codes "k1";
    player_id = codes "p";
    wallet_id = codes "w";
    round_id = codes "r";
    game_id = codes "g";
    kind = codes "BET";
    money = record { amount = codes "25.00"; currency = raw };
    reference_external_transaction_id = [];
  });
}

abbrev pub handler : Handler
handler = new_handler (codes "wager-consumer") ([] ∷ codes "pr" ∷ [])

abbrev pub raw : Bytes
raw = codes "BRL"

abbrev parcel : Bytes → Parcel
parcel currency = record {
  command = record bet_command { money = record { amount = codes "25.00"; currency = currency } };
  message_id = codes "m1";
  hash = codes "hash";
}

abbrev first_run : Result TransactionResult × World
first_run = handle env handler decoder raw opened_world

abbrev applied_run : Result TransactionResult × World
applied_run =
    execute_in env (parcel raw).command (recorded_world env handler (parcel raw) 116 opened_world)

-- A database that fails in the middle of the writes of the operation.
abbrev failing : Env
failing = env_failing (some 26)

abbrev failed_run : Result TransactionResult × World
failed_run =
    execute_in failing (parcel raw).command
      (recorded_world failing handler (parcel raw) 116 opened_world)

abbrev bet_result : TransactionResult
bet_result = record {
  transaction_id = 122;
  status = some processed;
  balance = brl (pos 7500);
  has_balance = true;
  failure_code = none;
  idempotent_replay = false;
}

deliveries_test :
    (parse_envelope env decoder handler raw ≡ ok (parcel raw))
    × (parse_envelope failing decoder handler raw ≡ ok (parcel raw))
    × (env.new_v7 (suc (suc opened_world.calls)) ≡ ok 116)
    × (first_run.0 ≡ ok bet_result)
    × (applied_run.0 ≡ ok bet_result)
    × (failed_run.0 ≡ err (wrapped (external 7)))
    × (find_row (is_delivery (codes "wager-consumer") (codes "m1")) opened_world.db.inbox ≡ none)
    × (exists_row (λ other. other.id == 116) opened_world.db.inbox ≡ false)
    × (failing.fault opened_world.calls ≡ none)
    × (failing.fault (suc opened_world.calls) ≡ none)
    × (failing.fault (suc (suc (suc (suc opened_world.calls)))) ≡ none)
unfolding jungle_gaming.Ledger.new_entry jungle_gaming.Money.parse_currency jungle_gaming.Money.add
    handle jungle_gaming.Money.Text.cut_at jungle_gaming.Money.Text.digits_to_minor_units
    jungle_gaming.Money.Text.integer_units jungle_gaming.Money.Text.parse
    jungle_gaming.Money.Text.parse_minor_units jungle_gaming.Money.Text.parse_parts
    jungle_gaming.Money.Text.require_digits jungle_gaming.Money.Text.signed
    jungle_gaming.Money.add_money jungle_gaming.Money.equal jungle_gaming.Money.multiply
    jungle_gaming.Money.sub_money jungle_gaming.Money.subtract jungle_gaming.Prelude.Bytes.bytes_eq
    jungle_gaming.Prelude.Int64.add64 jungle_gaming.Prelude.Int64.mul64
    jungle_gaming.Prelude.Int64.quo64 jungle_gaming.Prelude.Int64.sub64
    jungle_gaming.Repository.Entries.append jungle_gaming.Repository.Entries.count_entries
    jungle_gaming.Repository.Entries.min_currency jungle_gaming.Repository.Entries.sum_by_wallet
    jungle_gaming.Repository.Entries.sum_entries jungle_gaming.Repository.Messages.append
    jungle_gaming.Repository.Messages.find_message jungle_gaming.Repository.Messages.record_message
    jungle_gaming.Repository.Rows.origin_of jungle_gaming.Repository.Rows.rehydrate_wallet
    jungle_gaming.Repository.Rows.to_domain jungle_gaming.Repository.Rows.to_transaction_row
    jungle_gaming.Repository.Transactions.create
    jungle_gaming.Repository.Transactions.find_by_external_id
    jungle_gaming.Repository.Transactions.find_by_idempotency_key
    jungle_gaming.Repository.Transactions.transaction_checks
    jungle_gaming.Repository.Transactions.transaction_collides
    jungle_gaming.Repository.Wallets.create jungle_gaming.Repository.Wallets.find_by_id
    jungle_gaming.Repository.Wallets.update_balance jungle_gaming.Shared.Errors.errors_is
    jungle_gaming.Shared.Id.parse_id jungle_gaming.UseCase.Inbox.deliver
    jungle_gaming.UseCase.Monad.execute jungle_gaming.UseCase.Monad.execute_read_only
    jungle_gaming.UseCase.Monad.new_id jungle_gaming.UseCase.Monad.read_clock
    jungle_gaming.UseCase.Monad.statement jungle_gaming.UseCase.OpenWallet.open_for
    jungle_gaming.UseCase.OpenWallet.record_opening jungle_gaming.UseCase.OpenWallet.store_opened
    jungle_gaming.UseCase.Outbox.append_balance_changed jungle_gaming.UseCase.Outbox.append_entry
    jungle_gaming.UseCase.Outbox.append_opening_events jungle_gaming.UseCase.Outbox.append_outbox
    jungle_gaming.UseCase.Outbox.append_processed_events
    jungle_gaming.UseCase.Outbox.append_transaction_event jungle_gaming.UseCase.Process.Apply.apply
    jungle_gaming.UseCase.Process.Apply.apply_direct jungle_gaming.UseCase.Process.Apply.find_replay
    jungle_gaming.UseCase.Process.Apply.replay_of jungle_gaming.UseCase.Process.Parse.parse
    jungle_gaming.UseCase.Process.Parse.parse_id_input jungle_gaming.UseCase.Process.Settle.move
    jungle_gaming.UseCase.Process.Settle.persist_settled
    jungle_gaming.UseCase.Process.Settle.record_movement jungle_gaming.UseCase.Process.Settle.store
    jungle_gaming.UseCase.Process.execute_in jungle_gaming.UseCase.Process.process
    jungle_gaming.UseCase.Reconcile.compare_books jungle_gaming.UseCase.Reconcile.reconcile
    jungle_gaming.UseCase.Results.payload_hash jungle_gaming.Wagering.Kind.parse_kind
    jungle_gaming.Wagering.Kind.validate_amount jungle_gaming.Wagering.Kind.validate_reference
    jungle_gaming.Wagering.Status.parse_status
    jungle_gaming.Wagering.Transaction.Machine.new_processed_opening
    jungle_gaming.Wagering.Transaction.Rehydrate.rehydrate
    jungle_gaming.Wagering.Transaction.new_external jungle_gaming.Wallet.debit
    jungle_gaming.Wallet.open_wallet jungle_gaming.Wallet.opening_movement
    jungle_gaming.Wallet.rehydrate jungle_gaming.UseCase.Inbox.Envelope.new_handler
    jungle_gaming.UseCase.Inbox.Envelope.parse_envelope
    jungle_gaming.UseCase.Process.Settle.persist_rejected
    jungle_gaming.Wagering.Transaction.Machine.reject jungle_gaming.UseCase.Inbox.is_transient
deliveries_test = (refl, refl, refl, refl, refl, refl, refl, refl, refl, refl, refl)

-- The delivery leaves its message in the inbox.
handle-IsRecorded_example : IsRecorded handler (parcel raw) first_run.1.db
handle-IsRecorded_example =
    let (parsed, _, _, done, _, _, _, _, _, _, _) = deliveries_test in
    handle-IsRecorded env decoder handler raw (parcel raw) opened_world bet_result parsed done

handle_twice_example :
    ((handle env handler decoder raw first_run.1).0 ≡ ok no_result)
    × ((handle env handler decoder raw first_run.1).1.db ≡ first_run.1.db)
handle_twice_example =
    let (parsed, _, _, done, _, _, _, _, _, _, _) = deliveries_test in
    handle_twice env env decoder handler raw (parcel raw) opened_world first_run.1 bet_result parsed
      done works parsed refl

handle_new_example :
    Fate failing
      (err (wrapped (external 7)))
      failed_run.1
      opened_world.db
      (handle failing handler decoder raw opened_world).0
      (handle failing handler decoder raw opened_world).1.db
unfolding new_handler
handle_new_example =
    let (_, parsed, named, _, _, failed, unknown, unused, begins, reads, writes) =
      deliveries_test in
    handle_new failing decoder handler raw (parcel raw) opened_world 116
      (err (wrapped (external 7))) failed_run.1 begins reads writes unknown named unused parsed
      (ap (λ (r : Result TransactionResult). (r, failed_run.1)) failed)
