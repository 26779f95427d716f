-- ===== src/Messaging/Publisher/Examples.antt =====
-- Ticks of the publisher after a bet, and the theorems at these.
use jungle_gaming.Prelude.{
  ℕ, ◌+◌, ◌≡◌, ◌≤◌, refl, arith, Bool, true, false, ◌==◌, Option, none, some, List, [], ◌∷◌, All,
  length,
}
use jungle_gaming.Prelude.Bytes.{codes}
use jungle_gaming.Prelude.Int.{pos}
use jungle_gaming.Repository.Outbox.{candidates, claim, is_candidate}
use jungle_gaming.UseCase.Pending.Policy.{reference_backoff}
use jungle_gaming.UseCase.Examples.{env, bet_run}
use jungle_gaming.Messaging.Publisher.{
  PublisherConfig, Sender, Outlet, PublishResult, publish_tick, backoff_duration,
}
use jungle_gaming.Messaging.Publisher.Sent.{IsHonest, publish_tick-IsHonest}
use jungle_gaming.Messaging.Publisher.Leased.{claim_excludes}
use jungle_gaming.Messaging.Publisher.Backoff.{backoff_duration-reference_backoff}

abbrev config : PublisherConfig
config = record {
  publisher_id = codes "p1";
  batch_size = 10;
  lease_ttl = pos 30000000000;
  backoff_base = pos 1000000000;
  backoff_max = pos 60000000000;
}

abbrev sender : Sender
sender = record { refuses = λ n. none }

abbrev outlet : Outlet
outlet = record { world = bet_run.1; sent = [] }

abbrev publish_run : PublishResult × Outlet
publish_run = publish_tick env sender config outlet

publisher_test : (publish_run.0 ≡ record { published = 4; failure = none }) × IsHonest outlet
unfolding jungle_gaming.Ledger.new_entry jungle_gaming.Money.parse_currency jungle_gaming.Money.add
    jungle_gaming.Money.subtract jungle_gaming.Money.multiply jungle_gaming.Money.add_money
    jungle_gaming.Money.sub_money jungle_gaming.Money.equal jungle_gaming.Money.Text.cut_at
    jungle_gaming.Money.Text.require_digits jungle_gaming.Money.Text.integer_units
    jungle_gaming.Money.Text.digits_to_minor_units jungle_gaming.Money.Text.signed
    jungle_gaming.Money.Text.parse_parts jungle_gaming.Money.Text.parse_minor_units
    jungle_gaming.Money.Text.parse jungle_gaming.Prelude.Bytes.bytes_eq
    jungle_gaming.Prelude.Int64.add64 jungle_gaming.Prelude.Int64.sub64
    jungle_gaming.Prelude.Int64.mul64 jungle_gaming.Prelude.Int64.quo64
    jungle_gaming.Repository.Entries.append jungle_gaming.Repository.Messages.append
    jungle_gaming.Repository.Rows.rehydrate_wallet jungle_gaming.Repository.Rows.origin_of
    jungle_gaming.Repository.Rows.to_transaction_row jungle_gaming.Repository.Rows.to_domain
    jungle_gaming.Repository.Transactions.transaction_checks
    jungle_gaming.Repository.Transactions.transaction_collides
    jungle_gaming.Repository.Transactions.create
    jungle_gaming.Repository.Transactions.find_by_idempotency_key
    jungle_gaming.Repository.Transactions.find_by_external_id
    jungle_gaming.Repository.Wallets.create jungle_gaming.Repository.Wallets.find_by_id
    jungle_gaming.Repository.Wallets.update_balance jungle_gaming.Shared.Errors.errors_is
    jungle_gaming.Shared.Id.parse_id jungle_gaming.UseCase.Monad.statement
    jungle_gaming.UseCase.Monad.new_id jungle_gaming.UseCase.Monad.read_clock
    jungle_gaming.UseCase.Monad.execute jungle_gaming.UseCase.OpenWallet.record_opening
    jungle_gaming.UseCase.OpenWallet.store_opened jungle_gaming.UseCase.OpenWallet.open_for
    jungle_gaming.UseCase.Outbox.append_outbox jungle_gaming.UseCase.Outbox.append_transaction_event
    jungle_gaming.UseCase.Outbox.append_balance_changed
    jungle_gaming.UseCase.Outbox.append_processed_events
    jungle_gaming.UseCase.Outbox.append_opening_events jungle_gaming.UseCase.Outbox.append_entry
    jungle_gaming.UseCase.Process.execute_in jungle_gaming.UseCase.Process.process
    jungle_gaming.UseCase.Process.Apply.replay_of jungle_gaming.UseCase.Process.Apply.find_replay
    jungle_gaming.UseCase.Process.Apply.apply_direct jungle_gaming.UseCase.Process.Apply.apply
    jungle_gaming.UseCase.Process.Parse.parse_id_input jungle_gaming.UseCase.Process.Parse.parse
    jungle_gaming.UseCase.Process.Settle.store jungle_gaming.UseCase.Process.Settle.record_movement
    jungle_gaming.UseCase.Process.Settle.persist_settled jungle_gaming.UseCase.Process.Settle.move
    jungle_gaming.UseCase.Results.payload_hash jungle_gaming.Wagering.Kind.parse_kind
    jungle_gaming.Wagering.Kind.validate_amount jungle_gaming.Wagering.Kind.validate_reference
    jungle_gaming.Wagering.Status.parse_status jungle_gaming.Wagering.Transaction.new_external
    jungle_gaming.Wagering.Transaction.Machine.new_processed_opening
    jungle_gaming.Wagering.Transaction.Rehydrate.rehydrate jungle_gaming.Wallet.open_wallet
    jungle_gaming.Wallet.rehydrate jungle_gaming.Wallet.opening_movement jungle_gaming.Wallet.debit
    jungle_gaming.UseCase.Reconcile.reconcile jungle_gaming.UseCase.Reconcile.compare_books
    jungle_gaming.UseCase.Monad.execute_read_only jungle_gaming.Repository.Entries.sum_by_wallet
    jungle_gaming.Repository.Entries.sum_entries jungle_gaming.Repository.Entries.count_entries
    jungle_gaming.Repository.Entries.min_currency jungle_gaming.Messaging.Publisher.publish_tick
    jungle_gaming.Messaging.Publisher.publish_claimed jungle_gaming.Messaging.Publisher.publish_all
    jungle_gaming.Messaging.Publisher.publish_one jungle_gaming.Messaging.Publisher.after_sending
    jungle_gaming.Messaging.Publisher.confirm jungle_gaming.Repository.Outbox.claim
    jungle_gaming.Repository.Outbox.candidates jungle_gaming.Repository.Outbox.is_claimable
    jungle_gaming.Repository.Outbox.scan_events jungle_gaming.Repository.Outbox.mark_published
    jungle_gaming.Repository.Ordered.select_rows jungle_gaming.Repository.Ordered.insert_row
    jungle_gaming.Repository.Ordered.comes_first jungle_gaming.Repository.Rows.scan_id
publisher_test = (
  refl,
  (
    (λ p. absurd (ground arith)),
    (
      (λ p. absurd (ground arith)),
      ((λ p. absurd (ground arith)), ((λ p. absurd (ground arith)), tt)),
    ),
  ),
)

publish_tick-IsHonest_example : IsHonest publish_run.1
publish_tick-IsHonest_example =
    let (_, honest) = publisher_test in publish_tick-IsHonest env sender config outlet honest

claim_excludes_example :
    All
      (λ row. is_candidate (candidates 3 5000 bet_run.1.db.outbox) row ≡ false)
      (candidates 10 6000 (claim (codes "p1") 3 (pos 30000000000) 5000 bet_run.1.db).1.outbox)
claim_excludes_example =
    claim_excludes (codes "p1") 3 10 (pos 30000000000) 5000 6000 bet_run.1.db (omega arith)

backoff_duration-reference_backoff_example :
    backoff_duration (pos 3) (pos 1000000000) (pos 60000000000)
    ≡ reference_backoff (pos 3) (pos 1000000000) (pos 60000000000)
backoff_duration-reference_backoff_example =
    backoff_duration-reference_backoff 2 (pos 1000000000) (pos 60000000000) (omega arith)
      (omega arith) (omega arith, omega arith)
