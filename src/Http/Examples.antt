-- ===== src/Http/Examples.antt =====
-- Requests after a bet, and the theorems at these.
use jungle_gaming.Prelude.{ℕ, ◌≡◌, refl, ◌↔◌, ◌⊎◌, true, some}
use jungle_gaming.Prelude.Bytes.{codes}
use jungle_gaming.Shared.{ok, wrapped, external}
use jungle_gaming.UseCase.Monad.{Env}
use jungle_gaming.UseCase.Examples.{env, bet_run, opened_world, bet_command, registered}
use jungle_gaming.UseCase.Inbox.{is_transient}
use jungle_gaming.Http.Errors.{failed_with, map_error}
use jungle_gaming.Http.Answers.{map_error-is_transient}
use jungle_gaming.Http.Transactions.{
  Identity, ProcessRequest, provider_role, Response, transaction, map_transaction, get_by_id,
}
use jungle_gaming.Http.Isolation.{get_by_id_isolated}
use jungle_gaming.Http.Auth.{Tokens, create_route}
use jungle_gaming.Http.Authorized.{IsAuthorized, create_route-IsAuthorized}

abbrev identity : Identity
identity = record {
  subject = codes "s";
  role = provider_role;
  provider_id = codes "pr";
  client_id = codes "c";
}

-- The text in the path is the identifier of the bet.
abbrev reader : Env
reader = record env { uuid_parse = λ s. ok 118 }

abbrev shown : Response
shown = (get_by_id reader (some identity) (codes "t") bet_run.1).0

bet_shown : shown.body ≡ transaction (map_transaction registered)
unfolding jungle_gaming.Ledger.new_entry jungle_gaming.Money.parse_currency jungle_gaming.Money.add
    jungle_gaming.Money.subtract jungle_gaming.Money.multiply jungle_gaming.Money.add_money
    jungle_gaming.Money.sub_money jungle_gaming.Money.equal jungle_gaming.Money.Text.cut_at
    jungle_gaming.Money.Text.require_digits jungle_gaming.Money.Text.integer_units
    jungle_gaming.Money.Text.digits_to_minor_units jungle_gaming.Money.Text.signed
    jungle_gaming.Money.Text.parse_parts jungle_gaming.Money.Text.parse_minor_units
    jungle_gaming.Money.Text.parse jungle_gaming.Prelude.Bytes.bytes_eq
    jungle_gaming.Prelude.Int64.add64 jungle_gaming.Prelude.Int64.sub64
    jungle_gaming.Prelude.Int64.mul64 jungle_gaming.Prelude.Int64.quo64
    jungle_gaming.Repository.Entries.append jungle_gaming.Repository.Messages.append
    jungle_gaming.Repository.Rows.rehydrate_wallet jungle_gaming.Repository.Rows.origin_of
    jungle_gaming.Repository.Rows.to_transaction_row jungle_gaming.Repository.Rows.to_domain
    jungle_gaming.Repository.Transactions.transaction_checks
    jungle_gaming.Repository.Transactions.transaction_collides
    jungle_gaming.Repository.Transactions.create
    jungle_gaming.Repository.Transactions.find_by_idempotency_key
    jungle_gaming.Repository.Transactions.find_by_external_id
    jungle_gaming.Repository.Wallets.create jungle_gaming.Repository.Wallets.find_by_id
    jungle_gaming.Repository.Wallets.update_balance jungle_gaming.Shared.Errors.errors_is
    jungle_gaming.Shared.Id.parse_id jungle_gaming.UseCase.Monad.statement
    jungle_gaming.UseCase.Monad.new_id jungle_gaming.UseCase.Monad.read_clock
    jungle_gaming.UseCase.Monad.execute jungle_gaming.UseCase.OpenWallet.record_opening
    jungle_gaming.UseCase.OpenWallet.store_opened jungle_gaming.UseCase.OpenWallet.open_for
    jungle_gaming.UseCase.Outbox.append_outbox jungle_gaming.UseCase.Outbox.append_transaction_event
    jungle_gaming.UseCase.Outbox.append_balance_changed
    jungle_gaming.UseCase.Outbox.append_processed_events
    jungle_gaming.UseCase.Outbox.append_opening_events jungle_gaming.UseCase.Outbox.append_entry
    jungle_gaming.UseCase.Process.execute_in jungle_gaming.UseCase.Process.process
    jungle_gaming.UseCase.Process.Apply.replay_of jungle_gaming.UseCase.Process.Apply.find_replay
    jungle_gaming.UseCase.Process.Apply.apply_direct jungle_gaming.UseCase.Process.Apply.apply
    jungle_gaming.UseCase.Process.Parse.parse_id_input jungle_gaming.UseCase.Process.Parse.parse
    jungle_gaming.UseCase.Process.Settle.store jungle_gaming.UseCase.Process.Settle.record_movement
    jungle_gaming.UseCase.Process.Settle.persist_settled jungle_gaming.UseCase.Process.Settle.move
    jungle_gaming.UseCase.Results.payload_hash jungle_gaming.Wagering.Kind.parse_kind
    jungle_gaming.Wagering.Kind.validate_amount jungle_gaming.Wagering.Kind.validate_reference
    jungle_gaming.Wagering.Status.parse_status jungle_gaming.Wagering.Transaction.new_external
    jungle_gaming.Wagering.Transaction.Machine.new_processed_opening
    jungle_gaming.Wagering.Transaction.Rehydrate.rehydrate jungle_gaming.Wallet.open_wallet
    jungle_gaming.Wallet.rehydrate jungle_gaming.Wallet.opening_movement jungle_gaming.Wallet.debit
    jungle_gaming.UseCase.Reconcile.reconcile jungle_gaming.UseCase.Reconcile.compare_books
    jungle_gaming.UseCase.Monad.execute_read_only jungle_gaming.Repository.Entries.sum_by_wallet
    jungle_gaming.Repository.Entries.sum_entries jungle_gaming.Repository.Entries.count_entries
    jungle_gaming.Repository.Entries.min_currency jungle_gaming.Http.Transactions.get_by_id
    jungle_gaming.Http.Transactions.read_parsed jungle_gaming.Http.Transactions.answer_read
    jungle_gaming.Http.Transactions.may_read jungle_gaming.Http.Transactions.map_transaction
    jungle_gaming.Repository.Transactions.find_by_id
bet_shown = refl

get_by_id_isolated_example : (map_transaction registered).provider_id ≡ codes "pr"
get_by_id_isolated_example =
    get_by_id_isolated reader identity refl (codes "t") bet_run.1 (map_transaction registered)
      bet_shown

map_error-is_transient_example :
    ((map_error (failed_with (wrapped (external 7)))).status ≡ 503)
    ↔ (is_transient (wrapped (external 7)) ≡ true)
map_error-is_transient_example = map_error-is_transient (wrapped (external 7))

-- Every token is one of the provider, and the request is the bet.
abbrev tokens : Tokens
tokens = record {
  parse_claims = λ s. ok (record {
    subject = codes "s";
    provider_id = codes "pr";
    wallet_role = codes "provider";
    client_id = codes "c";
  });
  trim_space = λ s. s;
}

abbrev request : ProcessRequest
request = record {
  provider_id = bet_command.provider_id;
  external_transaction_id = bet_command.external_transaction_id;
  player_id = bet_command.player_id;
  wallet_id = bet_command.wallet_id;
  round_id = bet_command.round_id;
  game_id = bet_command.game_id;
  kind = bet_command.kind;
  money = bet_command.money;
  reference_external_transaction_id = bet_command.reference_external_transaction_id;
}

create_route-IsAuthorized_example :
    ((create_route env tokens (codes "Bearer t") (codes "k1") (ok request) opened_world).1
      ≡ opened_world)
    ⊎ IsAuthorized tokens (codes "Bearer t") request
create_route-IsAuthorized_example =
    create_route-IsAuthorized env tokens (codes "Bearer t") (codes "k1") request opened_world
