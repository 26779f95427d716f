-- ===== src/UseCase/Replay.antt =====
-- Replays and conflicts: what processing does with an operation that is registered already.
use jungle_gaming.Prelude.{ℕ, suc, ◌≡◌, refl, Bool, true, false, Option, none, some, if◌then◌else◌}
use jungle_gaming.Prelude.Bytes.{bytes_eq}
use jungle_gaming.Shared.{Result, ok, err, errors_is}
use jungle_gaming.Wagering.Transaction.{Transaction, FinancialResult}
use jungle_gaming.Wallet.{Wallet}
use jungle_gaming.Repository.Transactions
use jungle_gaming.Repository.Wallets
use jungle_gaming.Repository.Tables.{Statement, err_not_found}
use jungle_gaming.UseCase.Monad.{Env, World, statement, is_refused, opened, execute}
use jungle_gaming.UseCase.Results.{
  Command, Request, TransactionResult, err_idempotency_conflict, err_operation_reapplied,
}
use jungle_gaming.UseCase.Process.{process, execute_in, resume_or_apply}
use jungle_gaming.UseCase.Process.Parse.{parse}
use jungle_gaming.UseCase.Process.Apply.{
  find_replay, replay_of, replay_by_key, replay_by_external_id,
}

-- What a call of the database that works returns.
pub answered :
    {A : Type 0} (env : Env) (s : Statement A) (w : World)
    → env.fault w.calls ≡ none
    → w.aborted ≡ false
    → statement env s w ≡ (
      (s w.db).0,
      record { db = (s w.db).1; calls = suc w.calls; aborted = is_refused (s w.db).0 },
    )
unfolding statement
answered env s w works sound = rw (sound, works) refl

matched :
    (env : Env) (parsed : Request) (existing : Transaction) (w : World) (same : Bool)
    → bytes_eq existing.payload_hash parsed.hash ≡ same
    → replay_by_key env parsed (ok existing) w
      ≡ (if same then ok (some (replay_of existing)) else err err_idempotency_conflict, w)
unfolding replay_by_key
matched env parsed existing w true h = rw h refl
matched env parsed existing w false h = rw h refl

module _ (env : Env) (parsed : Request) (w : World) (works : env.fault w.calls ≡ none)
    (sound : w.aborted ≡ false) where
  -- With a transaction registered under the provider's key, and a database that answers the query: the
  -- same payload gets the recorded outcome as a replay, another payload is a conflict, and nothing is
  -- written in either case.
  pub find_replay-by_key :
      (existing : Transaction)
      → (Transactions.find_by_idempotency_key parsed.command.provider_id
          parsed.command.idempotency_key w.db).0
        ≡ ok existing
      → find_replay env parsed w ≡ (
        if bytes_eq existing.payload_hash parsed.hash
            then ok (some (replay_of existing))
            else err err_idempotency_conflict,
        opened w,
      )
  unfolding find_replay Transactions.find_by_idempotency_key
  find_replay-by_key existing found =
      rw
        (
          answered env
              (Transactions.find_by_idempotency_key parsed.command.provider_id
                parsed.command.idempotency_key)
              w works sound,
          found,
        )
        (matched env parsed existing (opened w) _ refl)

unmatched_key :
    (env : Env) (parsed : Request) (w : World)
    → env.fault w.calls ≡ none
    → w.aborted ≡ false
    → (applied : Result Transaction)
    → (Transactions.find_by_external_id parsed.command.provider_id
        parsed.command.external_transaction_id w.db).0
      ≡ applied
    → is_refused applied ≡ false
    → replay_by_key env parsed (err err_not_found) w ≡ replay_by_external_id env applied (opened w)
unfolding replay_by_key Transactions.find_by_external_id errors_is
unmatched_key env parsed w works sound applied found fine =
    rw
      (
        answered env
            (Transactions.find_by_external_id parsed.command.provider_id
              parsed.command.external_transaction_id)
            w works sound,
        found,
        fine,
      )
      refl

module _ (env : Env) (parsed : Request) (w : World) (works : (n : ℕ) → env.fault n ≡ none)
    (sound : w.aborted ≡ false)
    (unknown : (Transactions.find_by_idempotency_key parsed.command.provider_id
        parsed.command.idempotency_key w.db).0
      ≡ err err_not_found) where
  new_key :
      (applied : Result Transaction)
      → (Transactions.find_by_external_id parsed.command.provider_id
          parsed.command.external_transaction_id w.db).0
        ≡ applied
      → is_refused applied ≡ false
      → find_replay env parsed w ≡ replay_by_external_id env applied (opened (opened w))
  unfolding find_replay Transactions.find_by_idempotency_key errors_is
  new_key applied found fine =
      rw
        (
          answered env
              (Transactions.find_by_idempotency_key parsed.command.provider_id
                parsed.command.idempotency_key)
              w (works w.calls) sound,
          unknown,
        )
        (unmatched_key env parsed (opened w) (works (suc w.calls)) refl applied found fine)

  -- With a database that answers, no transaction under the provider's key, and one under the provider's
  -- external identifier, the operation is refused as applied already, and nothing is written.
  pub find_replay-reapplied :
      (applied : Transaction)
      → (Transactions.find_by_external_id parsed.command.provider_id
          parsed.command.external_transaction_id w.db).0
        ≡ ok applied
      → find_replay env parsed w ≡ (err err_operation_reapplied, opened (opened w))
  unfolding replay_by_external_id
  find_replay-reapplied applied found = new_key (ok applied) found refl

  -- With no transaction under either, the operation is new.
  pub find_replay-unknown :
      (Transactions.find_by_external_id parsed.command.provider_id
          parsed.command.external_transaction_id w.db).0
        ≡ err err_not_found
      → find_replay env parsed w ≡ (ok none, opened (opened w))
  unfolding replay_by_external_id errors_is
  find_replay-unknown found = new_key (err err_not_found) found refl

-- The balance of a replay is the recorded one, if the operation has been settled with one.
abbrev pub ShowsBalance : Option FinancialResult → TransactionResult → Type 0
ShowsBalance none r = r.has_balance ≡ false
ShowsBalance (some f) r = (r.has_balance ≡ true) × (r.balance ≡ f.balance)

-- A result that tells the outcome recorded in a transaction, and says that it is a replay.
pub record IsReplay (existing : Transaction) (r : TransactionResult) : Type 0 where
  pub same_id : r.transaction_id ≡ existing.id
  pub same_status : r.status ≡ some existing.status
  pub same_failure : r.failure_code ≡ existing.failure_code
  pub same_balance : ShowsBalance existing.result r
  pub flagged : r.idempotent_replay ≡ true

shown_balance :
    (existing : Transaction) (o : Option FinancialResult)
    → existing.result ≡ o
    → ShowsBalance o (replay_of existing)
unfolding replay_of
shown_balance existing none h = rw h refl
shown_balance existing (some f) h = rw h (refl, refl)

replay_of-IsReplay : (existing : Transaction) → IsReplay existing (replay_of existing)
unfolding replay_of
replay_of-IsReplay existing = record {
  same_id = refl;
  same_status = refl;
  same_failure = refl;
  same_balance = shown_balance existing _ refl;
  flagged = refl;
}

replayed_run :
    (env : Env) (c : Command) (parsed : Request) (target : Wallet) (existing : Transaction)
    (w : World)
    → ((n : ℕ) → env.fault n ≡ none)
    → parse env c ≡ ok parsed
    → (Wallets.lock_by_id parsed.wallet_id w.db).0 ≡ ok target
    → (Transactions.find_by_idempotency_key parsed.command.provider_id
        parsed.command.idempotency_key w.db).0
      ≡ ok existing
    → bytes_eq existing.payload_hash parsed.hash ≡ true
    → ((process env c w).0 ≡ ok (replay_of existing)) × ((process env c w).1.db ≡ w.db)
unfolding process execute execute_in Wallets.find_by_id resume_or_apply
replayed_run env c parsed target existing w works p l k same =
    rw (works w.calls, p)
      (rw
        (
          answered env (Wallets.lock_by_id parsed.wallet_id) (opened w) (works (suc w.calls)) refl,
          l,
        )
        (rw
          (
            find_replay-by_key env parsed (opened (opened w)) (works (suc (suc w.calls))) refl
                existing k,
            same,
          )
          (rw (works (suc (suc (suc w.calls)))) (refl, refl))))

-- With a database that answers, processing a valid command of a stored wallet whose key is registered
-- with the same payload leaves the database as it was and returns a result marked as a replay, with the
-- identifier, the status and the failure code of the registered transaction, and with the balance that
-- was recorded when it was settled, if there is one.
pub process_replayed :
    (env : Env) (c : Command) (parsed : Request) (target : Wallet) (existing : Transaction)
    (w : World)
    → ((n : ℕ) → env.fault n ≡ none)
    → parse env c ≡ ok parsed
    → (Wallets.lock_by_id parsed.wallet_id w.db).0 ≡ ok target
    → (Transactions.find_by_idempotency_key parsed.command.provider_id
        parsed.command.idempotency_key w.db).0
      ≡ ok existing
    → bytes_eq existing.payload_hash parsed.hash ≡ true
    → (r : TransactionResult) × ((process env c w).0 ≡ ok r)
      × IsReplay existing r
      × ((process env c w).1.db ≡ w.db)
process_replayed env c parsed target existing w works p l k same =
    let (answer, left) = replayed_run env c parsed target existing w works p l k same in
    (replay_of existing, answer, replay_of-IsReplay existing, left)
