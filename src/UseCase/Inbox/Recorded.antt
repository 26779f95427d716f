-- ===== src/UseCase/Inbox/Recorded.antt =====
-- What the inbox of usecase/handle_message.go holds after a delivery.
use jungle_gaming.Prelude.{
  ◌≡◌, refl, arith, true, not, Bool-cases, inl, inr, ◌==◌, some, none, Option, ◌∷◌,
}
use jungle_gaming.Prelude.Bytes.{Bytes, bytes_eq, bytes_eq_refl}
use jungle_gaming.Shared.{Result, ok, err, errors_is, not_found, persistence_conflict, Uuid, Time}
use jungle_gaming.Wagering.Transaction.{Transaction}
use jungle_gaming.Repository.Wallets
use jungle_gaming.Repository.Entries
use jungle_gaming.Repository.Messages
use jungle_gaming.Repository.Messages.{is_delivery, scan_message, find_message, record_message}
use jungle_gaming.Repository.Transactions
use jungle_gaming.Repository.Tables.{Db, InboxMessage, find_row, exists_row, scan_row}
use jungle_gaming.UseCase.Monad.{Env, World, statement, execute, new_id, read_clock}
use jungle_gaming.UseCase.Results.{TransactionResult}
use jungle_gaming.UseCase.Preserves.{Safe}
use jungle_gaming.UseCase.Preserves.Settling.{Tolerates}
use jungle_gaming.UseCase.Preserves.Processing.{execute_in_safe}
use jungle_gaming.UseCase.Gives.{
  OnSuccess, Gives, Met, Gives-pure, Gives-raise, Gives-if, Gives-statement, Gives-attempt,
  Gives-execute, Gives-kept, Gives-any, Gives-bind,
}
use jungle_gaming.UseCase.Inbox.{
  compare_delivery, settle_outcome, apply_recorded, apply_delivery, deliver, handle_parcel, handle,
  inbox_message, is_transient,
}
use jungle_gaming.UseCase.Inbox.Envelope.{Decoder, Handler, Parcel, parse_envelope}

-- The inbox has the message, with the hash of its payload.
pub record IsRecorded (handler : Handler) (parcel : Parcel) (db : Db) : Type 0 where
  pub message : InboxMessage
  pub found : find_row (is_delivery handler.consumer_name parcel.message_id) db.inbox ≡ some message
  pub same_payload : bytes_eq message.payload_hash parcel.hash ≡ true

on_result :
    {A : Type 0} (Q : A → Db → Type 0) (x : Result A) (db : Db) (a : A)
    → x ≡ ok a
    → OnSuccess Q x db
    → Q a db
on_result Q x db a e h = rw e at h

module _ (handler : Handler) (parcel : Parcel) where
  -- The tables of an operation are others.
  kept :
      {db db' : Db}
      → db'.inbox ≡ db.inbox
      → IsRecorded handler parcel db
      → IsRecorded handler parcel db'
  kept same r = record {
    message = r.message;
    found = rw same r.found;
    same_payload = r.same_payload;
  }

  inbox_Tolerates : Tolerates (IsRecorded handler parcel)
  unfolding Entries.append Wallets.update_balance Messages.append
  inbox_Tolerates = record {
    entry = λ e db h. kept (ground arith) h;
    balance = λ target db h. kept (ground arith) h;
    event = λ e db h. kept (ground arith) h;
  }

  created_kept : (t : Transaction) → Safe (IsRecorded handler parcel) (Transactions.create t)
  unfolding Transactions.create
  created_kept t db h = kept (ground arith) h

  -- The row that was found is the one that the query looks for.
  abbrev Found : InboxMessage → Db → Type 0
  Found m db = find_row (is_delivery handler.consumer_name parcel.message_id) db.inbox ≡ some m

  scan_message-Found :
      (o : Option InboxMessage) (db : Db)
      → find_row (is_delivery handler.consumer_name parcel.message_id) db.inbox ≡ o
      → OnSuccess Found (scan_row scan_message o) db
  scan_message-Found none db h = tt
  scan_message-Found (some m) db h = h

  find_gives :
      (env : Env)
      → Gives
          (λ db. Unit {0})
          (statement env (find_message handler.consumer_name parcel.message_id))
          Found
  unfolding find_message
  find_gives env = Gives-statement env _ (λ db u. scan_message-Found _ db refl)

  recorded :
      (db : Db) (m : InboxMessage)
      → bytes_eq m.consumer_name handler.consumer_name ≡ true
      → bytes_eq m.message_id parcel.message_id ≡ true
      → bytes_eq m.payload_hash parcel.hash ≡ true
      → IsRecorded handler parcel (record db { inbox = m ∷ db.inbox })
  recorded db m c i h = record { message = m; found = rw (c, i) refl; same_payload = h }

  record_gives :
      (env : Env) (id : Uuid) (now : Time)
      → Gives
          (λ db. Unit {0})
          (statement env (record_message (inbox_message id handler parcel now)))
          (λ u. IsRecorded handler parcel)
  unfolding record_message
  record_gives env id now = Gives-statement env _ (λ db u.
      elim (Bool-cases
        (exists_row (is_delivery handler.consumer_name parcel.message_id) db.inbox)) [
          | inl t ↦ rw t tt
          | inr f ↦ elim (Bool-cases (exists_row (λ other. other.id == id) db.inbox)) [
            | inl t ↦ rw (f, t) tt
            | inr g ↦
                rw (f, g) (recorded db _ (bytes_eq_refl _) (bytes_eq_refl _) (bytes_eq_refl _))
          ]
        ])

  compare_gives :
      (m : InboxMessage)
      → Gives (Found m) (compare_delivery parcel m) (λ r. IsRecorded handler parcel)
  unfolding compare_delivery
  compare_gives m =
      Gives-if (not (bytes_eq m.payload_hash parcel.hash)) _ _ (λ u. Gives-raise _)
        (λ same.
          Gives-pure _ (λ db h. record { message = m; found = h; same_payload = ground arith }))

  settle_gives :
      (r : Result TransactionResult)
      → Gives (IsRecorded handler parcel) (settle_outcome r) (λ r. IsRecorded handler parcel)
  unfolding settle_outcome
  settle_gives (ok r) = Gives-pure r (λ db h. h)
  settle_gives (err e) =
      Gives-if (is_transient e) _ _ (λ u. Gives-raise e) (λ u. Gives-pure _ (λ db h. h))

  module _ (env : Env) where
    apply_recorded_gives :
        (r : Result (Unit {0}))
        → Gives
            (Met (λ u. IsRecorded handler parcel) r)
            (apply_recorded env handler parcel r)
            (λ r. IsRecorded handler parcel)
    unfolding apply_recorded
    apply_recorded_gives (ok u) =
        Gives-bind _ _
          (Gives-kept _ (
            execute_in_safe env (IsRecorded handler parcel) inbox_Tolerates created_kept
              parcel.command))
          (λ r. settle_gives r)
    apply_recorded_gives (err e) =
        Gives-if (not (errors_is e persistence_conflict)) _ _ (λ u. Gives-raise e)
          (λ u. Gives-bind _ _ (find_gives env) (λ m. compare_gives m))

    delivery_gives :
        (r : Result InboxMessage)
        → Gives (Met Found r) (apply_delivery env handler parcel r) (λ r. IsRecorded handler parcel)
    unfolding apply_delivery
    delivery_gives (ok m) = compare_gives m
    delivery_gives (err e) =
        Gives-if (not (errors_is e not_found)) _ _ (λ u. Gives-raise e)
          (λ u. Gives-bind {Q = λ id db. Unit} (new_id env) _ (Gives-any _) (λ id.
            Gives-bind {Q = λ now db. Unit} (read_clock env) _ (Gives-any _) (λ now.
              Gives-bind _ _ (Gives-attempt _ (record_gives env id now))
                (λ r. apply_recorded_gives r))))

    deliver_gives :
        Gives (λ db. Unit {0}) (deliver env handler parcel) (λ r. IsRecorded handler parcel)
    unfolding deliver
    deliver_gives = Gives-bind _ _ (Gives-attempt _ (find_gives env)) (λ r. delivery_gives r)

-- A delivery whose handling reports no error has its message in the inbox afterwards, under the consumer
-- and with the hash of its payload, whether it was applied, refused for good or repeated.
pub handle-IsRecorded :
    (env : Env) (decoder : Decoder) (handler : Handler) (raw : Bytes) (parcel : Parcel) (w : World)
    (r : TransactionResult)
    → parse_envelope env decoder handler raw ≡ ok parcel
    → (handle env handler decoder raw w).0 ≡ ok r
    → IsRecorded handler parcel (handle env handler decoder raw w).1.db
unfolding handle handle_parcel
handle-IsRecorded env decoder handler raw parcel w r p h =
    let h' : (execute env (deliver env handler parcel) w).0 ≡ ok r = rw p at h in
    rw p (on_result _ _ _ r h' ((Gives-execute env _ (deliver_gives handler parcel env)).at w tt))
