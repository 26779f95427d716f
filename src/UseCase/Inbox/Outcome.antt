-- ===== src/UseCase/Inbox/Outcome.antt =====
-- A delivery of usecase/handle_message.go that is new: how the end of its operation decides the unit of
-- work.
use jungle_gaming.Prelude.{
  ℕ, suc, ◌==◌, ◌≡◌, refl, Bool, true, false, ◌⊎◌, Option, none, some, List, [], ◌∷◌, Bool-cases,
  inl, inr,
}
use jungle_gaming.Prelude.Bytes.{Bytes}
use jungle_gaming.Shared.{Error, Result, ok, err, wrapped, external, Uuid, errors_is}
use jungle_gaming.Repository.Tables.{Db, find_row, exists_row}
use jungle_gaming.Repository.Messages.{find_message, record_message, is_delivery}
use jungle_gaming.UseCase.Monad.{
  Env, World, execute, opened, new_id, read_clock, commit_rolled_back,
}
use jungle_gaming.UseCase.Results.{TransactionResult, no_result}
use jungle_gaming.UseCase.Replay.{answered}
use jungle_gaming.UseCase.Process.{execute_in}
use jungle_gaming.UseCase.Inbox.{
  inbox_message, is_transient, settle_outcome, apply_recorded, apply_delivery, deliver,
  handle_parcel, handle,
}
use jungle_gaming.UseCase.Inbox.Envelope.{Decoder, Handler, Parcel, parse_envelope}

-- What the unit of work of a new message would return if the operation ended with r: the result, or an empty
-- one if the operation failed for good.
abbrev pub Tells : Result TransactionResult → TransactionResult → Type 0
Tells r a = (r ≡ ok a) ⊎ ((e : Error) × (r ≡ err e) × (is_transient e ≡ false) × (a ≡ no_result))

-- What becomes of a new message whose operation ended with r in the world u.
pub data Fate (env : Env) (r : Result TransactionResult) (u : World) (before : Db)
    (answer : Result TransactionResult) (after : Db) : Type 0 where
  retried :
      (e : Error)
      → r ≡ err e
      → is_transient e ≡ true
      → answer ≡ err e
      → after ≡ before
      → Fate env r u before answer after
  kept :
      (a : TransactionResult)
      → Tells r a
      → u.aborted ≡ false
      → answer ≡ ok a
      → after ≡ u.db
      → Fate env r u before answer after
  refused :
      (a : TransactionResult)
      → Tells r a
      → u.aborted ≡ true
      → answer ≡ err (wrapped commit_rolled_back)
      → after ≡ before
      → Fate env r u before answer after
  lost :
      (a : TransactionResult) (n : ℕ)
      → Tells r a
      → env.fault u.calls ≡ some n
      → answer ≡ err (wrapped (external n))
      → (after ≡ before) ⊎ (after ≡ u.db)
      → Fate env r u before answer after

-- The world in which the operation of a new message runs, with the message in the inbox.
abbrev pub recorded_world : Env → Handler → Parcel → Uuid → World → World
recorded_world env handler parcel id w = record {
  db = record w.db {
    inbox = inbox_message id handler parcel (env.now (suc (suc (suc w.calls)))) ∷ w.db.inbox;
  };
  calls = suc (suc (suc (suc (suc w.calls))));
  aborted = false;
}

exists-find :
    {A : Type 0} (test : A → Bool) (rows : List A)
    → find_row test rows ≡ none
    → exists_row test rows ≡ false
exists-find test [] h = refl
exists-find test (row ∷ rows) h = elim (Bool-cases (test row)) [
  | inl t ↦ let x = rw t at h in cc
  | inr f ↦ rw f (exists-find test rows (rw f at h))
]

module _ (env : Env) (handler : Handler) (parcel : Parcel) (w : World)
    (begins : env.fault w.calls ≡ none) where
  unfoldable FateHere : Result TransactionResult → World → Type 0
  FateHere r u =
      Fate env r u w.db (execute env (deliver env handler parcel) w).0
        (execute env (deliver env handler parcel) w).1.db

  -- The unit of work after a function that succeeded.
  closes :
      (r : Result TransactionResult) (a : TransactionResult) (u : World) (b : Bool) (o : Option ℕ)
      (applied : Bool)
      → u.aborted ≡ b
      → env.fault u.calls ≡ o
      → env.commits u.calls ≡ applied
      → Tells r a
      → deliver env handler parcel (opened w) ≡ (ok a, u)
      → FateHere r u
  unfolding execute FateHere
  closes r a u true o l c f k t h = refused a t c (rw (begins, h, c) refl) (rw (begins, h, c) refl)
  closes r a u false none l c f k t h =
      kept a t c (rw (begins, h, c, f) refl) (rw (begins, h, c, f) refl)
  closes r a u false (some n) true c f k t h =
      lost a n t f (rw (begins, h, c, f) refl) (inr (rw (begins, h, c, f, k) refl))
  closes r a u false (some n) false c f k t h =
      lost a n t f (rw (begins, h, c, f) refl) (inl (rw (begins, h, c, f, k) refl))

  fails :
      (e : Error) (u : World)
      → is_transient e ≡ true
      → deliver env handler parcel (opened w) ≡ (err e, u)
      → FateHere (err e) u
  unfolding execute FateHere
  fails e u t h = retried e refl t (rw (begins, h) refl) (rw (begins, h) refl)

  finishes :
      (r : Result TransactionResult) (u : World)
      → deliver env handler parcel (opened w) ≡ settle_outcome r u
      → FateHere r u
  unfolding settle_outcome
  finishes (ok r) u h = closes (ok r) r u _ _ _ refl refl refl (inl refl) h
  finishes (err e) u h = elim (Bool-cases (is_transient e)) [
    | inl t ↦ fails e u t (rw t at h)
    | inr f ↦ closes (err e) no_result u _ _ _ refl refl refl (inr (e, refl, f, refl)) (rw f at h)
  ]

  module _
      (unknown : find_row (is_delivery handler.consumer_name parcel.message_id) w.db.inbox ≡ none)
      (id : Uuid) (named : env.new_v7 (suc (suc w.calls)) ≡ ok id)
      (unused : exists_row (λ other. other.id == id) w.db.inbox ≡ false)
      (reads : env.fault (suc w.calls) ≡ none)
      (writes : env.fault (suc (suc (suc (suc w.calls)))) ≡ none) where
    recorded_run :
        deliver env handler parcel (opened w)
        ≡ settle_outcome
            (execute_in env parcel.command (recorded_world env handler parcel id w)).0
            (execute_in env parcel.command (recorded_world env handler parcel id w)).1
    unfolding deliver apply_delivery apply_recorded find_message record_message new_id read_clock
        errors_is
    recorded_run =
        let now = env.now (suc (suc (suc w.calls))) in
        let message = inbox_message id handler parcel now in
        let at_clock : World = record (opened (opened w)) {
          calls = suc (suc (suc (suc w.calls)));
        } in
        rw
          (
            answered env (find_message handler.consumer_name parcel.message_id) (opened w) reads
                refl,
            unknown,
            named,
            answered env (record_message message) at_clock writes refl,
            exists-find (is_delivery handler.consumer_name parcel.message_id) w.db.inbox unknown,
            unused,
          )
          refl

-- What becomes of a message that the inbox does not have, where the unit of work begins, the query finds
-- nothing and the inbox record is written with a new identifier, whatever fails from the operation on: if the
-- operation fails and the failure is transient, that failure is returned and nothing is kept, the inbox
-- record neither; otherwise, the result, or an empty one after a permanent failure, is returned and
-- everything that was written is kept with the inbox record, unless PostgreSQL had refused a statement,
-- when the commit fails and nothing is kept, or the answer to the commit is lost, when an error is returned
-- and either nothing or all of it is kept.
pub handle_new :
    (env : Env) (decoder : Decoder) (handler : Handler) (raw : Bytes) (parcel : Parcel) (w : World)
    (id : Uuid) (r : Result TransactionResult) (u : World)
    → env.fault w.calls ≡ none
    → env.fault (suc w.calls) ≡ none
    → env.fault (suc (suc (suc (suc w.calls)))) ≡ none
    → find_row (is_delivery handler.consumer_name parcel.message_id) w.db.inbox ≡ none
    → env.new_v7 (suc (suc w.calls)) ≡ ok id
    → exists_row (λ other. other.id == id) w.db.inbox ≡ false
    → parse_envelope env decoder handler raw ≡ ok parcel
    → execute_in env parcel.command (recorded_world env handler parcel id w) ≡ (r, u)
    → Fate env r u w.db (handle env handler decoder raw w).0 (handle env handler decoder raw w).1.db
unfolding handle handle_parcel
handle_new env decoder handler raw parcel w id r u begins reads writes unknown named unused p run =
    rw p (
      unfold FateHere in
      finishes env handler parcel w begins r u
        (rw run at (recorded_run env handler parcel w begins unknown id named unused reads writes)))
