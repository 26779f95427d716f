-- ===== src/Http/Isolation.antt =====
-- What an identity reads over internal/platform/httpserver/wagering_handler.go.
use jungle_gaming.Prelude.{◌≡◌, ◌∙◌, arith, true, Bool-cases, inl, inr, some}
use jungle_gaming.Prelude.Bytes.{Bytes, eq_of_bytes_eq}
use jungle_gaming.Shared.{Result, ok, err, Uuid, parse_id}
use jungle_gaming.Wagering.Transaction.{Transaction}
use jungle_gaming.UseCase.Monad.{Env, World}
use jungle_gaming.Http.Transactions.{
  Identity, provider_role, TransactionResponse, transaction, may_read, map_transaction, answer_read,
  read_parsed, get_by_id,
}

allowed :
    (provider : Bytes) (t : Transaction)
    → may_read provider_role provider t ≡ true
    → t.provider_id ≡ provider
unfolding may_read
allowed provider t h = eq_of_bytes_eq t.provider_id provider (ground arith)

shown :
    (t : Transaction) (r : TransactionResponse)
    → transaction (map_transaction t) ≡ transaction r
    → r.provider_id ≡ t.provider_id
unfolding map_transaction
shown t r h = cc

module _ (env : Env) (identity : Identity) (is_provider : identity.role ≡ provider_role) where
  answer_isolated :
      (found : Result Transaction) (r : TransactionResponse)
      → (answer_read env identity found).body ≡ transaction r
      → r.provider_id ≡ identity.provider_id
  unfolding answer_read
  answer_isolated (err e) r h = cc
  answer_isolated (ok t) r h = elim (Bool-cases (may_read identity.role identity.provider_id t)) [
    | inl y ↦ shown t r (rw y at h) ∙ allowed identity.provider_id t (rw is_provider at y)
    | inr n ↦ let x = rw n at h in cc
  ]

  parsed_isolated :
      (id : Result Uuid) (w : World) (r : TransactionResponse)
      → (read_parsed env identity id w).0.body ≡ transaction r
      → r.provider_id ≡ identity.provider_id
  unfolding read_parsed
  parsed_isolated (err e) w r h = cc
  parsed_isolated (ok id) w r h = answer_isolated _ r h

  -- A provider reads its own operations only: whatever identifier it asks for and whatever the database
  -- holds, an operation that the route answers with carries the provider's own identifier.
  pub get_by_id_isolated :
      (raw : Bytes) (w : World) (r : TransactionResponse)
      → (get_by_id env (some identity) raw w).0.body ≡ transaction r
      → r.provider_id ≡ identity.provider_id
  unfolding get_by_id
  get_by_id_isolated raw w r h = parsed_isolated (parse_id env.uuid_parse raw) w r h
