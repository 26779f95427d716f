-- ===== src/Http/Auth.antt =====
-- internal/platform/auth: jwks.go from the claims of a token on, and middleware.go; with the chain that
-- internal/platform/httpserver/router.go puts before Create. The check of a token's signature, issuer,
-- audience and expiry is a parameter, and so is strings.TrimSpace. An answer of writeAuthError has the status and the
-- name of the same error of mapError.
use jungle_gaming.Prelude.{
  Bool, true, false, ◌==◌, ◌||◌, not, if◌then◌else◌, Option, none, some, [], ◌∷◌,
}
use jungle_gaming.Prelude.Bytes.{Bytes, codes, bytes_eq, is_empty}
use jungle_gaming.Shared.{Result, ok, err}
use jungle_gaming.UseCase.Monad.{Env, World}
use jungle_gaming.Http.Errors.{unauthenticated, forbidden}
use jungle_gaming.Http.Transactions.{
  Identity, Role, provider_role, internal_role, other_role, ProcessRequest, Response, refuse,
  create,
}

-- oidcClaims
pub record Claims : Type 0 where
  pub subject : Bytes
  pub provider_id : Bytes
  pub wallet_role : Bytes
  pub client_id : Bytes

-- jwt.ParseWithClaims with its options, and strings.TrimSpace.
pub record Tokens : Type 0 where
  pub parse_claims : Bytes → Result Claims
  pub trim_space : Bytes → Bytes

-- Role(claims.WalletRole)
unfoldable pub role_of : Bytes → Role
role_of raw =
    if bytes_eq raw (codes "provider")
    then provider_role
    else if bytes_eq raw (codes "internal")
    then internal_role
    else other_role

abbrev pub identity_of : Claims → Role → Identity
identity_of claims role = record {
  subject = if is_empty claims.subject then claims.client_id else claims.subject;
  role = role;
  provider_id = claims.provider_id;
  client_id = claims.client_id;
}

-- The switch over the roles; none is ErrUnauthenticated.
unfoldable pub accept_claims : Claims → Role → Option Identity
accept_claims claims provider_role =
    if is_empty claims.provider_id then none else some (identity_of claims provider_role)
accept_claims claims internal_role = some (identity_of claims internal_role)
accept_claims claims other_role = none

unfoldable pub accept_parsed : Result Claims → Option Identity
unfolding accept_claims role_of
accept_parsed (ok claims) = accept_claims claims (role_of claims.wallet_role)
accept_parsed (err e) = none

-- Validate
unfoldable pub validate_token : Tokens → Bytes → Option Identity
unfolding accept_parsed
validate_token tokens raw =
    if is_empty (tokens.trim_space raw) then none else accept_parsed (tokens.parse_claims raw)

-- strings.HasPrefix and TrimPrefix
abbrev pub after_prefix : Bytes → Bytes → Option Bytes
after_prefix [] s = some s
after_prefix (c ∷ prefix) [] = none
after_prefix (c ∷ prefix) (d ∷ s) =
    let rest = after_prefix prefix s in if c == d then rest else none

abbrev pub set_token : Bytes → Option Bytes
set_token token = if is_empty token then none else some token

abbrev trimmed : Tokens → Option Bytes → Option Bytes
trimmed tokens none = none
trimmed tokens (some rest) = set_token (tokens.trim_space rest)

-- bearerToken
unfoldable pub bearer_token : Tokens → Bytes → Option Bytes
bearer_token tokens header = trimmed tokens (after_prefix (codes "Bearer ") header)

-- Middleware
unfoldable pub identify : Tokens → Option Bytes → Option Identity
unfolding validate_token
identify tokens none = none
identify tokens (some token) = validate_token tokens token

abbrev pub is_provider : Role → Bool
is_provider provider_role = true
is_provider internal_role = false
is_provider other_role = false

module _ (env : Env) where
  -- RequireProvider, then Create.
  unfoldable pub provider_route :
      Option Identity → Bytes → Result ProcessRequest → World → Response × World
  provider_route none key body w = (refuse unauthenticated, w)
  provider_route (some identity) key body w =
      if not (is_provider identity.role) || is_empty identity.provider_id
      then (refuse forbidden, w)
      else create env (some identity) key body w

  -- POST /wagering/transactions
  unfoldable pub create_route :
      Tokens → Bytes → Bytes → Result ProcessRequest → World → Response × World
  unfolding provider_route
  create_route tokens header key body w =
      provider_route (identify tokens (bearer_token tokens header)) key body w
