-- ===== src/Http/Errors.antt =====
-- internal/platform/httpserver/errors.go: the status and the body that an error is answered with. The
-- messages are left out; the lower-case text of a code is the code.
use jungle_gaming.Prelude.{ℕ, if◌then◌else◌, Option, none, some}
use jungle_gaming.Shared.{
  Error, ErrorKind, Code, domain, caused, external, wrapped, validation, conflict, rejection,
  invariant, errors_is, not_found,
}

-- An error of the routes: the two of the package auth, or another.
pub data RouteError : Type 0 where
  unauthenticated forbidden : RouteError
  failed_with : Error → RouteError

pub data ErrorName : Type 0 where
  unauthorized access_denied missing internal_error service_unavailable : ErrorName
  business_rejection : ErrorName
  named : Code → ErrorName

pub record ErrorBody : Type 0 where
  pub name : ErrorName
  pub failure_code : Option Code

pub record ErrorAnswer : Type 0 where
  pub status : ℕ
  pub body : ErrorBody

abbrev pub answer_of : ℕ → ErrorName → Option Code → ErrorAnswer
answer_of status name code = record {
  status = status;
  body = record { name = name; failure_code = code };
}

-- The switch over the kinds.
abbrev pub map_kind : ErrorKind → Code → ErrorAnswer
map_kind validation code = answer_of 400 (named code) none
map_kind conflict code = answer_of 409 (named code) none
map_kind rejection code = answer_of 422 business_rejection (some code)
map_kind invariant code = answer_of 500 internal_error none

-- errors.As: the first error of the domain down the chain.
unfoldable pub map_domain : Error → ErrorAnswer
map_domain (domain kind code) = map_kind kind code
map_domain (caused kind code cause) = map_kind kind code
map_domain (external n) = answer_of 503 service_unavailable none
map_domain (wrapped e) = map_domain e

-- mapError
unfoldable pub map_error : RouteError → ErrorAnswer
unfolding map_domain
map_error unauthenticated = answer_of 401 unauthorized none
map_error forbidden = answer_of 403 access_denied none
map_error (failed_with e) =
    if errors_is e not_found then answer_of 404 missing none else map_domain e
