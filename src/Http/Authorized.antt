-- ===== src/Http/Authorized.antt =====
-- Who may have an operation applied over internal/platform/httpserver.
use jungle_gaming.Prelude.{
  ◌≡◌, refl, ◌∙◌, arith, true, not, ◌||◌, Bool-cases, ◌⊎◌, inl, inr, Option, none, some,
}
use jungle_gaming.Prelude.Bytes.{Bytes, bytes_eq, eq_of_bytes_eq, is_empty, codes}
use jungle_gaming.Shared.{Result, ok, err}
use jungle_gaming.UseCase.Monad.{Env, World}
use jungle_gaming.Http.Transactions.{
  Identity, Role, provider_role, internal_role, other_role, ProcessRequest, create, create_decoded,
}
use jungle_gaming.Http.Auth.{
  Claims, Tokens, role_of, accept_claims, accept_parsed, validate_token, bearer_token, identify,
  is_provider, provider_route, create_route,
}

-- The token of the header is one of the provider that the request names.
pub record IsAuthorized (tokens : Tokens) (header : Bytes) (request : ProcessRequest) : Type 0 where
  pub token : Bytes
  pub claims : Claims
  pub carried : bearer_token tokens header ≡ some token
  pub accepted : tokens.parse_claims token ≡ ok claims
  pub role : claims.wallet_role ≡ codes "provider"
  pub same_provider : request.provider_id ≡ claims.provider_id

-- The role of an identity is the role of its claims.
accepted_role :
    (claims : Claims) (r : Role) (identity : Identity)
    → accept_claims claims r ≡ some identity
    → is_provider identity.role ≡ true
    → (r ≡ provider_role) × (identity.provider_id ≡ claims.provider_id)
unfolding accept_claims
accepted_role claims provider_role identity h p = ground arith
accepted_role claims internal_role identity h p = ground arith
accepted_role claims other_role identity h p = cc

provider_text : (raw : Bytes) → role_of raw ≡ provider_role → raw ≡ codes "provider"
unfolding role_of
provider_text raw h = elim (Bool-cases (bytes_eq raw (codes "provider"))) [
  | inl t ↦ eq_of_bytes_eq raw (codes "provider") t
  | inr f ↦ ground arith
]

parsed_claims :
    (r : Result Claims) (identity : Identity)
    → accept_parsed r ≡ some identity
    → is_provider identity.role ≡ true
    → (claims : Claims) × (r ≡ ok claims)
      × (claims.wallet_role ≡ codes "provider")
      × (identity.provider_id ≡ claims.provider_id)
unfolding accept_parsed
parsed_claims (ok claims) identity h p =
    let (role, same) = accepted_role claims (role_of claims.wallet_role) identity h p in
    (claims, refl, provider_text claims.wallet_role role, same)
parsed_claims (err e) identity h p = cc

validated :
    (tokens : Tokens) (raw : Bytes) (identity : Identity)
    → validate_token tokens raw ≡ some identity
    → accept_parsed (tokens.parse_claims raw) ≡ some identity
unfolding validate_token
validated tokens raw identity h = elim (Bool-cases (is_empty (tokens.trim_space raw))) [
  | inl t ↦ let x = rw t at h in cc
  | inr f ↦ rw f at h
]

module _ (env : Env) (tokens : Tokens) (header key : Bytes) (request : ProcessRequest)
    (w : World) where
  -- Create of an identity.
  created :
      (identity : Identity)
      → ((create env (some identity) key (ok request) w).1 ≡ w)
        ⊎ (request.provider_id ≡ identity.provider_id)
  unfolding create create_decoded
  created identity = elim (Bool-cases (is_empty key)) [
    | inl t ↦ inl (rw t refl)
    | inr f ↦ elim (Bool-cases (bytes_eq request.provider_id identity.provider_id)) [
      | inl y ↦ inr (eq_of_bytes_eq request.provider_id identity.provider_id y)
      | inr n ↦ inl (rw (f, n) refl)
    ]
  ]

  authorized :
      (token : Option Bytes) (o : Option Identity)
      → bearer_token tokens header ≡ token
      → identify tokens token ≡ o
      → ((provider_route env o key (ok request) w).1 ≡ w) ⊎ IsAuthorized tokens header request
  unfolding provider_route identify
  authorized token none b i = inl refl
  authorized none (some identity) b i = cc
  authorized (some token) (some identity) b i =
      elim (Bool-cases (not (is_provider identity.role) || is_empty identity.provider_id)) [
        | inl t ↦ inl (rw t refl)
        | inr f ↦ elim (created identity) [
          | inl same ↦ inl (rw f same)
          | inr provider ↦
              let (claims, parsed, role, same) =
                parsed_claims (tokens.parse_claims token) identity
                  (validated tokens token identity i) (ground arith) in
              inr (record {
                token = token;
                claims = claims;
                carried = b;
                accepted = parsed;
                role = role;
                same_provider = provider ∙ same;
              })
        ]
      ]

  -- A decoded request to apply an operation has an effect only for the provider that it names: either it changes
  -- nothing, not even by a call of the database, or its header carries a token whose accepted claims have the role
  -- of a provider and the provider's identifier of the request.
  pub create_route-IsAuthorized :
      ((create_route env tokens header key (ok request) w).1 ≡ w)
      ⊎ IsAuthorized tokens header request
  unfolding create_route
  create_route-IsAuthorized = authorized (bearer_token tokens header) _ refl refl
