-- ===== src/Http/Answers.antt =====
-- mapError of internal/platform/httpserver/errors.go against isTransientMessageError of
-- usecase/handle_message.go.
use jungle_gaming.Prelude.{◌≡◌, refl, ◌↔◌, arith, true, false, Bool-cases, inl, inr}
use jungle_gaming.Shared.{
  Error, ErrorKind, Code, domain, caused, external, wrapped, validation, conflict, rejection,
  invariant, errors_is, not_found,
}
use jungle_gaming.UseCase.Inbox.{is_transient}
use jungle_gaming.Http.Errors.{failed_with, map_kind, map_domain, map_error}

known_kind : (kind : ErrorKind) (code : Code) → (map_kind kind code).status ≡ 503 → false ≡ true
known_kind validation code h = absurd (omega arith)
known_kind conflict code h = absurd (omega arith)
known_kind rejection code h = absurd (omega arith)
known_kind invariant code h = absurd (omega arith)

domain_answer : (e : Error) → ((map_domain e).status ≡ 503) ↔ (is_transient e ≡ true)
unfolding map_domain is_transient
domain_answer (domain kind code) = (known_kind kind code, λ h. cc)
domain_answer (caused kind code e) = (known_kind kind code, λ h. cc)
domain_answer (external n) = (λ h. refl, λ h. refl)
domain_answer (wrapped e) = domain_answer e

-- An error that is one of the domain's is not transient.
permanent : (e : Error) (code : Code) → errors_is e code ≡ true → is_transient e ≡ false
unfolding errors_is is_transient
permanent (domain kind c) code h = refl
permanent (caused kind c e) code h = refl
permanent (external n) code h = cc
permanent (wrapped e) code h = permanent e code h

-- The routes answer an error of a use case with 503 exactly if the consumer of the queue takes it for
-- transient: the two channels agree on what is worth another try.
pub map_error-is_transient :
    (e : Error) → ((map_error (failed_with e)).status ≡ 503) ↔ (is_transient e ≡ true)
unfolding map_error
map_error-is_transient e = elim (Bool-cases (errors_is e not_found)) [
  | inl t ↦
      let p = permanent e not_found t in rw t (λ (h : 404 ≡ 503). absurd (omega arith), λ h. cc)
  | inr f ↦ rw f (domain_answer e)
]
