-- ===== src/Shared/Errors.antt =====
-- internal/domain/shared/errors.go, internal/application/port/errors.go and the codes that the
-- packages declare. The message texts are left out: no code reads them.
use jungle_gaming.Prelude.{Bool, true, false, if◌then◌else◌, ℕ, ◌≡◌, refl}

-- shared.Kind
pub data ErrorKind : Type 0 where
  validation rejection conflict invariant : ErrorKind

-- The stable codes, one constructor for each string that a package passes to `newError`.
-- `money.ErrInvalidAmount` and `wagering.ErrInvalidAmountForKind` share a code in the source too.
pub data Code : Type 0 where
  invalid_id invalid_amount invalid_currency currency_mismatch amount_overflow : Code
  uninitialized_money insufficient_funds non_positive_movement negative_initial_balance : Code
  invalid_wallet_state invalid_ledger_direction inconsistent_ledger_entry missing_field : Code
  invalid_transaction_state unknown_kind opening_not_allowed reference_required : Code
  reference_not_allowed unknown_status illegal_transition invalid_input : Code
  idempotency_key_conflict operation_already_applied wallet_already_exists not_found : Code
  persistence_conflict invalid_envelope unauthorized_provider inbox_payload_mismatch : Code
  invalid_json missing_idempotency_key invalid_transaction_id : Code

pub Code-discrete : Discrete Code
Code-discrete = hlevel

-- A Go error: a `*shared.Error` without or with a cause, an error of a library or of the runtime,
-- and `fmt.Errorf("...: %w", err)` around one.
pub data Error : Type 0 where
  domain : ErrorKind → Code → Error
  caused : ErrorKind → Code → Error → Error
  external : ℕ → Error
  wrapped : Error → Error

-- `e.Code == other.Code`
unfoldable pub code_eq : Code → Code → Bool
unfolding Code-discrete
code_eq a b = elim (Code-discrete a b) [ yes _ ↦ true | no _ ↦ false ]

-- errors.Is against one of the declared domain errors, down the chain of causes.
unfoldable pub errors_is : Error → Code → Bool
unfolding code_eq
errors_is (domain k c) target = code_eq c target
errors_is (caused k c e) target =
    let rest = errors_is e target in if code_eq c target then true else rest
errors_is (external n) target = false
errors_is (wrapped e) target = errors_is e target

-- (*Error).WithCause
pub with_cause : Error → Error → Error
with_cause (domain k c) e = caused k c e
with_cause (caused k c e') e = caused k c e
with_cause other e = other

pub data Result {ℓ} (A : Type ℓ) : Type ℓ where
  ok : A → Result A
  err : Error → Result A

module _ {ℓ κ} {A : Type ℓ} {B : Type κ} where
  infixl 5 ◌>>=◌ ◌>>◌
  abbrev pub ◌>>=◌ : Result A → (A → Result B) → Result B
  ◌>>=◌ (ok value) next = next value
  ◌>>=◌ (err cause) next = err cause

  abbrev pub ◌>>◌ : Result A → Result B → Result B
  ◌>>◌ first second = first >>= λ value. second

  -- A call that succeeded, and what its block went on to.
  pub >>=-eq-ok :
      (call : Result A) (next : A → Result B) {out : B}
      → (call >>= next) ≡ ok out
      → (value : A) × (call ≡ ok value) × (next value ≡ ok out)
  >>=-eq-ok (ok value) next done = (value, refl, done)
  >>=-eq-ok (err cause) next done = cc

-- `if test { return err }`
abbrev pub fail_if : Bool → Error → Result (Unit {0})
fail_if true e = err e
fail_if false e = ok tt

pub code_eq_refl : (c : Code) → code_eq c c ≡ true
unfolding code_eq
code_eq_refl c =
    elim (Code-discrete c c) as (λ d. (elim d [ yes _ ↦ true | no _ ↦ false ]) ≡ true) [
      | yes _ ↦ refl
      | no h ↦ absurd (h refl)
    ]
