-- ===== src/Wagering/Status.antt =====
-- internal/domain/wagering/status.go: the states and the table of the allowed transitions.
use jungle_gaming.Prelude.{Bool, true, false, ◌||◌, if◌then◌else◌, List, [], ◌∷◌, ◌≡◌, refl}
use jungle_gaming.Prelude.Bytes.{Bytes, codes, bytes_eq}
use jungle_gaming.Shared.{
  Error, Result, ok, err, domain, validation, invariant, unknown_status, illegal_transition,
}

pub data Status : Type 0 where
  pending pending_reference processed rejected failed : Status

abbrev pub err_unknown_status : Error
err_unknown_status = domain validation unknown_status

abbrev pub err_illegal_transition : Error
err_illegal_transition = domain invariant illegal_transition

-- (Status).String
abbrev pub status_text : Status → Bytes
status_text pending = codes "PENDING"
status_text pending_reference = codes "PENDING_REFERENCE"
status_text processed = codes "PROCESSED"
status_text rejected = codes "REJECTED"
status_text failed = codes "FAILED"

unfoldable pub parse_status : Bytes → Result Status
parse_status raw =
    if bytes_eq raw (codes "PENDING")
    then ok pending
    else if bytes_eq raw (codes "PENDING_REFERENCE")
    then ok pending_reference
    else if bytes_eq raw (codes "PROCESSED")
    then ok processed
    else if bytes_eq raw (codes "REJECTED")
    then ok rejected
    else if bytes_eq raw (codes "FAILED")
    then ok failed
    else err err_unknown_status

abbrev pub status_eq : Status → Status → Bool
status_eq pending pending = true
status_eq pending_reference pending_reference = true
status_eq processed processed = true
status_eq rejected rejected = true
status_eq failed failed = true
status_eq _ _ = false

-- The map allowedTransitions; a state that is not a key has no successor.
abbrev pub allowed_transitions : Status → List Status
allowed_transitions pending = pending_reference ∷ processed ∷ rejected ∷ failed ∷ []
allowed_transitions pending_reference = processed ∷ rejected ∷ failed ∷ []
allowed_transitions _ = []

abbrev pub is_terminal : Status → Bool
is_terminal s = status_eq s processed || status_eq s rejected || status_eq s failed

-- The loop of CanTransitionTo.
abbrev pub holds : Status → List Status → Bool
holds target [] = false
holds target (s ∷ rest) = if status_eq s target then true else holds target rest

abbrev pub can_transition_to : Status → Status → Bool
can_transition_to s target = holds target (allowed_transitions s)

pub parse_status-status_text : (s : Status) → parse_status (status_text s) ≡ ok s
unfolding parse_status bytes_eq
parse_status-status_text pending = refl
parse_status-status_text pending_reference = refl
parse_status-status_text processed = refl
parse_status-status_text rejected = refl
parse_status-status_text failed = refl
