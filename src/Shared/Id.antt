-- ===== src/Shared/Id.antt =====
-- internal/domain/shared/id.go. A UUID is its 128-bit number, and the nil UUID is 0. The text form
-- is that of the package github.com/google/uuid: its parser is an argument of `parse_id`.
use jungle_gaming.Prelude.{ℕ, suc, ◌+◌, ◌-◌, Bool, ◌==◌, if◌then◌else◌}
use jungle_gaming.Prelude.Int.{ℤ, pos, negsuc}
use jungle_gaming.Prelude.Bytes.{Bytes, is_empty}
use jungle_gaming.Shared.Errors.{
  Error, Result, ok, err, domain, caused, validation, invalid_id, fail_if,
}

abbrev pub Uuid : Type 0
Uuid = ℕ

abbrev pub nil_uuid : Uuid
nil_uuid = 0

abbrev pub err_invalid_id : Error
err_invalid_id = domain validation invalid_id

-- (ID).IsZero
abbrev pub id_is_zero : Uuid → Bool
id_is_zero id = id == nil_uuid

-- (ID).Validate
unfoldable pub id_validate : Uuid → Result (Unit {0})
id_validate id = fail_if (id_is_zero id) err_invalid_id

-- (ID).Equal
abbrev pub id_equal : Uuid → Uuid → Bool
id_equal a b = a == b

-- uuid.Parse: the UUID of a text, or the parser's error.
abbrev pub UuidParser : Type 0
UuidParser = Bytes → Result Uuid

accept_id : Result Uuid → Result Uuid
accept_id (err e) = err (caused validation invalid_id e)
accept_id (ok u) = if id_is_zero u then err err_invalid_id else ok u

-- shared.ParseID
unfoldable pub parse_id : UuidParser → Bytes → Result Uuid
unfolding accept_id
parse_id uuid_parse raw = if is_empty raw then err err_invalid_id else accept_id (uuid_parse raw)

-- An instant, in nanoseconds since the zero value of `time.Time`. UTC() keeps the instant.
abbrev pub Time : Type 0
Time = ℕ

abbrev pub time_is_zero : Time → Bool
time_is_zero t = t == 0

-- Time.Add
abbrev pub add_duration : Time → ℤ → Time
add_duration t (pos d) = t + d
add_duration t (negsuc d) = t - suc d
