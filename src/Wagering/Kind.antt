-- ===== src/Wagering/Kind.antt =====
-- internal/domain/wagering/kind.go: the kinds of operation and what each of them admits.
use jungle_gaming.Prelude.{Bool, true, false, ◌&&◌, not, if◌then◌else◌, ◌≡◌, refl, arith}
use jungle_gaming.Prelude.Bytes.{Bytes, codes, bytes_eq, is_empty}
use jungle_gaming.Shared.{
  Error, Result, ok, err, domain, validation, rejection, unknown_kind, opening_not_allowed,
  invalid_amount, reference_required, reference_not_allowed, ◌>>◌, fail_if,
}
use jungle_gaming.Money.{Money, validate, is_zero, is_positive}

pub data Kind : Type 0 where
  opening bet win loss refund rollback : Kind

abbrev pub err_unknown_kind : Error
err_unknown_kind = domain validation unknown_kind

abbrev pub err_opening_not_allowed : Error
err_opening_not_allowed = domain rejection opening_not_allowed

abbrev pub err_invalid_amount_for_kind : Error
err_invalid_amount_for_kind = domain validation invalid_amount

abbrev pub err_reference_required : Error
err_reference_required = domain validation reference_required

abbrev pub err_reference_not_allowed : Error
err_reference_not_allowed = domain validation reference_not_allowed

-- (Kind).String
abbrev pub kind_text : Kind → Bytes
kind_text opening = codes "OPENING"
kind_text bet = codes "BET"
kind_text win = codes "WIN"
kind_text loss = codes "LOSS"
kind_text refund = codes "REFUND"
kind_text rollback = codes "ROLLBACK"

unfoldable pub parse_external_kind : Bytes → Result Kind
parse_external_kind raw =
    if bytes_eq raw (codes "BET")
    then ok bet
    else if bytes_eq raw (codes "WIN")
    then ok win
    else if bytes_eq raw (codes "LOSS")
    then ok loss
    else if bytes_eq raw (codes "REFUND")
    then ok refund
    else if bytes_eq raw (codes "ROLLBACK")
    then ok rollback
    else if bytes_eq raw (codes "OPENING")
    then err err_opening_not_allowed
    else err err_unknown_kind

unfoldable pub parse_kind : Bytes → Result Kind
unfolding parse_external_kind
parse_kind raw = if bytes_eq raw (codes "OPENING") then ok opening else parse_external_kind raw

abbrev pub is_reversal : Kind → Bool
is_reversal refund = true
is_reversal rollback = true
is_reversal _ = false

abbrev pub is_loss : Kind → Bool
is_loss loss = true
is_loss _ = false

abbrev pub is_win : Kind → Bool
is_win win = true
is_win _ = false

abbrev pub is_bet : Kind → Bool
is_bet bet = true
is_bet _ = false

abbrev pub is_opening : Kind → Bool
is_opening opening = true
is_opening _ = false

-- (Kind).MovesBalance
abbrev pub moves_balance : Kind → Bool
moves_balance k = not (is_loss k)

unfoldable pub validate_amount : Kind → Money → Result (Unit {0})
unfolding validate
validate_amount k amount = do
  validate amount
  if is_loss k
      then fail_if (not (is_zero amount)) err_invalid_amount_for_kind
      else fail_if (not (is_positive amount)) err_invalid_amount_for_kind

unfoldable pub validate_reference : Kind → Bytes → Result (Unit {0})
validate_reference k reference =
    if is_reversal k && is_empty reference
    then err err_reference_required
    else if not (is_reversal k) && not (is_win k) && not (is_empty reference)
    then err err_reference_not_allowed
    else ok tt

-- A kind is read back from its text, and the text of an opening is refused from outside.
pub parse_kind-kind_text : (k : Kind) → parse_kind (kind_text k) ≡ ok k
unfolding parse_kind bytes_eq
parse_kind-kind_text opening = refl
parse_kind-kind_text bet = refl
parse_kind-kind_text win = refl
parse_kind-kind_text loss = refl
parse_kind-kind_text refund = refl
parse_kind-kind_text rollback = refl

-- From outside every kind is read from its text but the opening, which is refused.
pub parse_external_kind_lem :
    (k : Kind)
    → parse_external_kind (kind_text k)
      ≡ (if is_opening k then err err_opening_not_allowed else ok k)
unfolding parse_external_kind bytes_eq
parse_external_kind_lem opening = refl
parse_external_kind_lem bet = refl
parse_external_kind_lem win = refl
parse_external_kind_lem loss = refl
parse_external_kind_lem refund = refl
parse_external_kind_lem rollback = refl

pub validate_amount-currency :
    (k : Kind) (m : Money) {u : Unit {0}} → validate_amount k m ≡ ok u → is_empty m.currency ≡ false
unfolding validate_amount
validate_amount-currency k m e = ground arith
