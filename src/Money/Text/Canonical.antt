-- ===== src/Money/Text/Canonical.antt =====
-- The texts that parseMinorUnits of money.go accepts.
use mathlib.Core.Path.{ap₂}
use jungle_gaming.Prelude.{
  ℕ, zero, suc, ◌+◌, ◌-◌, ◌*◌, ◌/◌, ◌%◌, ◌≤◌, ◌≡◌, sym, ap, ◌∙◌, arith, Bool, true, false, [], ◌∷◌,
  ◌++◌, some, Option-cases, Bool-cases, inl, inr, ◌==◌, All,
}
use jungle_gaming.Prelude.Bytes.{Bytes, is_empty}
use jungle_gaming.Prelude.Int.{ℤ, pos, negsuc, ◌≤ℤ◌}
use jungle_gaming.Prelude.Int64.{neg64-pos}
use jungle_gaming.Shared.{ok, ◌>>=◌}
use jungle_gaming.Money.Text.{
  cut_at, prepend, parse_parts, parse_minor_units, format_uint, format, signed, has_leading_zero,
  require_digits, digits_to_minor_units,
}
use jungle_gaming.Money.Text.Decimal.{IsDigit, value, format_uint_of_digits}
use jungle_gaming.Money.Text.Value.{
  max_units, bounded, digits_to_minor_units_lem, require_digits_sound,
}
use jungle_gaming.Money.Text.RoundTrip.{render, format-pos, format-negsuc}

-- From -92.233.720.368.547.758,07 to 92.233.720.368.547.758,07.
abbrev pub IsParsed : ℤ → Type 0
IsParsed v = (negsuc 9223372036854775806 ≤ℤ v) × (v ≤ℤ pos 9223372036854775807)

cut_at_sound :
    (s : Bytes) (before after : Bytes)
    → cut_at b'.' s ≡ some (before, after)
    → s ≡ before ++ b'.' ∷ after
unfolding cut_at prepend
cut_at_sound [] before after h = cc
cut_at_sound (c ∷ s) before after h = elim (Option-cases (cut_at b'.' s)) [
  | inl no_point ↦ ground arith
  | inr (p, e) ↦ ground (arith, cut_at_sound s p.0 p.1 e)
]

-- The text between sign and end is that of the number that it is read as.
render_of_digits :
    (s : Bytes) (a b : ℕ)
    → is_empty s ≡ false
    → has_leading_zero s ≡ false
    → All IsDigit s
    → IsDigit a
    → IsDigit b
    → render (value 0 s * 100 + ((a - b'0') * 10 + (b - b'0'))) ≡ s ++ b'.' ∷ a ∷ b ∷ []
render_of_digits s a b e z v da db =
    let n = value 0 s * 100 + ((a - b'0') * 10 + (b - b'0')) in
    let whole : n / 100 ≡ value 0 s = omega arith in
    let tens : b'0' + n % 100 / 10 ≡ a = omega arith in
    let ones : b'0' + n % 100 % 10 ≡ b = omega arith in
    ap₂ (λ (q : ℕ) (t : Bytes). format_uint q ++ b'.' ∷ t) whole
      (ap₂ (λ (x y : ℕ). x ∷ y ∷ []) tens ones)
    ∙ ap (λ (t : Bytes). t ++ b'.' ∷ a ∷ b ∷ []) (format_uint_of_digits s e z v)

-- An accepted pair of parts is the canonical text of a number that fits.
abbrev IsCanonical : Bool → Bytes → ℤ → Type 0
IsCanonical negative s v =
    (n : ℕ) × (n ≤ max_units) × (s ≡ render n) × (signed negative (pos n) ≡ ok v)

-- What the checks before the conversion have let through.
record IsChecked (s t : Bytes) : Type 0 where
  nonempty : is_empty s ≡ false
  no_leading_zero : has_leading_zero s ≡ false
  digits_before : require_digits s ≡ ok tt
  digits_after : require_digits t ≡ ok tt

IsChecked-parts :
    (negative : Bool) (s : Bytes) (a b : ℕ) (v : ℤ)
    → parse_parts negative (some (s, a ∷ b ∷ [])) ≡ ok v
    → IsChecked s (a ∷ b ∷ [])
unfolding parse_parts
IsChecked-parts negative s a b v h = ground arith

converted_parts :
    (negative : Bool) (s : Bytes) (a b : ℕ) (v : ℤ)
    → parse_parts negative (some (s, a ∷ b ∷ [])) ≡ ok v
    → (digits_to_minor_units s (a ∷ b ∷ []) >>= signed negative) ≡ ok v
unfolding parse_parts
converted_parts negative s a b v h = ground arith

in_bound :
    (negative : Bool) (n : ℕ) (v : ℤ)
    → (bounded n >>= signed negative) ≡ ok v
    → (n ≤ max_units) × (signed negative (pos n) ≡ ok v)
in_bound negative n v h = ground arith

accepted_parts :
    (negative : Bool) (s t : Bytes) (v : ℤ)
    → parse_parts negative (some (s, t)) ≡ ok v
    → IsCanonical negative (s ++ b'.' ∷ t) v
accepted_parts negative s [] v h = unfold parse_parts in cc
accepted_parts negative s (a ∷ []) v h = unfold parse_parts in cc
accepted_parts negative s (a ∷ b ∷ c ∷ t) v h = absurd (unfold parse_parts in ground arith)
accepted_parts negative s (a ∷ b ∷ []) v h =
    let g = IsChecked-parts negative s a b v h in
    let before = require_digits_sound s g.digits_before in
    let (da, (db, _)) = require_digits_sound (a ∷ b ∷ []) g.digits_after in
    let n = value 0 s * 100 + ((a - b'0') * 10 + (b - b'0')) in
    let (fits, signs) =
      in_bound negative n v (
        rw (digits_to_minor_units_lem s a b before da db) at
          (converted_parts negative s a b v h)) in
    (n, fits, sym (render_of_digits s a b g.nonempty g.no_leading_zero before da db), signs)

accepted_body :
    (negative : Bool) (s : Bytes) (v : ℤ)
    → parse_parts negative (cut_at b'.' s) ≡ ok v
    → IsCanonical negative s v
accepted_body negative s v h = elim (Option-cases (cut_at b'.' s)) [
  | inl e ↦ unfold parse_parts in cc (rw e at h)
  | inr (p, e) ↦ rw (cut_at_sound s p.0 p.1 e) (accepted_parts negative p.0 p.1 v (rw e at h))
]

signed-format :
    (n : ℕ) (v : ℤ) → n ≤ max_units → signed true (pos n) ≡ ok v → format v ≡ b'-' ∷ render n
unfolding signed
signed-format zero v k h = cc
signed-format (suc n) v k h =
    let e : v ≡ negsuc n = ground (arith, neg64-pos n) in rw e (format-negsuc n (omega arith))

unsigned_format : (n : ℕ) (v : ℤ) → signed false (pos n) ≡ ok v → format v ≡ render n
unfolding signed
unsigned_format n v h = let e : pos n ≡ v = ground arith in rw (← e) (format-pos n)

-- A text that is accepted is the one that String writes for the amount that was read.
pub format-parse_minor_units : (s : Bytes) (v : ℤ) → parse_minor_units s ≡ ok v → format v ≡ s
unfolding parse_minor_units
format-parse_minor_units [] v h = cc
format-parse_minor_units (c ∷ s) v h = elim (Bool-cases (c == b'-')) [
  | inl minus ↦
      let (n, fits, text, signs) = accepted_body true s v (ground arith) in
      let sign : c ≡ b'-' = ground arith in rw (sign, text) (signed-format n v fits signs)
  | inr digit ↦
      let (n, fits, text, signs) = accepted_body false (c ∷ s) v (ground arith) in
      rw text (unsigned_format n v signs)
]

signed_bounds :
    (negative : Bool) (n : ℕ) (v : ℤ) → n ≤ max_units → signed negative (pos n) ≡ ok v → IsParsed v
unfolding signed
signed_bounds false n v k h =
    let e : pos n ≡ v = ground arith in rw (← e) (omega arith, omega arith)
signed_bounds true zero v k h = cc
signed_bounds true (suc n) v k h =
    let e : v ≡ negsuc n = ground (arith, neg64-pos n) in rw e (omega arith, omega arith)

-- A text that is accepted stands for an amount of the documented range.
pub parse_minor_units-IsParsed : (s : Bytes) (v : ℤ) → parse_minor_units s ≡ ok v → IsParsed v
unfolding parse_minor_units
parse_minor_units-IsParsed [] v h = cc
parse_minor_units-IsParsed (c ∷ s) v h = elim (Bool-cases (c == b'-')) [
  | inl minus ↦
      let (n, fits, _, signs) = accepted_body true s v (ground arith) in
      signed_bounds true n v fits signs
  | inr digit ↦
      let (n, fits, _, signs) = accepted_body false (c ∷ s) v (ground arith) in
      signed_bounds false n v fits signs
]
