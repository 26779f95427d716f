-- ===== src/Money/Text/Decimal.antt =====
-- Decimal digits: the number that a text spells, and the digits of a number.
use Prim.Native.Nat.{◌≤◌}
use mathlib.Core.WellFounded
use mathlib.Core.Bool.{false≢true}
use mathlib.Core.Path.{ap₂, subst}
use native.Mathlib.Decide.{dec_lt}
use jungle_gaming.Prelude.{
  ℕ, zero, suc, ◌+◌, ◌-◌, ◌*◌, ◌/◌, ◌%◌, ◌<◌, ◌≡◌, ◌≢◌, refl, ap, arith, ltb, [], ◌∷◌, ◌++◌,
  append_assoc, append-nil, sym, ◌∙◌, All, All-append, Bool-cases, false, inl, inr,
}
use jungle_gaming.Prelude.Bytes.{Bytes, is_empty}
use jungle_gaming.Prelude.Order.{lt_wf}
use jungle_gaming.Money.Text.{digits, format_uint, has_leading_zero}

abbrev head_or_zero : Bytes → ℕ
head_or_zero [] = b'0'
head_or_zero (c ∷ s) = c

abbrev pub IsDigit : ℕ → Type 0
IsDigit code = (b'0' ≤ code) × (code ≤ b'9')

-- The number that digits spell behind `n`.
abbrev pub value : ℕ → Bytes → ℕ
value total [] = total
value total (code ∷ rest) = value (total * 10 + (code - b'0')) rest

-- Reading on never makes the number smaller.
pub le-value : (text : Bytes) (total : ℕ) → total ≤ value total text
le-value [] total = omega arith
le-value (code ∷ rest) total =
    let further = le-value rest (total * 10 + (code - b'0')) in omega arith

pub value-append : (s t : Bytes) (n : ℕ) → value n (s ++ t) ≡ value (value n s) t
value-append [] t n = refl
value-append (c ∷ s) t n = value-append s t (n * 10 + (c - b'0'))

-- Any two amounts of fuel that suffice give the same digits.
digits-fuel : (f g n : ℕ) → n < f → n < g → digits f n ≡ digits g n
unfolding digits
digits-fuel zero g n h k = elim h [ ]
digits-fuel (suc f) zero n h k = elim k [ ]
digits-fuel (suc f) (suc g) n h k = elim (Bool-cases (ltb n 10)) [
  | inl small ↦ rw small refl
  | inr large ↦
      rw large (
        ap (λ t. t ++ (b'0' + n % 10) ∷ [])
          (digits-fuel f g (n / 10) (ground arith) (ground arith)))
]

-- A number of more than one digit ends in its last digit, behind the digits of a tenth.
pub format_uint_step :
    (n : ℕ) → 9 < n → format_uint n ≡ format_uint (n / 10) ++ (b'0' + n % 10) ∷ []
unfolding format_uint
format_uint_step n h =
    let large : ltb n 10 ≡ false = ground arith in
    rw large (
      ap (λ t. t ++ (b'0' + n % 10) ∷ [])
        (digits-fuel n (suc (n / 10)) (n / 10) (omega arith) (omega arith)))

pub format_uint-digit : (n : ℕ) → n < 10 → format_uint n ≡ (b'0' + n) ∷ []
unfolding format_uint
format_uint-digit n h = ground arith

pub format_uint-snoc :
    (n d : ℕ) → 0 < n → d < 10 → format_uint (n * 10 + d) ≡ format_uint n ++ (b'0' + d) ∷ []
format_uint-snoc n d h k =
    let tenth : (n * 10 + d) / 10 ≡ n = omega arith in
    let last : (n * 10 + d) % 10 ≡ d = omega arith in
    format_uint_step (n * 10 + d) (omega arith)
    ∙ ap₂ (λ (a b : ℕ). format_uint a ++ (b'0' + b) ∷ []) tenth last

-- What a number's digits are: digits, which spell it, with no zero before another digit.
pub record IsDecimal (n : ℕ) (s : Bytes) : Type 0 where
  pub all_digits : All IsDigit s
  pub spells : value 0 s ≡ n
  pub no_leading_zero : has_leading_zero s ≡ false
  pub positive_head : 0 < n → head_or_zero s ≢ b'0'
  pub nonempty : is_empty s ≡ false

no_zero_head : (c : ℕ) (s : Bytes) → c ≢ b'0' → has_leading_zero (c ∷ s) ≡ false
no_zero_head c [] h = refl
no_zero_head c (d ∷ s) h = ground arith

IsDecimal-digit : (n : ℕ) → n < 10 → IsDecimal n ((b'0' + n) ∷ [])
IsDecimal-digit n h = record {
  all_digits = ((omega arith, omega arith), tt);
  spells = omega arith;
  no_leading_zero = refl;
  positive_head = λ p. omega arith;
  nonempty = refl;
}

IsDecimal-snoc :
    (n d : ℕ) (s : Bytes)
    → 0 < n
    → d < 10
    → IsDecimal n s
    → IsDecimal (n * 10 + d) (s ++ (b'0' + d) ∷ [])
IsDecimal-snoc n d [] h k v = absurd (false≢true (sym v.nonempty))
IsDecimal-snoc n d (c ∷ s) h k v = record {
  all_digits =
      All-append IsDigit (c ∷ s) ((b'0' + d) ∷ []) v.all_digits ((omega arith, omega arith), tt);
  spells = value-append (c ∷ s) ((b'0' + d) ∷ []) 0 ∙ rw v.spells (omega arith);
  no_leading_zero = no_zero_head c (s ++ (b'0' + d) ∷ []) (v.positive_head h);
  positive_head = λ p. v.positive_head h;
  nonempty = refl;
}

IsDecimal-tenth :
    (m : ℕ) → ¬ (m < 10) → IsDecimal (m / 10) (format_uint (m / 10)) → IsDecimal m (format_uint m)
IsDecimal-tenth m h v =
    let whole : m / 10 * 10 + m % 10 ≡ m = omega arith in
    rw (format_uint_step m (omega arith)) (
      subst (λ (k : ℕ). IsDecimal k (format_uint (m / 10) ++ (b'0' + m % 10) ∷ [])) whole
        (IsDecimal-snoc (m / 10) (m % 10) (format_uint (m / 10)) (omega arith) (omega arith) v))

pub format_uint-IsDecimal : (n : ℕ) → IsDecimal n (format_uint n)
format_uint-IsDecimal n =
    WellFounded.induction lt_wf {C = λ m. IsDecimal m (format_uint m)} n λ m ih.
      elim (dec_lt m 10) [
        | yes h ↦ rw (format_uint-digit m h) (IsDecimal-digit m h)
        | no h ↦ IsDecimal-tenth m h (ih (m / 10) (omega arith))
      ]

-- Digits with no leading zero are the digits of the number that they spell.
format_uint-value :
    (s : Bytes) (n : ℕ) → 0 < n → All IsDigit s → format_uint (value n s) ≡ format_uint n ++ s
format_uint-value [] n h v = sym (append-nil (format_uint n))
format_uint-value (c ∷ s) n h (hc, hs) =
    let d : c ≡ b'0' + (c - b'0') = omega arith in
    format_uint-value s (n * 10 + (c - b'0')) (omega arith) hs
    ∙ ap (λ t. t ++ s) (format_uint-snoc n (c - b'0') h (omega arith))
    ∙ append_assoc (format_uint n) _ s
    ∙ ap (λ (e : ℕ). format_uint n ++ e ∷ s) (sym d)

pub format_uint_of_digits :
    (s : Bytes)
    → is_empty s ≡ false
    → has_leading_zero s ≡ false
    → All IsDigit s
    → format_uint (value 0 s) ≡ s
format_uint_of_digits [] e z v = cc
format_uint_of_digits (c ∷ []) e z v =
    rw (format_uint-digit (0 * 10 + (c - b'0')) (omega arith))
      (ap (λ (k : ℕ). k ∷ []) (omega arith))
format_uint_of_digits (c ∷ x ∷ s) e z v =
    let head : c ≢ b'0' = ground arith in
    format_uint-value (x ∷ s) (0 * 10 + (c - b'0')) (omega arith) v.1
    ∙ ap (λ t. t ++ x ∷ s) (format_uint-digit (0 * 10 + (c - b'0')) (omega arith))
    ∙ ap (λ (k : ℕ). k ∷ x ∷ s) (omega arith)
