-- ===== src/Money/Text/Contract.antt =====
-- Parse and String of money.go against each other, with the currency code.
use jungle_gaming.Prelude.{◌≡◌, refl, sym, ◌∙◌, arith, true, [], ◌∷◌, if◌then◌else◌, length}
use jungle_gaming.Prelude.Bytes.{Bytes}
use jungle_gaming.Prelude.Int.{eqb_ℤ}
use jungle_gaming.Prelude.Int64.{IsInt64, min_int64}
use jungle_gaming.Shared.{ok, err, >>=-eq-ok}
use jungle_gaming.Money.{Money, Currency, parse_currency, all_upper, err_overflow}
use jungle_gaming.Money.Text.{parse, parse_minor_units, format}
use jungle_gaming.Money.Text.RoundTrip.{parse_minor_units-format}
use jungle_gaming.Money.Text.Canonical.{
  IsParsed, format-parse_minor_units, parse_minor_units-IsParsed,
}

-- Three upper-case letters of ASCII.
abbrev pub IsCurrency : Currency → Type 0
IsCurrency c = (length c ≡ 3) × (all_upper c ≡ true)

pub parse_currency_lem : (c : Currency) → IsCurrency c → parse_currency c ≡ ok c
unfolding parse_currency
parse_currency_lem [] h = absurd (omega arith)
parse_currency_lem (x ∷ s) (n, u) = rw (n, u) refl

pub parse_currency_sound :
    (s : Bytes) (c : Currency) → parse_currency s ≡ ok c → (c ≡ s) × IsCurrency s
unfolding parse_currency
parse_currency_sound [] c h = cc
parse_currency_sound (x ∷ s) c h = ground arith

-- Parse of the text that String writes gives the amount back, for every int64 amount in a valid
-- currency but the smallest one, whose text is refused as an overflow.
pub parse-format :
    (m : Money)
    → IsInt64 m.minor
    → IsCurrency m.currency
    → parse (format m.minor) m.currency
      ≡ (if eqb_ℤ m.minor min_int64 then err err_overflow else ok m)
unfolding parse
parse-format m h c =
    rw (parse_currency_lem m.currency c, parse_minor_units-format m.minor h) (ground arith)

-- Where Parse succeeds, its input is exactly the text that String writes for the result with the
-- result's currency, the currency is three upper-case letters, and the amount is within the documented
-- range.
pub parse_sound :
    (amount currency : Bytes) (m : Money)
    → parse amount currency ≡ ok m
    → (format m.minor ≡ amount) × (m.currency ≡ currency) × IsCurrency m.currency × IsParsed m.minor
unfolding parse
parse_sound amount currency m h =
    let (c, hc, h') = >>=-eq-ok (parse_currency currency) _ h in
    let (v, hv, e) = >>=-eq-ok (parse_minor_units amount) _ h' in
    let (same, valid) = parse_currency_sound currency c hc in
    let minor : v ≡ m.minor = ground arith in
    let code : c ≡ m.currency = ground arith in
    (
      rw (← minor) (format-parse_minor_units amount v hv),
      sym code ∙ same,
      rw (← code, same) valid,
      rw (← minor) (parse_minor_units-IsParsed amount v hv),
    )

-- Two pairs of texts that Parse reads as the same amount are the same texts.
pub parse_injective :
    (a c b d : Bytes) (m : Money) → parse a c ≡ ok m → parse b d ≡ ok m → (a ≡ b) × (c ≡ d)
parse_injective a c b d m h k =
    let (ta, ca, _, _) = parse_sound a c m h in
    let (tb, cb, _, _) = parse_sound b d m k in (sym ta ∙ tb, sym ca ∙ cb)
