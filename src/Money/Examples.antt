-- ===== src/Money/Examples.antt =====
-- Tests of the amounts, and the theorems at concrete amounts.
use jungle_gaming.Prelude.{◌≡◌, refl, arith, true, false, if◌then◌else◌}
use jungle_gaming.Prelude.Bytes.{codes}
use jungle_gaming.Prelude.Int.{ℤ, pos, negsuc, ◌+ℤ◌}
use jungle_gaming.Prelude.Int64.{IsInt64, in_int64, min_int64, max_int64}
use jungle_gaming.Shared.{ok, err}
use jungle_gaming.Money.{Money, err_overflow, err_invalid_amount, add, subtract}
use jungle_gaming.Money.Arithmetic.{add_lem}
use jungle_gaming.Money
use jungle_gaming.Money.Text.{parse, format, parse_minor_units}
use jungle_gaming.Money.Text.Contract.{IsCurrency, parse-format, parse_sound}
use jungle_gaming.Money.Text.Canonical.{IsParsed}

abbrev pub brl : ℤ → Money
brl minor = record { minor = minor; currency = codes "BRL" }

parse_test : parse (codes "10.50") (codes "BRL") ≡ ok (brl (pos 1050))
unfolding parse Money.parse_currency jungle_gaming.Money.Text.parse_minor_units
    jungle_gaming.Money.Text.parse_parts jungle_gaming.Money.Text.cut_at
    jungle_gaming.Money.Text.require_digits jungle_gaming.Money.Text.digits_to_minor_units
    jungle_gaming.Money.Text.integer_units Money.multiply add jungle_gaming.Money.Text.signed
    jungle_gaming.Prelude.Int64.add64 jungle_gaming.Prelude.Int64.mul64
    jungle_gaming.Prelude.Int64.quo64 jungle_gaming.Prelude.Int64.sub64
parse_test = refl

parse_negative_test : parse (codes "-0.07") (codes "BRL") ≡ ok (brl (negsuc 6))
unfolding parse Money.parse_currency jungle_gaming.Money.Text.parse_minor_units
    jungle_gaming.Money.Text.parse_parts jungle_gaming.Money.Text.cut_at
    jungle_gaming.Money.Text.require_digits jungle_gaming.Money.Text.digits_to_minor_units
    jungle_gaming.Money.Text.integer_units Money.multiply add jungle_gaming.Money.Text.signed
    jungle_gaming.Prelude.Int64.add64 jungle_gaming.Prelude.Int64.sub64
    jungle_gaming.Prelude.Int64.neg64
parse_negative_test = refl

parse_leading_zero_test : parse (codes "007.00") (codes "BRL") ≡ err err_invalid_amount
unfolding parse Money.parse_currency jungle_gaming.Money.Text.parse_minor_units
    jungle_gaming.Money.Text.parse_parts jungle_gaming.Money.Text.cut_at
parse_leading_zero_test = refl

format_test : format (negsuc 6) ≡ codes "-0.07"
unfolding format jungle_gaming.Money.Text.write_parts jungle_gaming.Money.Text.format_int
    jungle_gaming.Money.Text.format_uint jungle_gaming.Prelude.Int64.neg64
    jungle_gaming.Prelude.Int64.quo64 jungle_gaming.Prelude.Int64.rem64
format_test = refl

sum_fits : IsInt64 (pos 1050)
sum_fits = (omega arith, omega arith)

add_lem_example :
    add max_int64 (pos 1050)
    ≡ (if in_int64 (max_int64 +ℤ pos 1050) then ok (max_int64 +ℤ pos 1050) else err err_overflow)
add_lem_example = add_lem max_int64 (pos 1050) (omega arith, omega arith) sum_fits

parse-format_example : parse (format (pos 1050)) (codes "BRL") ≡ ok (brl (pos 1050))
unfolding Money.all_upper
parse-format_example = parse-format (brl (pos 1050)) sum_fits (refl, refl)

parse_sound_example :
    (format (pos 1050) ≡ codes "10.50")
    × (codes "BRL" ≡ codes "BRL")
    × IsCurrency (codes "BRL")
    × IsParsed (pos 1050)
unfolding parse Money.parse_currency jungle_gaming.Money.Text.parse_minor_units
    jungle_gaming.Money.Text.parse_parts jungle_gaming.Money.Text.cut_at
    jungle_gaming.Money.Text.require_digits jungle_gaming.Money.Text.digits_to_minor_units
    jungle_gaming.Money.Text.integer_units Money.multiply add jungle_gaming.Money.Text.signed
    jungle_gaming.Prelude.Int64.add64 jungle_gaming.Prelude.Int64.mul64
    jungle_gaming.Prelude.Int64.quo64 jungle_gaming.Prelude.Int64.sub64
parse_sound_example = parse_sound (codes "10.50") (codes "BRL") (brl (pos 1050)) refl
