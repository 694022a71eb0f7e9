-- ===== src/Money/Tests.antt =====
-- Runs of the money kernel.
use ghalla.Base.{false, true, ◌≡◌, refl, List, [], ◌∷◌, arith}
use ghalla.Base.Int.{ℤ, pos, negsuc, ◌+ℤ◌, ◌-ℤ◌, ◌*ℤ◌, neg, total_by}
use ghalla.Base.Text.{lit, eq_text, lt_text}
use ghalla.Base.Dict.{Dict, has}
use ghalla.Base.Result.{ok, err, precision}
use ghalla.Money.Kernel.{to_minor, sub_minor, round_half, div_round_half_away, split_vat_inclusive}
use ghalla.Money.Allocate.{
  AllocationBucket, has_duplicate, row_of, before, insert_row, sort_rows, amount_of, share_of_row,
  allocate_minor,
}
use ghalla.Money.Rounding.{div_round_odd, negated}
use ghalla.Money.Decimal.{
  to_minor_from_decimal, trim_start, trim_end, match_decimal, match_unsigned, span_digits,
  minor_of_match, pad_end, drop, digits_value,
}
use ghalla.Money.Decimal.Value.{to_minor_from_decimal-value, to_minor_from_decimal-precise}
use ghalla.Money.Share.Sum.{share, allocate-sum}
use ghalla.Money.Share.Bounds.{FairShares, allocate-FairShares, allocate_total}

abbrev three : List AllocationBucket
three =
    record { key = lit "a"; weight = pos 1 }
    ∷ record { key = lit "b"; weight = pos 2 }
    ∷ record { key = lit "c"; weight = pos 4 }
    ∷ []

abbrev shares : Dict ℤ
shares = (lit "a", negsuc 13) ∷ (lit "b", negsuc 28) ∷ (lit "c", negsuc 56) ∷ []

allocate_run : allocate_minor (negsuc 99) three ≡ ok shares
unfolding neg eq_text lt_text has to_minor has_duplicate row_of before insert_row sort_rows
    amount_of share_of_row allocate_minor
allocate_run = refl

allocate-sum_example : total_by share shares ≡ negsuc 99
allocate-sum_example = allocate-sum (negsuc 99) three allocate_run

allocate-FairShares_example : FairShares true 100 7 false three shares
allocate-FairShares_example = allocate-FairShares (negsuc 99) three refl allocate_run

three_distinct : has_duplicate [] (lit "a" ∷ lit "b" ∷ lit "c" ∷ []) ≡ false
unfolding eq_text has has_duplicate
three_distinct = refl

allocate_total_example : (out : Dict ℤ) × (allocate_minor (negsuc 99) three ≡ ok out)
allocate_total_example = allocate_total (negsuc 99) three refl three_distinct (omega arith)

div_run : div_round_half_away (negsuc 4) (pos 2) ≡ ok (negsuc 2)
unfolding neg round_half div_round_half_away
div_run = refl

div_round_odd_example :
    div_round_half_away (neg (pos 5)) (pos 2) ≡ negated (div_round_half_away (pos 5) (pos 2))
div_round_odd_example = div_round_odd (pos 5) (pos 2)

split_run : split_vat_inclusive (pos 140) (pos 1500) ≡ ok (record { net = pos 122; vat = pos 18 })
unfolding ◌+ℤ◌ ◌-ℤ◌ ◌*ℤ◌ neg to_minor sub_minor round_half div_round_half_away split_vat_inclusive
split_run = refl

decimal_run : to_minor_from_decimal (lit " -1.500 ") 2 ≡ ok (negsuc 149)
unfolding to_minor to_minor_from_decimal trim_start trim_end match_decimal match_unsigned
    span_digits minor_of_match pad_end drop digits_value neg
decimal_run = refl

to_minor_from_decimal-value_example : to_minor_from_decimal (lit "12.5") 2 ≡ ok (pos 1250)
unfolding digits_value
to_minor_from_decimal-value_example =
    to_minor_from_decimal-value 2 b'1' (b'2' ∷ []) (b'5' ∷ []) refl (refl, (refl, tt)) (refl, tt)
      (omega arith) (omega arith)

to_minor_from_decimal-precise_example : to_minor_from_decimal (lit "1.005") 2 ≡ err precision
unfolding drop
to_minor_from_decimal-precise_example =
    to_minor_from_decimal-precise 2 b'1' [] (b'0' ∷ b'0' ∷ b'5' ∷ []) (refl, tt)
      (refl, (refl, (refl, tt))) refl
