-- ===== src/Go/Decimal.antt =====
-- fmt's %d (strconv.FormatInt) and strconv.ParseInt in base 10, for 64-bit integers.
pub mod RoundTrip
use uran_api.Prelude.{
  ℕ, zero, suc, ◌+◌, ◌-◌, ◌*◌, ◌/◌, ◌%◌, ◌^◌, ℤ, pos, negsuc, Text, Bool, true, false, ◌&&◌, Option,
  none, some, List, [], ◌∷◌, ◌++◌, ◌==◌, nat_eq, ltb, leb, if◌then◌else◌,
}

-- The digits of a number, on fuel; a number is fuel enough for itself.
unfoldable pub digits : ℕ → ℕ → Text
digits zero n = []
digits (suc f) n =
    let more = digits f (n / 10) ++ (b'0' + n % 10) ∷ [] in
    if ltb n 10 then (b'0' + n) ∷ [] else more

unfoldable pub format_nat : ℕ → Text
unfolding digits
format_nat n = digits (suc n) n

unfoldable pub format_int : ℤ → Text
unfolding format_nat
format_int (pos n) = format_nat n
format_int (negsuc n) = b'-' ∷ format_nat (suc n)

-- One more digit; nothing past the limit.
unfoldable pub scan_digit : ℕ → ℕ → ℕ → Option ℕ
scan_digit limit acc c =
    if leb b'0' c && leb c b'9'
    then (let v = acc * 10 + (c - b'0') in if leb v limit then some v else none)
    else none

unfoldable pub scan : ℕ → ℕ → Text → Option ℕ
scan limit acc [] = some acc
scan limit acc (c ∷ s) = elim (scan_digit limit acc c) [ none ↦ none | some v ↦ scan limit v s ]

unfoldable pub parse_digits : ℕ → Text → Option ℕ
parse_digits limit [] = none
parse_digits limit (c ∷ s) = scan limit 0 (c ∷ s)

abbrev pub max_int64 : ℕ
max_int64 = 2 ^ 63 - 1

abbrev negate : ℕ → ℤ
negate zero = pos 0
negate (suc n) = negsuc n

signed : Bool → Option ℕ → Option ℤ
signed minus none = none
signed true (some n) = some (negate n)
signed false (some n) = some (pos n)

unfoldable pub parse_int : Text → Option ℤ
unfolding parse_digits signed
parse_int [] = none
parse_int (c ∷ s) =
    if c == b'-'
    then signed true (parse_digits (suc max_int64) s)
    else if c == b'+'
    then signed false (parse_digits max_int64 s)
    else signed false (parse_digits max_int64 (c ∷ s))
