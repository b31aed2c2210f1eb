-- ===== src/Go/Decimal/RoundTrip.antt =====
-- A printed number reads back, and holds digits alone.
use uran_api.Prelude.{
  ℕ, zero, suc, ◌+◌, ◌*◌, ◌/◌, ◌%◌, ◌≤◌, ◌<◌, ℤ, pos, negsuc, Text, true, false, none, some, List,
  [], ◌∷◌, ◌++◌, ◌==◌, nat_eq, ltb, ◌≡◌, ◌≢◌, refl, inl, inr, All, arith, Bool-cases, Option-cases,
  ap, ◌∙◌,
}
use uran_api.Go.Decimal.{
  digits, format_nat, format_int, scan_digit, scan, parse_digits, max_int64, parse_int,
}

scan-snoc :
    (limit acc v : ℕ) (s : Text) (c : ℕ)
    → scan limit acc s ≡ some v
    → scan limit acc (s ++ c ∷ []) ≡ scan limit v (c ∷ [])
unfolding scan
scan-snoc limit acc v [] c h = ground arith
scan-snoc limit acc v (x ∷ s) c h = elim (Option-cases (scan_digit limit acc x)) [
  | inl e ↦ absurd (bad e)
  | inr (w, e) ↦ rw (e, scan) (scan-snoc limit w v s c (ground arith))
]
  where
    bad : scan_digit limit acc x ≡ none → ⊥
    bad e = ground arith

scan_digit_lem :
    (limit acc d : ℕ)
    → d < 10
    → acc * 10 + d ≤ limit
    → scan_digit limit acc (b'0' + d) ≡ some (acc * 10 + d)
unfolding scan_digit
scan_digit_lem limit acc d h le = ground arith

scan_one :
    (limit acc n : ℕ) → n ≤ limit → acc ≡ n / 10 → scan limit acc ((b'0' + n % 10) ∷ []) ≡ some n
unfolding scan
scan_one limit acc n le e =
    rw (scan_digit_lem limit acc (n % 10) (omega arith) (omega arith), scan) (ap some (omega arith))

scan-digits : (f limit n : ℕ) → n < f → n ≤ limit → scan limit 0 (digits f n) ≡ some n
unfolding digits
scan-digits zero limit n h le = elim h [ ]
scan-digits (suc f) limit n h le = elim (Bool-cases (ltb n 10)) [
  | inl small ↦ rw small (rw (ten small) (scan_one limit 0 n le (ground arith)))
  | inr big ↦ rw big (
      scan-snoc limit 0 (n / 10) (digits f (n / 10)) (b'0' + n % 10)
        (scan-digits f limit (n / 10) (ground arith) (omega arith))
      ∙ scan_one limit (n / 10) n le refl)
]
  where
    ten : ltb n 10 ≡ true → (b'0' + n) ≡ (b'0' + n % 10)
    ten h = ground arith

-- All characters are digits.
abbrev pub Digits : Text → Type 0
Digits s = All (λ c. (b'0' ≤ c) × (c ≤ b'9')) s

All-append {ℓ κ} : {A : Type ℓ} (P : A → Type κ) (s t : List A) → All P s → All P t → All P (s ++ t)
All-append P [] t a b = b
All-append P (x ∷ s) t a b = (a.0, All-append P s t a.1 b)

digits-Digits : (f n : ℕ) → Digits (digits f n)
unfolding digits
digits-Digits zero n = tt
digits-Digits (suc f) n = elim (Bool-cases (ltb n 10)) [
  | inl small ↦ rw small ((omega arith, ground arith), tt)
  | inr big ↦ rw big (
      All-append _ (digits f (n / 10)) _ (digits-Digits f (n / 10))
        ((omega arith, omega arith), tt))
]

pub format_nat-Digits : (n : ℕ) → Digits (format_nat n)
unfolding format_nat
format_nat-Digits n = digits-Digits (suc n) n

snoc-ne-nil : (s : Text) (c : ℕ) → s ++ c ∷ [] ≢ []
snoc-ne-nil [] c h = cc
snoc-ne-nil (x ∷ s) c h = cc

digits-ne-nil : (f n : ℕ) → digits (suc f) n ≢ []
unfolding digits
digits-ne-nil f n = elim (Bool-cases (ltb n 10)) [
  | inl small ↦ rw small (λ h. cc)
  | inr big ↦ rw big (snoc-ne-nil (digits f (n / 10)) (b'0' + n % 10))
]

parse_unsigned :
    (s : Text) (n : ℕ)
    → Digits s
    → s ≢ []
    → scan max_int64 0 s ≡ some n
    → parse_int s ≡ some (pos n)
unfolding parse_int parse_digits
parse_unsigned [] n d ne h = absurd (ne refl)
parse_unsigned (c ∷ s) n d ne h = rw (no_minus, no_plus, h, parse_int) refl
  where
    no_minus : (c == b'-') ≡ false
    no_minus = ground arith

    no_plus : (c == b'+') ≡ false
    no_plus = ground arith

-- A 64-bit number is read back from its decimal form.
pub parse_int-format_nat : (n : ℕ) → n ≤ max_int64 → parse_int (format_nat n) ≡ some (pos n)
unfolding format_nat
parse_int-format_nat n h =
    parse_unsigned (digits (suc n) n) n (digits-Digits (suc n) n) (digits-ne-nil n n)
      (scan-digits (suc n) max_int64 n (omega arith) h)

-- The range of int64, a negative number by the number before it.
abbrev pub IsInt64 : ℤ → Type 0
IsInt64 (pos n) = n ≤ max_int64
IsInt64 (negsuc n) = n ≤ max_int64

parse_negative :
    (s : Text) (n : ℕ)
    → s ≢ []
    → scan (suc max_int64) 0 s ≡ some (suc n)
    → parse_int (b'-' ∷ s) ≡ some (negsuc n)
unfolding parse_int parse_digits
parse_negative [] n ne h = absurd (ne refl)
parse_negative (c ∷ s) n ne h = rw h

-- Every 64-bit integer is read back from its decimal form.
pub parse_int-format_int : (z : ℤ) → IsInt64 z → parse_int (format_int z) ≡ some z
unfolding format_int format_nat
parse_int-format_int (pos n) h = parse_int-format_nat n h
parse_int-format_int (negsuc n) h =
    parse_negative (digits (suc (suc n)) (suc n)) n (digits-ne-nil (suc n) (suc n))
      (scan-digits (suc (suc n)) (suc max_int64) (suc n) (omega arith) (omega arith))
