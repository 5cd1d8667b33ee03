-- ===== src/Manifest/Meta/Decimal.antt =====
-- Numbers below 2^64 are read back from their decimal print.
use arx_runa.Prelude.{
  ℕ, zero, suc, ◌+◌, ◌*◌, ◌/◌, ◌%◌, ◌^◌, ◌<◌, ◌≤◌, ◌≡◌, refl, ◌∙◌, inl, inr, Bool-cases, false,
  some, [], ◌∷◌, Text, arith, ltb, ◌==◌,
}
use arx_runa.Storage.Validation.{parse_digits, strip_plus, nonempty_digits, parse_u64}
use arx_runa.Manifest.Meta.{print_digits, to_string}

-- The numbers with that many digits at most.
abbrev bound : ℕ → ℕ
bound zero = 1
bound (suc k) = 10 * bound k

parse_digits_nil : (n : ℕ) → parse_digits n [] ≡ some n
unfolding parse_digits
parse_digits_nil n = refl

parse_digits_last :
    (n : ℕ) (out : Text)
    → n < 2 ^ 64
    → parse_digits (n / 10) ((b'0' + n % 10) ∷ out) ≡ parse_digits n out
unfolding parse_digits
parse_digits_last n out small = ground arith

parse-print_digits :
    (fuel n : ℕ) (out : Text)
    → n < bound (suc fuel)
    → n < 2 ^ 64
    → parse_digits 0 (print_digits (suc fuel) n out) ≡ parse_digits n out
unfolding parse_digits print_digits
parse-print_digits zero n out h small = elim (Bool-cases (ltb n 10)) [
  | inl one ↦ rw one (ground (arith, one))
  | inr more ↦ absurd (ground (arith, more))
]
parse-print_digits (suc fuel) n out h small = elim (Bool-cases (ltb n 10)) [
  | inl one ↦ rw one (ground (arith, one))
  | inr more ↦
      let ih =
        parse-print_digits fuel (n / 10) ((b'0' + n % 10) ∷ out) (omega arith) (omega arith) in
      rw more (ih ∙ parse_digits_last n out small)
]

-- A print begins with a digit.
print_digits-cons :
    (fuel n : ℕ) (out : Text)
    → n < bound (suc fuel)
    → (c : ℕ) × (rest : Text) × (print_digits (suc fuel) n out ≡ c ∷ rest) × (b'0' ≤ c)
unfolding print_digits
print_digits-cons zero n out h = elim (Bool-cases (ltb n 10)) [
  | inl one ↦ (b'0' + n % 10, out, rw one refl, omega arith)
  | inr more ↦ absurd (ground (arith, more))
]
print_digits-cons (suc fuel) n out h = elim (Bool-cases (ltb n 10)) [
  | inl one ↦ (b'0' + n % 10, out, rw one refl, omega arith)
  | inr more ↦
      let (c, rest, e, le) =
        print_digits-cons fuel (n / 10) ((b'0' + n % 10) ∷ out) (omega arith) in
      (c, rest, rw more e, le)
]

parse_u64-cons :
    (s : Text) (c : ℕ) (rest : Text) → s ≡ c ∷ rest → b'0' ≤ c → parse_u64 s ≡ parse_digits 0 s
unfolding parse_u64 strip_plus nonempty_digits
parse_u64-cons [] c rest e le = absurd (cc (e))
parse_u64-cons (d ∷ s) c rest e le = let first : d == b'+' ≡ false = ground arith in rw first refl

pub parse_u64-to_string : (n : ℕ) → n < 2 ^ 64 → parse_u64 (to_string n) ≡ some n
unfolding to_string
parse_u64-to_string n small =
    let (c, rest, e, le) = print_digits-cons 19 n [] (omega arith) in
    parse_u64-cons (print_digits 20 n []) c rest e le
    ∙ parse-print_digits 19 n [] (omega arith) small
    ∙ parse_digits_nil n
