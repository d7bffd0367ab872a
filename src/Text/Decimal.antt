-- ===== src/Text/Decimal.antt =====
-- `stoi` reads back what `std::to_string` printed, and the print is made of digits.
use anna.Prelude.{
  ℕ, zero, suc, ◌+◌, ◌*◌, ◌/◌, ◌%◌, ◌<◌, ◌≤◌, ◌≡◌, refl, ap, ◌∙◌, some, [], ◌∷◌, arith, ltb,
  Bool-cases, false, inl, inr, All,
}
use anna.Text.{Text, digits, to_string, value_from, stoi}

value_from-digit :
    (n d : ℕ) (rest : Text) → d < 10 → value_from n ((48 + d) ∷ rest) ≡ value_from (n * 10 + d) rest
unfolding value_from
value_from-digit n d rest h =
    let low : ltb (48 + d) 48 ≡ false = ground arith in
    let high : ltb 57 (48 + d) ≡ false = ground arith in
    rw (low, high) (ap (λ m. value_from m rest) (omega arith))

value_from-digits :
    (fuel n : ℕ) (rest : Text) → n < fuel → value_from 0 (digits fuel n rest) ≡ value_from n rest
unfolding digits
value_from-digits zero n rest h = absurd (omega arith)
value_from-digits (suc fuel) n rest h = elim (Bool-cases (ltb n 10)) [
  | inl small ↦
      rw small
        (value_from-digit 0 n rest (ground arith) ∙ ap (λ m. value_from m rest) (omega arith))
  | inr big ↦ rw big (
      value_from-digits fuel (n / 10) ((48 + n % 10) ∷ rest) (ground arith)
      ∙ value_from-digit (n / 10) (n % 10) rest (omega arith)
      ∙ ap (λ m. value_from m rest) (omega arith))
]

abbrev pub IsDigit : ℕ → Type 0
IsDigit c = (48 ≤ c) × (c ≤ 57)

digits-IsDigit :
    (fuel n : ℕ) (rest : Text) → n < fuel → All IsDigit rest → All IsDigit (digits fuel n rest)
unfolding digits
digits-IsDigit zero n rest h k = absurd (omega arith)
digits-IsDigit (suc fuel) n rest h k = elim (Bool-cases (ltb n 10)) [
  | inl small ↦ rw small ((omega arith, ground arith), k)
  | inr big ↦ rw big (
      digits-IsDigit fuel (n / 10) ((48 + n % 10) ∷ rest) (ground arith)
        ((omega arith, omega arith), k))
]

pub to_string-IsDigit : (n : ℕ) → All IsDigit (to_string n)
unfolding to_string
to_string-IsDigit n = digits-IsDigit (suc n) n [] (omega arith) tt

digits_cons :
    (fuel n : ℕ) (rest : Text) → n < fuel → (c : ℕ) × (cs : Text) × (digits fuel n rest ≡ c ∷ cs)
unfolding digits
digits_cons zero n rest h = absurd (omega arith)
digits_cons (suc fuel) n rest h = elim (Bool-cases (ltb n 10)) [
  | inl small ↦ (48 + n, rest, rw small)
  | inr big ↦ rw big (digits_cons fuel (n / 10) ((48 + n % 10) ∷ rest) (ground arith))
]

-- The print of a number is not empty.
pub to_string_cons : (n : ℕ) → (c : ℕ) × (cs : Text) × (to_string n ≡ c ∷ cs)
unfolding to_string
to_string_cons n = digits_cons (suc n) n [] (omega arith)

stoi_cons : (s cs : Text) (c : ℕ) → s ≡ c ∷ cs → stoi s ≡ value_from 0 s
unfolding stoi
stoi_cons [] cs c h = absurd (cc)
stoi_cons (d ∷ s) cs c h = refl

-- A printed number is read back as it was.
pub stoi-to_string : (n : ℕ) → stoi (to_string n) ≡ some n
unfolding to_string value_from
stoi-to_string n =
    let (c, cs, e) = to_string_cons n in
    stoi_cons (digits (suc n) n []) cs c e ∙ value_from-digits (suc n) n [] (omega arith)

pub to_string-injective : (n m : ℕ) → to_string n ≡ to_string m → n ≡ m
to_string-injective n m h = cc (stoi-to_string n, stoi-to_string m, ap stoi h)
