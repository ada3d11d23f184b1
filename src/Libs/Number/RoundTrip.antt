-- ===== src/Libs/Number/RoundTrip.antt =====
-- `strtol` reads what `printnum` prints.
use os_qemu.Prelude.{
  ℕ, zero, suc, ◌+◌, ◌*◌, ◌/◌, ◌%◌, ◌^◌, ◌≤◌, ◌<◌, ◌≡◌, refl, leb, false, arith, Option, none, some,
  List, [], ◌∷◌, ◌++◌, length, length-append, Bool-cases, inl, inr, append_assoc, ◌∙◌, ap, ◌≢◌,
}
use os_qemu.Prelude.Int.{pos}
use native.Mathlib.Nat.{pow-suc}
use os_qemu.Libs.Number.{
  digit, and_then, print_num, printnum, digit_value, strtol_digits, strtol, long_max,
}
use os_qemu.Libs.Number.Print.{half-le}

-- A digit read is the digit printed.
digit_value-digit : (d : ℕ) → d < 16 → digit_value (digit d) ≡ some d
unfolding digit_value digit
digit_value-digit d h = ground arith

strtol_digits-digit :
    (s : List ℕ) (base val d : ℕ)
    → base ≤ 16
    → d < base
    → val * base + d ≤ long_max
    → strtol_digits (digit d ∷ s) base val ≡ strtol_digits s base (val * base + d)
unfolding strtol_digits
strtol_digits-digit s base val d b h m = ground (arith, digit_value-digit d)

-- Read behind the printed digits, whatever follows them.
abbrev Reads : ℕ → ℕ → List ℕ → Option (List ℕ) → Type 0
Reads num base s none = ⊥
Reads num base s (some t) = strtol_digits (t ++ s) base 0 ≡ strtol_digits s base num

last_digit :
    (num base : ℕ) (s : List ℕ)
    → base ≤ 16
    → num < base
    → num ≤ long_max
    → strtol_digits (digit (num % base) ∷ s) base 0 ≡ strtol_digits s base num
last_digit num base s c h m =
    let e : num % base ≡ num = grind arith in
    let z : 0 * base + num ≡ num = omega arith in
    rw e (strtol_digits-digit s base 0 num c h (omega arith) ∙ ap (strtol_digits s base) z)

and_then-Reads :
    (num base : ℕ) (s : List ℕ) (r : Option (List ℕ))
    → 2 ≤ base
    → base ≤ 16
    → num ≤ long_max
    → Reads (num / base) base (digit (num % base) ∷ s) r
    → Reads num base s (and_then r (digit (num % base)))
and_then-Reads num base s none b c m h = h
and_then-Reads num base s (some t) b c m h =
    let whole : num / base * base + num % base ≡ num = grind arith in
    ap (λ u. strtol_digits u base 0) (append_assoc t (digit (num % base) ∷ []) s)
    ∙ h
    ∙ strtol_digits-digit s base (num / base) (num % base) c (grind arith) (omega arith)
    ∙ ap (strtol_digits s base) whole

print_num-Reads :
    (f num base padc : ℕ) (s : List ℕ)
    → 2 ≤ base
    → base ≤ 16
    → num ≤ long_max
    → num < 2 ^ suc f
    → Reads num base s (print_num (suc f) num base 0 padc)
unfolding print_num
print_num-Reads zero num base padc s b c m h =
    let small : leb base num ≡ false = ground arith in
    rw small (last_digit num base s c (omega arith) m)
print_num-Reads (suc f) num base padc s b c m h = elim (Bool-cases (leb base num)) [
  | inl e ↦ rw e (
      and_then-Reads num base s (print_num (suc f) (num / base) base 0 padc) b c m (
        print_num-Reads f (num / base) base padc (digit (num % base) ∷ s) b c
          (omega (arith, half-le num base b))
          (omega (arith, half-le num base b, pow-suc 2 (suc f)))))
  | inr e ↦ rw e (last_digit num base s c (ground arith) m)
]

-- The character is a digit of some base up to 16.
abbrev IsDigit : ℕ → Type 0
IsDigit c = (d : ℕ) × (c ≡ digit d) × (d < 16)

abbrev AllDigits : List ℕ → Type 0
AllDigits [] = Unit {0}
AllDigits (c ∷ s) = IsDigit c × AllDigits s

abbrev IsNumeral : Option (List ℕ) → Type 0
IsNumeral none = ⊥
IsNumeral (some s) = AllDigits s × (0 < length s)

AllDigits-append : (s t : List ℕ) → AllDigits s → AllDigits t → AllDigits (s ++ t)
AllDigits-append [] t a b = b
AllDigits-append (c ∷ s) t a b = (a.0, AllDigits-append s t a.1 b)

and_then-IsNumeral :
    (r : Option (List ℕ)) (d : ℕ) → d < 16 → IsNumeral r → IsNumeral (and_then r (digit d))
and_then-IsNumeral none d h n = n
and_then-IsNumeral (some s) d h n = (
  AllDigits-append s (digit d ∷ []) n.0 ((d, refl, h), tt),
  omega (arith, length-append s (digit d ∷ [])),
)

print_num-IsNumeral :
    (f num base padc : ℕ)
    → 2 ≤ base
    → base ≤ 16
    → num < 2 ^ suc f
    → IsNumeral (print_num (suc f) num base 0 padc)
unfolding print_num
print_num-IsNumeral zero num base padc b c h =
    let small : leb base num ≡ false = ground arith in
    rw small (((num % base, refl, grind arith), tt), omega arith)
print_num-IsNumeral (suc f) num base padc b c h = elim (Bool-cases (leb base num)) [
  | inl e ↦ rw e (
      and_then-IsNumeral (print_num (suc f) (num / base) base 0 padc) (num % base) (grind arith) (
        print_num-IsNumeral f (num / base) base padc b c
          (omega (arith, half-le num base b, pow-suc 2 (suc f)))))
  | inr e ↦ rw e (((num % base, refl, grind arith), tt), omega arith)
]

-- A digit is no blank, no sign, and not the second character of a prefix.
digit_plain :
    (d : ℕ)
    → d < 16
    → (digit d ≢ b' ') × (digit d ≢ 9) × (digit d ≢ b'+') × (digit d ≢ b'-') × (digit d ≢ b'x')
unfolding digit
digit_plain d h = ground arith

-- So `strtol` starts on the digits at once.
strtol-numeral :
    (t rest : List ℕ) (base : ℕ)
    → 2 ≤ base
    → AllDigits t
    → 0 < length t
    → strtol (t ++ 0 ∷ rest) base ≡ elim (strtol_digits (t ++ 0 ∷ rest) base 0) [
      | none ↦ none
      | some (val, end) ↦ some (pos val, end)
    ]
unfolding strtol
strtol-numeral [] rest base b a n = elim n [ ]
strtol-numeral (c ∷ []) rest base b ((d, e, h), _) n = ground (arith, digit_plain d h)
strtol-numeral (c ∷ x ∷ t) rest base b ((d, e, h), ((d', e', h'), _)) n =
    ground (arith, digit_plain d h, digit_plain d' h')

stop_digit :
    (num base : ℕ) (rest : List ℕ) → strtol_digits (0 ∷ rest) base num ≡ some (num, 0 ∷ rest)
unfolding strtol_digits
stop_digit num base rest = refl

read_back :
    (num base : ℕ) (rest : List ℕ) (r : Option (List ℕ))
    → 2 ≤ base
    → IsNumeral r
    → Reads num base (0 ∷ rest) r
    → (t : List ℕ) × (r ≡ some t) × (strtol (t ++ 0 ∷ rest) base ≡ some (pos num, 0 ∷ rest))
read_back num base rest none b n h = elim n [ ]
read_back num base rest (some t) b n h =
    (t, refl, strtol-numeral t rest base b n.0 n.1 ∙ rw (h ∙ stop_digit num base rest))

-- What `printnum` prints of a number of at most 2 ^ 63 - 1, the largest that a `long` holds, without
-- padding and in any base from 2 to 16, `strtol` reads back in that base where a null byte stands
-- behind the digits: the same number, and it stops at the null byte.
pub strtol-printnum :
    (num base padc : ℕ) (rest : List ℕ)
    → 2 ≤ base
    → base ≤ 16
    → num ≤ long_max
    → (t : List ℕ) × (printnum num base 0 padc ≡ some t)
      × (strtol (t ++ 0 ∷ rest) base ≡ some (pos num, 0 ∷ rest))
unfolding printnum
strtol-printnum num base padc rest b c m =
    read_back num base rest (print_num 64 num base 0 padc) b
      (print_num-IsNumeral 63 num base padc b c (omega arith))
      (print_num-Reads 63 num base padc (0 ∷ rest) b c m (omega arith))
