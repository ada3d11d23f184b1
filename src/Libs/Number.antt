-- ===== src/Libs/Number.antt =====
-- Numbers as text: `printnum` of libs/printfmt.c and `strtol` of libs/string.c.
pub mod Print
pub mod RoundTrip
use os_qemu.Prelude.{
  ℕ, zero, suc, ◌+◌, ◌-◌, ◌*◌, ◌/◌, ◌%◌, ◌^◌, ◌==◌, ltb, leb, Bool, true, false, ◌&&◌, ◌||◌,
  if◌then◌else◌, Option, none, some, List, [], ◌∷◌, ◌++◌, replicate, refl, ◌≡◌,
}
use os_qemu.Prelude.Int.{ℤ, pos, sub_ℕ}

-- `"0123456789abcdef"[mod]`
unfoldable pub digit : ℕ → ℕ
digit d = if ltb d 10 then b'0' + d else b'a' + (d - 10)

-- What is put behind the digits before it.
abbrev pub and_then : Option (List ℕ) → ℕ → Option (List ℕ)
and_then none c = none
and_then (some s) c = some (s ++ c ∷ [])

-- `printnum` as the characters that it hands to `putch`, on fuel; `none` is no fuel left. A width
-- of -1 pads as little as 0, so it is a number here, and `-- width` stops at 0.
unfoldable pub print_num : ℕ → ℕ → ℕ → ℕ → ℕ → Option (List ℕ)
unfolding digit
print_num zero num base width padc = none
print_num (suc f) num base width padc =
    let rest = print_num f (num / base) base (width - 1) padc in
    if leb base num
    then and_then rest (digit (num % base))
    else some (replicate (width - 1) padc ++ digit (num % base) ∷ [])

-- An unsigned long long has at most 64 digits, whatever the base.
unfoldable pub printnum : ℕ → ℕ → ℕ → ℕ → Option (List ℕ)
printnum num base width padc = print_num 64 num base width padc

abbrev in_range : ℕ → ℕ → ℕ → Bool
in_range lo hi c = leb lo c && leb c hi

-- The digit that a character stands for, in any base.
unfoldable pub digit_value : ℕ → Option ℕ
digit_value c =
    if in_range b'0' b'9' c
    then some (c - b'0')
    else if in_range b'a' b'z' c
    then some (c - b'a' + 10)
    else if in_range b'A' b'Z' c
    then some (c - b'A' + 10)
    else none

-- The largest `long`.
abbrev pub long_max : ℕ
long_max = 2 ^ 63 - 1

-- The loop over the digits: the value, and where it stops. `none` is a read past the end of the
-- object, or an overflow of `long`, which C leaves undefined.
unfoldable pub strtol_digits : List ℕ → ℕ → ℕ → Option (ℕ × List ℕ)
unfolding digit_value
strtol_digits [] base val = none
strtol_digits (c ∷ s) base val = elim (digit_value c) [
  | none ↦ some (val, c ∷ s)
  | some d ↦
      if leb base d
      then some (val, c ∷ s)
      else if ltb long_max (val * base + d)
      then none
      else strtol_digits s base (val * base + d)
]

unfoldable pub skip_blanks : List ℕ → List ℕ
skip_blanks [] = []
skip_blanks (c ∷ s) = if c == b' ' || c == 9 then skip_blanks s else c ∷ s

-- Whether there is a minus sign, and what follows the sign.
unfoldable pub take_sign : List ℕ → Bool × List ℕ
take_sign [] = (false, [])
take_sign (c ∷ s) =
    if c == b'+' then (false, s) else if c == b'-' then (true, s) else (false, c ∷ s)

-- The base, and what follows its prefix. `s[1]` is read only behind a `0`.
unfoldable pub take_prefix : ℕ → List ℕ → Option (ℕ × List ℕ)
take_prefix base [] = none
take_prefix base (c ∷ []) =
    if (base == 0 || base == 16) && c == b'0'
    then none
    else some (if base == 0 then 10 else base, c ∷ [])
take_prefix base (c ∷ d ∷ s) =
    if (base == 0 || base == 16) && (c == b'0' && d == b'x')
    then some (16, s)
    else if base == 0 && c == b'0'
    then some (8, d ∷ s)
    else some (if base == 0 then 10 else base, c ∷ d ∷ s)

abbrev pub signed : Bool → ℕ → ℤ
signed true n = sub_ℕ 0 n
signed false n = pos n

-- The value, and `*endptr`.
unfoldable pub strtol : List ℕ → ℕ → Option (ℤ × List ℕ)
unfolding skip_blanks take_sign take_prefix strtol_digits
strtol s base =
    let (neg, t) = take_sign (skip_blanks s) in
    elim (take_prefix base t) [
      | none ↦ none
      | some (b, u) ↦ elim (strtol_digits u b 0) [
        | none ↦ none
        | some (val, end) ↦ some (signed neg val, end)
      ]
    ]
