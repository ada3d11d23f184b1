-- ===== src/Libs/Number/Print.antt =====
-- How much `printnum` of libs/printfmt.c prints.
use os_qemu.Prelude.{
  ℕ, zero, suc, ◌-◌, ◌*◌, ◌/◌, ◌%◌, ◌^◌, ◌≤◌, ◌<◌, ◌≡◌, leb, false, arith, Option, none, some, List,
  [], ◌∷◌, replicate, length, length-append, length-replicate, Bool-cases, inl, inr,
}
use native.Mathlib.Nat.{div-add-mod, pow-suc}
use os_qemu.Libs.Number.{digit, and_then, print_num, printnum}

abbrev pub WidthOf : ℕ → Option (List ℕ) → Type 0
WidthOf w none = ⊥
WidthOf w (some s) = w ≤ length s

and_then-WidthOf : (w c : ℕ) (r : Option (List ℕ)) → WidthOf (w - 1) r → WidthOf w (and_then r c)
and_then-WidthOf w c none h = h
and_then-WidthOf w c (some s) h = omega (arith, length-append s (c ∷ []))

pub half-le : (num base : ℕ) → 2 ≤ base → 2 * (num / base) ≤ num
half-le num base h = grind (arith, div-add-mod)

-- With a digit of fuel for each halving, `printnum` prints, and at least `width` characters.
print_num-WidthOf :
    (f num base width padc : ℕ)
    → 2 ≤ base
    → num < 2 ^ suc f
    → WidthOf width (print_num (suc f) num base width padc)
unfolding print_num
print_num-WidthOf zero num base width padc b h =
    let small : leb base num ≡ false = ground arith in
    rw small (
      omega (
        arith,
        length-append (replicate (width - 1) padc) (digit (num % base) ∷ []),
        length-replicate (width - 1) padc,
      ))
print_num-WidthOf (suc f) num base width padc b h = elim (Bool-cases (leb base num)) [
  | inl e ↦ rw e (
      and_then-WidthOf width _ _ (
        print_num-WidthOf f (num / base) base (width - 1) padc b
          (omega (arith, half-le num base b, pow-suc 2 (suc f)))))
  | inr e ↦ rw e (
      omega (
        arith,
        length-append (replicate (width - 1) padc) (digit (num % base) ∷ []),
        length-replicate (width - 1) padc,
      ))
]

-- An unsigned long long is printed in full, and fills the width it is given, in any base from 2.
pub printnum-WidthOf :
    (num base width padc : ℕ)
    → 2 ≤ base
    → num < 2 ^ 64
    → WidthOf width (printnum num base width padc)
unfolding printnum
printnum-WidthOf num base width padc = print_num-WidthOf 63 num base width padc
