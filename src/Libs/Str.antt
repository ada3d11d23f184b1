-- ===== src/Libs/Str.antt =====
-- libs/string.c: the functions on C strings. A pointer is the list of bytes from it to the end of
-- the object that it points into; `none` is an access past that end. `char` has no sign on RISC-V.
pub mod Length
pub mod Copy
pub mod Compare
pub mod Find
use os_qemu.Prelude.{
  ℕ, zero, suc, ◌+◌, ◌-◌, ◌==◌, ltb, Bool, true, false, ◌&&◌, ◌||◌, not, if◌then◌else◌, Option,
  none, some, List, [], ◌∷◌, drop,
}
use os_qemu.Prelude.Int.{ℤ, pos, sub_ℕ}

unfoldable pub strlen_loop : List ℕ → ℕ → Option ℕ
strlen_loop [] cnt = none
strlen_loop (c ∷ s) cnt = if c == 0 then some cnt else strlen_loop s (cnt + 1)

unfoldable pub strlen : List ℕ → Option ℕ
unfolding strlen_loop
strlen s = strlen_loop s 0

-- `cnt < len` is tested before the byte is read.
unfoldable pub strnlen_loop : List ℕ → ℕ → ℕ → Option ℕ
strnlen_loop [] len cnt = if ltb cnt len then none else some cnt
strnlen_loop (c ∷ s) len cnt =
    if ltb cnt len then (if c == 0 then some cnt else strnlen_loop s len (cnt + 1)) else some cnt

unfoldable pub strnlen : List ℕ → ℕ → Option ℕ
unfolding strnlen_loop
strnlen s len = strnlen_loop s len 0

-- What has been written comes before what the rest of a copy makes of the rest.
abbrev pub after {ℓ} : {A : Type ℓ} → A → Option (List A) → Option (List A)
after c none = none
after c (some s) = some (c ∷ s)

-- The result is the destination after the copy.
unfoldable pub strcpy : List ℕ → List ℕ → Option (List ℕ)
strcpy [] src = none
strcpy (d ∷ ds) [] = none
strcpy (d ∷ ds) (c ∷ cs) = if c == 0 then some (c ∷ ds) else after c (strcpy ds cs)

-- The source stays at its null byte, which pads the destination.
unfoldable pub strncpy : List ℕ → List ℕ → ℕ → Option (List ℕ)
strncpy dst src zero = some dst
strncpy [] src (suc n) = none
strncpy (d ∷ ds) [] (suc n) = none
strncpy (d ∷ ds) (c ∷ cs) (suc n) = after c (strncpy ds (if c == 0 then c ∷ cs else cs) n)

-- `strcpy` at an offset into the destination.
unfoldable pub strcpy_at : ℕ → List ℕ → List ℕ → Option (List ℕ)
unfolding strcpy
strcpy_at zero dst src = strcpy dst src
strcpy_at (suc n) [] src = none
strcpy_at (suc n) (d ∷ ds) src = after d (strcpy_at n ds src)

unfoldable pub strcat : List ℕ → List ℕ → Option (List ℕ)
unfolding strlen strcpy_at
strcat dst src = elim (strlen dst) [ none ↦ none | some n ↦ strcpy_at n dst src ]

-- `(int)((unsigned char)*s1 - (unsigned char)*s2)` at the first difference or the end.
unfoldable pub strcmp : List ℕ → List ℕ → Option ℤ
strcmp [] s2 = none
strcmp (a ∷ s1) [] = none
strcmp (a ∷ s1) (b ∷ s2) = if not (a == 0) && a == b then strcmp s1 s2 else some (sub_ℕ a b)

unfoldable pub strncmp : List ℕ → List ℕ → ℕ → Option ℤ
strncmp s1 s2 zero = some (pos 0)
strncmp [] s2 (suc n) = none
strncmp (a ∷ s1) [] (suc n) = none
strncmp (a ∷ s1) (b ∷ s2) (suc n) =
    if not (a == 0) && a == b then strncmp s1 s2 n else some (sub_ℕ a b)

-- `some none` is NULL.
unfoldable pub strchr : List ℕ → ℕ → Option (Option (List ℕ))
strchr [] c = none
strchr (a ∷ s) c = if a == 0 then some none else if a == c then some (some (a ∷ s)) else strchr s c

unfoldable pub strfind : List ℕ → ℕ → Option (List ℕ)
strfind [] c = none
strfind (a ∷ s) c = if a == 0 then some (a ∷ s) else if a == c then some (a ∷ s) else strfind s c
