-- ===== src/Tests/Libs.antt =====
-- The kernel's library at concrete inputs.
use os_qemu.Prelude.{ℕ, ◌≡◌, ◌==◌, refl, if◌then◌else◌, some, List, [], ◌∷◌, ◌++◌, arith}
use os_qemu.Prelude.Int.{pos}
use os_qemu.Libs.Number.{printnum, strtol}
use os_qemu.Libs.Number.RoundTrip.{strtol-printnum}
use os_qemu.Libs.Dlist.{Links}
use os_qemu.Libs.Dlist.Ring.{IsRing}

strtol-printnum_example :
    (t : List ℕ) × (printnum 255 16 0 32 ≡ some t)
    × (strtol (t ++ 0 ∷ 7 ∷ []) 16 ≡ some (pos 255, 0 ∷ 7 ∷ []))
strtol-printnum_example =
    strtol-printnum 255 16 32 (7 ∷ []) (omega arith) (omega arith) (omega arith)

-- The list at 0 holds 5.
abbrev ring : Links
ring = record { prev = λ x. if x == 5 then 0 else 5; next = λ x. if x == 5 then 0 else 5 }

ring-IsRing : IsRing ring 0 (5 ∷ [])
ring-IsRing = record {
  links = (refl, refl, (refl, refl));
  distinct = (tt, tt);
  apart = ((λ e. absurd (omega arith)), tt);
}

abbrev text_ab : List ℕ
text_ab = 97 ∷ 98 ∷ []

abbrev text_a : List ℕ
text_a = 97 ∷ []

abbrev target : List ℕ
target = 1 ∷ 2 ∷ 3 ∷ 4 ∷ 5 ∷ []
