-- ===== src/Fs/Bitmap/Create.antt =====
-- `bitmap_create` of kern/fs/sfs/bitmap.c.
use os_qemu.Prelude.{
  ℕ, zero, suc, ◌+◌, ◌-◌, ◌*◌, ◌/◌, ◌%◌, ◌^◌, ◌≤◌, ◌<◌, ◌≡◌, ◌≢◌, refl, sym, ◌∙◌, not, ltb, true,
  false, Option, some, arith, ℕ_discrete, dec_lt,
}
use os_qemu.Prelude.Errors.{Result, ok}
use os_qemu.Fs.Bitmap.{Bitmap, test_bit, flip_bit, set_word, mark_used, bitmap_create}
use os_qemu.Fs.Bitmap.Bits.{test_bit-flip_bit, test_bit-flip_other, flip_bit-lt}
use os_qemu.Fs.Bitmap.Search.{is_free, IsWords}

pow_pos : (n : ℕ) → 0 < 2 ^ n
pow_pos zero = omega arith
pow_pos (suc n) = let half = pow_pos n in omega arith

ones : (n k : ℕ) → k < n → test_bit (2 ^ n - 1) k ≡ true
unfolding test_bit
ones zero k h = absurd (omega arith)
ones (suc n) zero h = let odd : (2 ^ suc n - 1) % 2 ≡ 1 = omega (arith, pow_pos n) in ground arith
ones (suc n) (suc k) h =
    let half : (2 ^ suc n - 1) / 2 ≡ 2 ^ n - 1 = omega (arith, pow_pos n) in
    rw half (ones n k (omega arith))

mark_used-below : (n lo w j : ℕ) → j < lo → test_bit (mark_used n lo w) j ≡ test_bit w j
unfolding mark_used
mark_used-below zero lo w j h = refl
mark_used-below (suc n) lo w j h =
    mark_used-below n (lo + 1) (flip_bit w lo) j (omega arith)
    ∙ test_bit-flip_other lo j w (omega arith)

mark_used-marked :
    (n lo w j : ℕ) → lo ≤ j → j < lo + n → test_bit (mark_used n lo w) j ≡ not (test_bit w j)
unfolding mark_used
mark_used-marked zero lo w j h h' = absurd (omega arith)
mark_used-marked (suc n) lo w j h h' = elim (ℕ_discrete lo j) [
  | yes e ↦
      rw (sym e)
        (mark_used-below n (lo + 1) (flip_bit w lo) lo (omega arith) ∙ test_bit-flip_bit lo w)
  | no e ↦
      mark_used-marked n (lo + 1) (flip_bit w lo) j (omega arith) (omega arith)
      ∙ rw (test_bit-flip_other lo j w (λ r. e (sym r))) refl
]

mark_used-lt : (n lo w : ℕ) → lo + n ≤ 32 → w < 2 ^ 32 → mark_used n lo w < 2 ^ 32
unfolding mark_used
mark_used-lt zero lo w h h' = h'
mark_used-lt (suc n) lo w h h' =
    mark_used-lt n (lo + 1) (flip_bit w lo) (omega arith) (flip_bit-lt 32 lo w (omega arith) h')

module _ (nbits : ℕ) (n : nbits ≢ 0) (small : nbits + 32 < 2 ^ 32) where
  abbrev words : ℕ
  words = (nbits + 32 - 1) / 32

  abbrev over : ℕ
  over = nbits - (words - 1) * 32

  abbrev whole : Bitmap
  whole = record { nbits = nbits; nwords = words; words = λ x. 2 ^ 32 - 1 }

  abbrev cut : Bitmap
  cut = record {
    nbits = nbits;
    nwords = words;
    words = set_word (λ x. 2 ^ 32 - 1) (words - 1) (mark_used (32 - over) over (2 ^ 32 - 1));
  }

  create-whole : nbits ≡ words * 32 → bitmap_create nbits true true ≡ ok (some whole)
  unfolding bitmap_create
  create-whole e = ground arith

  create-cut : nbits ≢ words * 32 → bitmap_create nbits true true ≡ ok (some cut)
  unfolding bitmap_create
  create-cut e = ground arith

  cut-bits : nbits ≢ words * 32 → (i : ℕ) → i < words * 32 → is_free cut i ≡ ltb i nbits
  cut-bits e i h = elim (ℕ_discrete (i / 32) (words - 1)) [
    | no m ↦
        let all = ones 32 (i % 32) (omega arith) in
        let used : ltb i nbits ≡ true = ground arith in rw used (ground (arith, all))
    | yes m ↦
        let last : is_free cut i ≡ test_bit (mark_used (32 - over) over (2 ^ 32 - 1)) (i % 32) =
          ground (arith, m) in
        let all = ones 32 (i % 32) (omega arith) in
        elim (dec_lt (i % 32) over) [
          | yes lt ↦
              let free : ltb i nbits ≡ true = ground (arith, m) in
              last ∙ mark_used-below (32 - over) over (2 ^ 32 - 1) (i % 32) lt ∙ all ∙ sym free
          | no ge ↦
              let used : ltb i nbits ≡ false = ground (arith, m) in
              last
              ∙ mark_used-marked (32 - over) over (2 ^ 32 - 1) (i % 32) (omega arith) (omega arith)
              ∙ rw all (sym used)
        ]
  ]

  cut-IsWords : nbits ≢ words * 32 → IsWords cut
  cut-IsWords e ix h =
      let last = mark_used-lt (32 - over) over (2 ^ 32 - 1) (omega arith) (omega arith) in
      ground (arith, last)

  -- What a created map is.
  abbrev pub Created : Result (Option Bitmap) → Type 0
  Created r =
      (b : Bitmap) × (r ≡ ok (some b))
      × IsWords b
      × (b.nbits ≡ nbits)
      × (nbits ≤ b.nwords * 32)
      × ((i : ℕ) → i < b.nwords * 32 → is_free b i ≡ ltb i nbits)

  -- With memory for it, a map of `nbits` blocks that is not empty and not too large is created; in all
  -- its words just the bits below `nbits` are set, the left over ones of the last word are not.
  pub bitmap_create-Created : Created (bitmap_create nbits true true)
  bitmap_create-Created = elim (ℕ_discrete nbits (words * 32)) [
    | yes e ↦ (
      whole,
      create-whole e,
      λ ix h. omega arith,
      refl,
      omega arith,
      λ i h. ones 32 (i % 32) (omega arith) ∙ ground arith,
    )
    | no e ↦ (cut, create-cut e, cut-IsWords e, refl, omega arith, cut-bits e)
  ]
