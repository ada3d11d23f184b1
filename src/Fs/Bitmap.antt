-- ===== src/Fs/Bitmap.antt =====
-- kern/fs/sfs/bitmap.c: the map of free blocks; a set bit is a free one.
pub mod Bits
pub mod Search
pub mod Free
pub mod Create
use os_qemu.Prelude.{
  ℕ, zero, suc, ◌+◌, ◌-◌, ◌*◌, ◌/◌, ◌%◌, ◌^◌, ◌==◌, not, ltb, leb, Bool, true, false, ◌&&◌, ◌||◌,
  if◌then◌else◌, Option, none, some,
}
use os_qemu.Prelude.Errors.{Result, ok, err, panic, no_mem}

pub record Bitmap : Type 0 where
  pub nbits : ℕ
  pub nwords : ℕ
  pub words : ℕ → ℕ

-- WORD_BITS
abbrev pub word_bits : ℕ
word_bits = 32

-- `word & (1 << offset)`, as a truth value, by the binary digits.
unfoldable pub test_bit : ℕ → ℕ → Bool
test_bit w zero = w % 2 == 1
test_bit w (suc k) = test_bit (w / 2) k

-- `word ^ (1 << offset)`, and, where the bit is clear, `word | (1 << offset)`.
unfoldable pub flip_bit : ℕ → ℕ → ℕ
flip_bit w zero = if w % 2 == 1 then w - 1 else w + 1
flip_bit w (suc k) = w % 2 + 2 * flip_bit (w / 2) k

abbrev pub set_word : (ℕ → ℕ) → ℕ → ℕ → ℕ → ℕ
set_word words ix w x = if x == ix then w else words x

-- The loop over the bits that are left over, with `n` to go.
unfoldable pub mark_used : ℕ → ℕ → ℕ → ℕ
mark_used zero overbits w = w
mark_used (suc n) overbits w = mark_used n (overbits + 1) (flip_bit w overbits)

-- The two flags tell whether `kmalloc` found memory; `ok none` is NULL.
unfoldable pub bitmap_create : ℕ → Bool → Bool → Result (Option Bitmap)
unfolding mark_used
bitmap_create nbits got_bitmap got_map =
    let nwords = (nbits + word_bits - 1) / word_bits in
    let ix = nwords - 1 in
    let overbits = nbits - ix * word_bits in
    let words : ℕ → ℕ = λ x. 2 ^ 32 - 1 in
    if nbits == 0 || leb ((nbits + word_bits) % 2 ^ 32) nbits
    then panic
    else if not got_bitmap || not got_map
    then ok none
    else if nbits == nwords * word_bits
    then ok (some (record { nbits = nbits; nwords = nwords; words = words }))
    else if not (nbits / word_bits == ix) || (overbits == 0 || leb word_bits overbits)
    then panic
    else ok (
        some (record {
          nbits = nbits;
          nwords = nwords;
          words = set_word words ix (mark_used (word_bits - overbits) overbits (words ix));
        }))

-- The search in a word, with `n` bits to go.
unfoldable pub find_bit : ℕ → ℕ → ℕ → Option ℕ
unfolding test_bit
find_bit zero offset w = none
find_bit (suc n) offset w =
    let rest = find_bit n (offset + 1) w in if test_bit w offset then some offset else rest

-- What the search over the words returns: the word and the bit.
unfoldable pub find_word : ℕ → ℕ → (ℕ → ℕ) → Result (ℕ × ℕ)
unfolding find_bit
find_word zero ix words = err no_mem
find_word (suc n) ix words =
    let rest = find_word n (ix + 1) words in
    if words ix == 0
    then rest
    else elim (find_bit word_bits 0 (words ix)) [ none ↦ panic | some offset ↦ ok (ix, offset) ]

-- The index and the map.
unfoldable pub bitmap_alloc : Bitmap → Result (ℕ × Bitmap)
unfolding find_word flip_bit
bitmap_alloc b = elim (find_word b.nwords 0 b.words) [
  | err e ↦ err e
  | panic ↦ panic
  | ok at ↦ ok (
    at.0 * word_bits + at.1,
    record b { words = set_word b.words at.0 (flip_bit (b.words at.0) at.1) },
  )
]

-- `bitmap_translate`: the word and the bit in it.
unfoldable pub bitmap_translate : Bitmap → ℕ → Result (ℕ × ℕ)
bitmap_translate b index =
    if ltb index b.nbits then ok (index / word_bits, index % word_bits) else panic

unfoldable pub bitmap_test : Bitmap → ℕ → Result Bool
unfolding bitmap_translate test_bit
bitmap_test b index = elim (bitmap_translate b index) [
  | err e ↦ err e
  | panic ↦ panic
  | ok at ↦ ok (test_bit (b.words at.0) at.1)
]

unfoldable pub bitmap_free : Bitmap → ℕ → Result Bitmap
unfolding bitmap_translate test_bit flip_bit
bitmap_free b index = elim (bitmap_translate b index) [
  | err e ↦ err e
  | panic ↦ panic
  | ok at ↦
      if test_bit (b.words at.0) at.1
      then panic
      else ok (record b { words = set_word b.words at.0 (flip_bit (b.words at.0) at.1) })
]
