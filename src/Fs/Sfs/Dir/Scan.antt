-- ===== src/Fs/Sfs/Dir/Scan.antt =====
-- Going through the entries of a directory, kern/fs/sfs/sfs_inode.c.
use os_qemu.Prelude.{
  ℕ, zero, suc, ◌+◌, ◌≤◌, ◌<◌, ◌≡◌, ◌≢◌, ◌⊎◌, refl, sym, subst, ℕ_discrete, ◌∙◌, ◌==◌, ltb, true,
  ◌&&◌, arith, List, [], ◌∷◌, not, Bool-cases, inl, inr,
}
use os_qemu.Prelude.Errors.{ok, noent}
use os_qemu.Fs.Device.{same_name}
use os_qemu.Libs.Str.{strcmp}
use os_qemu.Fs.Vfs.{Ret, ret, fail}
use os_qemu.Fs.Sfs.{Device, Sfs, in_block, sfs_rbuf}
use os_qemu.Fs.Sfs.Bmap.{SfsInode}
use os_qemu.Fs.Sfs.Disk.{Works, SfsInv, assert_inuse-Used, read_block_lem}
use os_qemu.Fs.Sfs.Chain.{FileInv, block_at, sfs_bmap_load_nolock_lem}
use os_qemu.Fs.Sfs.Dir.{
  DiskEntry, entry_size, entry_of, sfs_dirent_read_nolock, search_loop, fits_entry,
  sfs_dirent_search_nolock,
}

-- Two names in their memory have the same bytes up to a null byte, which both have.
abbrev pub Alike : List ℕ → List ℕ → Type 0
Alike [] s2 = ⊥
Alike (a ∷ s1) [] = ⊥
Alike (a ∷ s1) (b ∷ s2) = (a ≡ b) × ((a ≡ 0) ⊎ Alike s1 s2)

strcmp-same :
    (a b : ℕ) (s1 s2 : List ℕ)
    → (not (a == 0) && (a == b)) ≡ true
    → strcmp (a ∷ s1) (b ∷ s2) ≡ strcmp s1 s2
unfolding strcmp
strcmp-same a b s1 s2 e = rw e refl

same_name-tail :
    (a b : ℕ) (s1 s2 : List ℕ)
    → (not (a == 0) && (a == b)) ≡ true
    → same_name (a ∷ s1) (b ∷ s2) ≡ same_name s1 s2
unfolding same_name
same_name-tail a b s1 s2 e = rw (strcmp-same a b s1 s2 e, same_name) refl

same_name-Alike : (s1 s2 : List ℕ) → same_name s1 s2 ≡ true → Alike s1 s2
unfolding same_name strcmp
same_name-Alike [] s2 e = ground arith
same_name-Alike (a ∷ s1) [] e = ground arith
same_name-Alike (a ∷ s1) (b ∷ s2) e = elim (Bool-cases (a == 0)) [
  | inl z ↦ (ground (arith, e, z), inl (ground arith))
  | inr z ↦ elim (Bool-cases (a == b)) [
    | inl y ↦ (
      ground arith,
      inr (same_name-Alike s1 s2 (sym (same_name-tail a b s1 s2 (rw (z, y) refl)) ∙ e)),
    )
    | inr y ↦ absurd (ground (arith, e, z, y))
  ]
]

Alike-same_name : (s1 s2 : List ℕ) → Alike s1 s2 → same_name s1 s2 ≡ true
unfolding same_name strcmp
Alike-same_name [] s2 h = absurd h
Alike-same_name (a ∷ s1) [] h = absurd h
Alike-same_name (a ∷ s1) (b ∷ s2) (e, inl z) = ground arith
Alike-same_name (a ∷ s1) (b ∷ s2) (e, inr h) = elim (Bool-cases (a == 0)) [
  | inl z ↦ ground arith
  | inr z ↦
      let same : (a == b) ≡ true = ground arith in
      same_name-tail a b s1 s2 (rw (z, same) refl) ∙ Alike-same_name s1 s2 h
]

module _ {D : Type 0} (ops : Device D) (w : Works ops) (s : Sfs D) (inv : SfsInv s) where
  module _ (sin : SfsInode) (f : FileInv ops w s sin.din) (dir : sin.din.kind ≡ 2) where
    -- The entry that the disk holds at a slot.
    abbrev pub entry_at : ℕ → DiskEntry
    entry_at slot = entry_of (λ i. w.content s.dev (block_at ops w s.dev sin.din slot) (0 + i))

    pub sfs_dirent_read_nolock_lem :
        (slot : ℕ)
        → slot < sin.din.blocks
        → sfs_dirent_read_nolock ops sin slot s ≡ ok (ret (entry_at slot), sin, s)
    unfolding sfs_dirent_read_nolock sfs_rbuf
    sfs_dirent_read_nolock_lem slot lt =
        let kind = dir in
        let b : (sin.din.kind == 2 && ltb slot sin.din.blocks) ≡ true = ground arith in
        let fit : in_block 0 entry_size ≡ true = refl in
        let u = f.used slot lt in
        rw (b, sfs_bmap_load_nolock_lem ops w s inv sin slot f lt)
          (assert_inuse-Used s (block_at ops w s.dev sin.din slot) _ inv u
            ∙ rw (read_block_lem ops w s (block_at ops w s.dev sin.din slot) inv u.0 u.1) refl)

    -- The slot holds a file of the name.
    abbrev pub IsNamed : List ℕ → ℕ → Type 0
    IsNamed name slot = ((entry_at slot).ino ≢ 0) × Alike name (entry_at slot).name

    abbrev pub IsEmptySlot : ℕ → Type 0
    IsEmptySlot slot = (entry_at slot).ino ≡ 0

    -- The last empty slot from `i` on, or `empty` where there is none.
    abbrev pub LastEmpty : ℕ → ℕ → ℕ → Type 0
    LastEmpty i empty last =
        ((last ≡ empty) × ((j : ℕ) → i ≤ j → j < sin.din.blocks → ¬ IsEmptySlot j))
        ⊎ ((i ≤ last)
            × (last < sin.din.blocks)
            × IsEmptySlot last
            × ((j : ℕ) → last < j → j < sin.din.blocks → ¬ IsEmptySlot j))

    -- What a search from the slot `i` on comes to: the first slot of the name, or that there is none.
    pub data Searched (name : List ℕ) (i empty : ℕ) : Ret (ℕ × ℕ) → ℕ → Type 0 where
      found :
          (slot last : ℕ)
          → i ≤ slot
          → slot < sin.din.blocks
          → IsNamed name slot
          → ((j : ℕ) → i ≤ j → j < slot → ¬ IsNamed name j)
          → Searched name i empty (ret ((entry_at slot).ino, slot)) last
      missing :
          (last : ℕ)
          → ((j : ℕ) → i ≤ j → j < sin.din.blocks → ¬ IsNamed name j)
          → LastEmpty i empty last
          → Searched name i empty (fail noent) last

    from_next :
        (P : ℕ → Type 0) (i hi : ℕ)
        → ¬ P i
        → ((j : ℕ) → i + 1 ≤ j → j < hi → ¬ P j)
        → (j : ℕ) → i ≤ j
        → j < hi
        → ¬ P j
    from_next P i hi non rest j le lt = elim (ℕ_discrete i j) [
      | yes e ↦ subst (λ k. ¬ P k) e non
      | no ne ↦ rest j (omega arith) lt
    ]

    last-skip :
        (i empty last : ℕ) → ¬ IsEmptySlot i → LastEmpty (i + 1) empty last → LastEmpty i empty last
    last-skip i empty last non (inl (e, h)) = inl (e, from_next IsEmptySlot i sin.din.blocks non h)
    last-skip i empty last non (inr (le, lt, z, h)) = inr (omega arith, lt, z, h)

    last-here :
        (i empty last : ℕ)
        → i < sin.din.blocks
        → IsEmptySlot i
        → LastEmpty (i + 1) i last
        → LastEmpty i empty last
    last-here i empty last lt z (inl (e, h)) =
        inr (omega arith, omega arith, rw e z, λ j l l'. h j (omega arith) l')
    last-here i empty last lt z (inr (le, lt', z', h)) = inr (omega arith, lt', z', h)

    search-skip :
        (name : List ℕ) (i empty : ℕ) (r : Ret (ℕ × ℕ)) (last : ℕ)
        → ¬ IsNamed name i
        → ¬ IsEmptySlot i
        → Searched name (i + 1) empty r last
        → Searched name i empty r last
    search-skip name i empty _ _ non full (found slot last le lt is before) =
        found slot last (omega arith) lt is (from_next (IsNamed name) i slot non before)
    search-skip name i empty _ _ non full (missing last none_there h) =
        missing last (from_next (IsNamed name) i sin.din.blocks non none_there)
          (last-skip i empty last full h)

    search-empty :
        (name : List ℕ) (i empty : ℕ) (r : Ret (ℕ × ℕ)) (last : ℕ)
        → i < sin.din.blocks
        → IsEmptySlot i
        → Searched name (i + 1) i r last
        → Searched name i empty r last
    search-empty name i empty _ _ lt z (found slot last le lt' is before) =
        found slot last (omega arith) lt' is (from_next (IsNamed name) i slot (λ n. n.0 z) before)
    search-empty name i empty _ _ lt z (missing last none_there h) =
        missing last (from_next (IsNamed name) i sin.din.blocks (λ n. n.0 z) none_there)
          (last-here i empty last lt z h)

    search_loop-Searched :
        (name : List ℕ) (n i empty : ℕ)
        → i + n ≡ sin.din.blocks
        → (r : Ret (ℕ × ℕ)) × (last : ℕ) × (search_loop ops name n i empty sin s
            ≡ ok (r, last, sin, s))
          × Searched name i empty r last
    unfolding search_loop
    search_loop-Searched name zero i empty e = (
      fail noent,
      empty,
      refl,
      missing empty (λ j h h'. absurd (omega arith)) (inl (refl, λ j h h'. absurd (omega arith))),
    )
    search_loop-Searched name (suc n) i empty e =
        let there : i < sin.din.blocks = omega arith in
        let (r, last, eq, rest) = search_loop-Searched name n (i + 1) empty (omega arith) in
        let (r', last', eq', rest') = search_loop-Searched name n (i + 1) i (omega arith) in
        elim (Bool-cases ((entry_at i).ino == 0)) [
          | inl z ↦
              rw (sfs_dirent_read_nolock_lem i there, z)
                (r', last', eq', search-empty name i empty r' last' there (ground arith) rest')
          | inr z ↦ elim (Bool-cases (same_name name (entry_at i).name)) [
            | inl y ↦
                rw (sfs_dirent_read_nolock_lem i there, z, y)
                  (
                    ret ((entry_at i).ino, i),
                    empty,
                    refl,
                    found i empty (omega arith) there
                        ((λ k. ground arith), same_name-Alike name (entry_at i).name y)
                        (λ j h h'. absurd (omega arith)),
                  )
            | inr y ↦
                rw (sfs_dirent_read_nolock_lem i there, z, y)
                  (
                    r,
                    last,
                    eq,
                    search-skip name i empty r last
                        (λ k.
                          let named = Alike-same_name name (entry_at i).name k.1 in ground arith)
                        (λ k. ground arith) rest,
                  )
          ]
        ]

    -- On a disk that works, a search of a directory for a name of at most 255 bytes, for longer ones
    -- the kernel stops, returns the number and the slot of the first entry that is in use and has the
    -- same bytes up to the null byte; or -E_NOENT where there is none, and then the last empty slot, or
    -- the number of slots where none is empty. The memory for an entry is found, and the directory and
    -- the disk stay as they are.
    pub sfs_dirent_search_nolock-Searched :
        (name : List ℕ)
        → fits_entry name ≡ true
        → (r : Ret (ℕ × ℕ)) × (last : ℕ) × (sfs_dirent_search_nolock ops true sin name s
            ≡ ok (r, last, sin, s))
          × Searched name 0 sin.din.blocks r last
    unfolding sfs_dirent_search_nolock
    sfs_dirent_search_nolock-Searched name fits =
        rw fits (search_loop-Searched name sin.din.blocks 0 sin.din.blocks (omega arith))
