-- ===== src/Fs/File/Close.antt =====
-- `file_close`, `file_read` and `file_write` of kern/fs/file.c on a whole table.
use os_qemu.Prelude.{ℕ, ◌-◌, ◌<◌, ◌≡◌, ◌≢◌, inl, inr, refl, ◌∙◌, none, some, arith, ℕ_discrete}
use os_qemu.Prelude.Int.{pos}
use os_qemu.Prelude.Errors.{ok}
use os_qemu.Fs.Vfs.{Vfs, Vops, vfs_close}
use os_qemu.Fs.File.{
  fd_none, fd_opened, fd_closed, Fs, nentry, set, fd2file, fd_array_free, fd_array_close,
  file_close,
}
use os_qemu.Fs.File.Table.{AtRest, TableInv}

module _ {D : Type 0} (s : Fs D) (inv : TableInv s) (i : ℕ) (lt : i < nentry) where
  pub fd2file-opened : (s.fd_array i).status ≡ fd_opened → fd2file (pos i) s ≡ ok (some i)
  unfolding fd2file
  fd2file-opened e = ground (arith, inv.numbered i lt, inv.counted)

  pub held_once :
      (s.fd_array i).status ≡ fd_opened → ((s.fd_array i).opens ≡ 1) × ((s.fd_array i).node ≢ 0)
  held_once e = elim (inv.at_rest i lt) [ inl h ↦ absurd (ground arith) | inr h ↦ (h.1, h.2) ]

-- Changing one entry to one at rest with the same number keeps the table whole.
pub TableInv-set :
    {D : Type 0} (s s' : Fs D) (i : ℕ)
    → TableInv s
    → s'.files_count ≡ s.files_count
    → ((j : ℕ) → j ≢ i → s'.fd_array j ≡ s.fd_array j)
    → AtRest (s'.fd_array i)
    → (s'.fd_array i).fd ≡ i
    → TableInv s'
TableInv-set s s' i inv c same rest num = record {
  counted = rw c inv.counted;
  at_rest =
      λ j lt. elim (ℕ_discrete j i) [ yes e ↦ rw e rest | no n ↦ rw (same j n) (inv.at_rest j lt) ];
  numbered =
      λ j lt. elim (ℕ_discrete j i) [ yes e ↦ rw e num | no n ↦ rw (same j n) (inv.numbered j lt) ];
}

module _ {D : Type 0} (ops : Vops D) (s : Fs D) (i : ℕ) where
  -- `fd_array_free` of a closed file, `v` being what `vfs_close` leaves.
  abbrev freed : Vfs D → Fs D
  freed v = set (record s { vfs = v }) i (record (s.fd_array i) { status = fd_none })

  fd_array_free-closed :
      (v : Vfs D)
      → (s.fd_array i).status ≡ fd_closed
      → (s.fd_array i).opens ≡ 0
      → vfs_close ops (s.fd_array i).node s.vfs ≡ ok v
      → fd_array_free ops i s ≡ ok (freed v)
  unfolding fd_array_free
  fd_array_free-closed v e o c = ground arith

  abbrev shut : Fs D
  shut = set s i (record (s.fd_array i) { status = fd_closed; opens = (s.fd_array i).opens - 1 })

  fd_array_close-last :
      (s.fd_array i).status ≡ fd_opened
      → (s.fd_array i).opens ≡ 1
      → fd_array_close ops i s ≡ fd_array_free ops i shut
  unfolding fd_array_close
  fd_array_close-last e o = ground arith

  file_close-opened :
      fd2file (pos i) s ≡ ok (some i)
      → (t : Fs D) → fd_array_close ops i s ≡ ok t
      → file_close ops (pos i) s ≡ ok (none, t)
  unfolding file_close
  file_close-opened f t e = ground arith

  shut_entry :
      ((shut.fd_array i).status ≡ fd_closed)
      × ((shut.fd_array i).opens ≡ (s.fd_array i).opens - 1)
      × ((shut.fd_array i).node ≡ (s.fd_array i).node)
      × ((shut.fd_array i).fd ≡ (s.fd_array i).fd)
  shut_entry = ground arith

  freed_other : (v : Vfs D) (j : ℕ) → j ≢ i → (freed v).fd_array j ≡ s.fd_array j
  freed_other v j n = ground arith

  freed_entry :
      (v : Vfs D)
      → (((freed v).fd_array i).status ≡ fd_none)
        × (((freed v).fd_array i).opens ≡ (s.fd_array i).opens)
        × (((freed v).fd_array i).fd ≡ (s.fd_array i).fd)
  freed_entry v = ground arith

  shut_other : (j : ℕ) → j ≢ i → shut.fd_array j ≡ s.fd_array j
  shut_other j n = ground arith

-- Closing an open descriptor of a whole table drops the inode, frees the entry and leaves the others
-- as they are; the table stays whole.
pub file_close-TableInv :
    {D : Type 0} (ops : Vops D) (s : Fs D) (i : ℕ) (v : Vfs D)
    → TableInv s
    → i < nentry
    → (s.fd_array i).status ≡ fd_opened
    → vfs_close ops (s.fd_array i).node s.vfs ≡ ok v
    → (s' : Fs D) × (file_close ops (pos i) s ≡ ok (none, s'))
      × ((s'.fd_array i).status ≡ fd_none)
      × ((j : ℕ) → j ≢ i → s'.fd_array j ≡ s.fd_array j)
      × (s'.vfs ≡ v)
      × TableInv s'
file_close-TableInv ops s i v inv lt e c =
    let (o, n) = held_once s inv i lt e in
    let (st, op, nd, num) = shut_entry ops s i in
    let t = shut ops s i in
    let done = freed ops t i v in
    let free = fd_array_free-closed ops t i v st (ground arith) (rw nd c) in
    let close = fd_array_close-last ops s i e o ∙ free in
    let (free_st, free_op, free_num) = freed_entry ops t i v in
    let same : (j : ℕ) → j ≢ i → done.fd_array j ≡ s.fd_array j =
      λ j m. freed_other ops t i v j m ∙ shut_other ops s i j m in
    (
      done,
      file_close-opened ops s i (fd2file-opened s inv i lt e) done close,
      free_st,
      same,
      refl,
      TableInv-set s done i inv refl same (inl (free_st, ground arith))
          (free_num ∙ num ∙ inv.numbered i lt),
    )
