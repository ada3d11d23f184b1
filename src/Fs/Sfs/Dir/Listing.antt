-- ===== src/Fs/Sfs/Dir/Listing.antt =====
-- Listing a directory, kern/fs/sfs/sfs_inode.c: the entry with a given number.
use os_qemu.Prelude.{
  ℕ, zero, suc, ◌+◌, ◌-◌, ◌≤◌, ◌<◌, ◌≡◌, ◌≢◌, ◌⊎◌, refl, sym, subst, ◌==◌, if◌then◌else◌, arith,
  Bool-cases, inl, inr,
}
use os_qemu.Prelude.Errors.{ok, noent}
use os_qemu.Fs.Vfs.{Ret, ret, fail}
use os_qemu.Fs.Sfs.{Device, Sfs}
use os_qemu.Fs.Sfs.Bmap.{SfsInode}
use os_qemu.Fs.Sfs.Disk.{Works, SfsInv}
use os_qemu.Fs.Sfs.Chain.{FileInv}
use os_qemu.Fs.Sfs.Dir.{DiskEntry, getdirentry_loop, sfs_getdirentry_sub_nolock}
use os_qemu.Fs.Sfs.Dir.Scan.{entry_at, sfs_dirent_read_nolock_lem}

module _ {D : Type 0} (ops : Device D) (w : Works ops) (s : Sfs D) (inv : SfsInv s) where
  module _ (sin : SfsInode) (f : FileInv ops w s sin.din) (dir : sin.din.kind ≡ 2) where
    abbrev pub entry : ℕ → DiskEntry
    entry slot = entry_at ops w s inv sin f dir slot

    -- The entries in use among the `n` from the slot `i` on.
    unfoldable pub count_used : ℕ → ℕ → ℕ
    count_used i zero = 0
    count_used i (suc n) = (if (entry i).ino == 0 then 0 else 1) + count_used (i + 1) n

    -- The entry that has `slot` entries in use before it, of the `n` from `i` on.
    abbrev pub Nth : ℕ → ℕ → ℕ → Ret DiskEntry → Type 0
    Nth i n slot r =
        ((k : ℕ) × (k < n)
          × (r ≡ ret (entry (i + k)))
          × ((entry (i + k)).ino ≢ 0)
          × (count_used i k ≡ slot))
        ⊎ ((r ≡ fail noent) × (count_used i n ≤ slot))

    Nth-here : (i n : ℕ) → (entry i).ino ≢ 0 → Nth i (suc n) 0 (ret (entry i))
    unfolding count_used
    Nth-here i n used =
        let p : i + 0 ≡ i = omega arith in
        inl (
          0,
          omega arith,
          subst (λ j. ret (entry i) ≡ ret (entry j)) (sym p) refl,
          subst (λ j. (entry j).ino ≢ 0) (sym p) used,
          refl,
        )

    Nth-end : (i slot : ℕ) → Nth i zero slot (fail noent)
    unfolding count_used
    Nth-end i slot = inr (refl, omega arith)

    Nth-skip :
        (i n slot slot' : ℕ) (r : Ret DiskEntry)
        → (if (entry i).ino == 0 then 0 else 1) + slot' ≡ slot
        → Nth (i + 1) n slot' r
        → Nth i (suc n) slot r
    unfolding count_used
    Nth-skip i n slot slot' r e (inl (k, lt, eq, used, c)) =
        let p : i + 1 + k ≡ i + suc k = omega arith in
        inl (
          suc k,
          omega arith,
          subst (λ j. r ≡ ret (entry j)) p eq,
          subst (λ j. (entry j).ino ≢ 0) p used,
          omega arith,
        )
    Nth-skip i n slot slot' r e (inr (eq, le)) = inr (eq, omega arith)

    getdirentry_loop-Nth :
        (n i slot : ℕ)
        → i + n ≡ sin.din.blocks
        → (r : Ret DiskEntry) × (getdirentry_loop ops n i slot sin s ≡ ok (r, sin, s))
          × Nth i n slot r
    unfolding getdirentry_loop
    getdirentry_loop-Nth zero i slot e = (fail noent, refl, Nth-end i slot)
    getdirentry_loop-Nth (suc n) i slot e =
        let there : i < sin.din.blocks = omega arith in
        let (r, eq, rest) = getdirentry_loop-Nth n (i + 1) slot (omega arith) in
        let (r', eq', rest') = getdirentry_loop-Nth n (i + 1) (slot - 1) (omega arith) in
        elim (Bool-cases ((entry i).ino == 0)) [
          | inl z ↦
              rw (sfs_dirent_read_nolock_lem ops w s inv sin f dir i there, z)
                (r, eq, Nth-skip i n slot slot r (rw z (omega arith)) rest)
          | inr z ↦ elim (Bool-cases (slot == 0)) [
            | inl y ↦
                let none_before : 0 ≡ slot = ground arith in
                rw (sfs_dirent_read_nolock_lem ops w s inv sin f dir i there, z, y)
                  (
                    ret (entry i),
                    refl,
                    subst (λ k. Nth i (suc n) k (ret (entry i))) none_before
                        (Nth-here i n (λ k. ground arith)),
                  )
            | inr y ↦
                rw (sfs_dirent_read_nolock_lem ops w s inv sin f dir i there, z, y)
                  (r', eq', Nth-skip i n slot (slot - 1) r' (rw z (ground arith)) rest')
          ]
        ]

    -- On a disk that works, the entry number `slot` of a directory is the one in use with as many in use
    -- before it, and -E_NOENT where no more than `slot` are in use: the calls for 0, 1, 2 and so on list
    -- the entries in use, each once.
    pub sfs_getdirentry_sub_nolock-Nth :
        (slot : ℕ)
        → (r : Ret DiskEntry) × (sfs_getdirentry_sub_nolock ops sin slot s ≡ ok (r, sin, s))
          × Nth 0 sin.din.blocks slot r
    unfolding sfs_getdirentry_sub_nolock
    sfs_getdirentry_sub_nolock-Nth slot = getdirentry_loop-Nth sin.din.blocks 0 slot (omega arith)
