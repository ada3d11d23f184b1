-- ===== src/Fs/Sfs/Load.antt =====
-- `sfs_bmap_load_nolock` of kern/fs/sfs/sfs_inode.c at the end of a file, over a disk that works.
use os_qemu.Prelude.{
  ℕ, ◌+◌, ◌-◌, ◌≤◌, ◌<◌, ◌≡◌, ◌≢◌, ◌⊎◌, inl, inr, refl, sym, ◌∙◌, ap, ltb, true, false, arith,
  Bool-cases, ℕ_discrete,
}
use os_qemu.Prelude.Errors.{ok, no_mem}
use os_qemu.Fs.Vfs.{ret, fail}
use os_qemu.Fs.Bitmap.Search.{is_free}
use os_qemu.Fs.Sfs.{blksize, Device, Sfs}
use os_qemu.Fs.Sfs.Bmap.{SfsInode, sfs_bmap_get_nolock, sfs_bmap_load_nolock}
use os_qemu.Fs.Sfs.Disk.{Works, SfsInv, Used, Got, sfs_block_alloc_lem, Freed}
use os_qemu.Fs.Sfs.Entry.{Used-ne, enter_block_lem}
use os_qemu.Fs.Sfs.Chain.{max_blocks, block_at, FileInv, indirect-Used}
use os_qemu.Fs.Sfs.Append.{Extends, FileInv-Extends, load_failed, load_got}
use os_qemu.Fs.Sfs.Grow
use os_qemu.Fs.Sfs.GrowEntry
use os_qemu.Fs.Sfs.GrowIndirect

module _ {D : Type 0} (ops : Device D) (w : Works ops) where
  -- No block is free, or one at most where the file needs a block of entries too.
  abbrev pub Full : Sfs D → SfsInode → Type 0
  Full s sin =
      ((j : ℕ) → j < s.blocks → is_free s.freemap j ≡ false)
      ⊎ ((sin.din.blocks ≡ 12)
          × (sin.din.indirect ≡ 0)
          × ((last : ℕ) × ((j : ℕ) → j < s.blocks → j ≢ last → is_free s.freemap j ≡ false)))

  -- No room: nothing is used that was not, and no block that was used has changed.
  abbrev pub NoRoom : Sfs D → SfsInode → Type 0
  NoRoom s sin =
      (s' : Sfs D) × (sfs_bmap_load_nolock ops sin sin.din.blocks s ≡ ok (fail no_mem, sin, s'))
      × Full s sin
      × ((j : ℕ) → is_free s'.freemap j ≡ is_free s.freemap j)
      × ((m : ℕ) → Used s m → w.content s'.dev m ≡ w.content s.dev m)
      × SfsInv s'

  -- A block more.
  abbrev pub Longer : Sfs D → SfsInode → Type 0
  Longer s sin =
      (i : ℕ) × (sin' : SfsInode) × (s' : Sfs D) × (sfs_bmap_load_nolock ops sin sin.din.blocks s
        ≡ ok (ret i, sin', s'))
      × (is_free s.freemap i ≡ true)
      × (sin'.din.blocks ≡ sin.din.blocks + 1)
      × (block_at ops w s'.dev sin'.din sin.din.blocks ≡ i)
      × ((k : ℕ)
          → k < sin.din.blocks
          → block_at ops w s'.dev sin'.din k ≡ block_at ops w s.dev sin.din k)
      × ((x : ℕ) → x < blksize → w.content s'.dev i x ≡ 0)
      × ((m : ℕ) → Used s m → m ≢ sin.din.indirect → w.content s'.dev m ≡ w.content s.dev m)
      × SfsInv s'
      × FileInv ops w s' sin'.din

  module _ (s : Sfs D) (sin : SfsInode) (inv : SfsInv s) (f : FileInv ops w s sin.din)
      (max : sin.din.blocks < max_blocks) where
    unchanged :
        sfs_bmap_get_nolock ops sin sin.din.blocks true s ≡ ok (fail no_mem, sin, s)
        → ((j : ℕ) → j < s.blocks → is_free s.freemap j ≡ false)
        → NoRoom s sin
    unchanged e full =
        (s, load_failed ops w s sin no_mem sin s e, inl full, (λ j. refl), (λ m u. refl), inv)

    Longer-by :
        (i : ℕ) (sin' : SfsInode) (s' : Sfs D)
        → sfs_bmap_get_nolock ops sin sin.din.blocks true s ≡ ok (ret i, sin', s')
        → sin'.din.blocks ≡ sin.din.blocks
        → Extends ops w s sin.din i s' (record (sin'.din) { blocks = sin.din.blocks + 1 })
        → Longer s sin
    Longer-by i sin' s' e same x = (
      i,
      record sin' { din = record (sin'.din) { blocks = sin.din.blocks + 1 } },
      s',
      load_got ops w s sin i sin' s' e x.inv x.used same max,
      x.was_free,
      refl,
      x.at_end,
      x.before,
      x.zeros,
      x.kept,
      x.inv,
      FileInv-Extends ops w s s' sin.din (record (sin'.din) { blocks = sin.din.blocks + 1 }) i f max
          x,
    )

    given_back :
        (ent : ℕ) (t s' : Sfs D)
        → Got ops w s ent t
        → Freed t ent s'
        → sfs_bmap_get_nolock ops sin sin.din.blocks true s ≡ ok (fail no_mem, sin, s')
        → (sin.din.blocks ≡ 12) × (sin.din.indirect ≡ 0)
        → ((j : ℕ) → j < t.blocks → is_free t.freemap j ≡ false)
        → NoRoom s sin
    given_back ent t s' g fr e twelve full = (
      s',
      load_failed ops w s sin no_mem sin s' e,
      inr (
        twelve.0,
        twelve.1,
        (ent, λ j lt n. sym (g.others j n) ∙ full j (rw (g.same_blocks) lt)),
      ),
      (λ j. elim (ℕ_discrete j ent) [
        | yes q ↦ rw q (fr.free ∙ sym g.was_free)
        | no q ↦ fr.others j q ∙ g.others j q
      ]),
      (λ m u.
          ap (λ (d : D). w.content d m) (fr.same_dev ∙ g.cleared)
          ∙ w.content-stored_other ent m (λ y. 0) s.dev (Used-ne s ent m g.was_free u)),
      fr.inv,
    )

    all_used :
        ((j : ℕ) → j < s.freemap.nbits → is_free s.freemap j ≡ false)
        → (j : ℕ) → j < s.blocks
        → is_free s.freemap j ≡ false
    all_used h j lt = h j (let whole = inv.whole in omega arith)

    by_direct : sin.din.blocks < 12 → NoRoom s sin ⊎ Longer s sin
    by_direct few = elim (sfs_block_alloc_lem ops w s inv) [
      | inl (e, h) ↦ inl (unchanged (Grow.no_room ops w s sin inv f few e) (all_used h))
      | inr (i, t, e, g) ↦ inr (
          Longer-by i (Grow.grown ops w s sin inv f few i t e g) t
            (Grow.get_new ops w s sin inv f few i t e g) refl
            (Grow.grown-Extends ops w s sin inv f few i t e g))
    ]

    by_entry : 12 ≤ sin.din.blocks → sin.din.indirect ≢ 0 → NoRoom s sin ⊎ Longer s sin
    by_entry many n =
        elim (enter_block_lem ops w s sin.din.indirect sin.din.indirect (sin.din.blocks - 12) inv
          (indirect-Used ops w s inv sin f n) (omega arith)) [
            | inl (e, full) ↦
                inl (unchanged (GrowEntry.entry_full ops w s sin inv f many max n e) full)
            | inr (i, t, e, x) ↦ inr (
                Longer-by i sin t (GrowEntry.entry_got ops w s sin inv f many max n i t x e) refl
                  (GrowEntry.entry-Extends ops w s sin inv f many max n i t x))
          ]

    by_entries : 12 ≤ sin.din.blocks → sin.din.indirect ≡ 0 → NoRoom s sin ⊎ Longer s sin
    by_entries many z = elim (sfs_block_alloc_lem ops w s inv) [
      | inl (e, h) ↦
          inl (unchanged (GrowIndirect.no_entries ops w s sin inv f many max z e) (all_used h))
      | inr (ent, t, e, g) ↦ elim (enter_block_lem ops w t 0 ent 0 g.inv g.used (omega arith)) [
        | inl (h, full) ↦
            let (s', q, fr) =
              GrowIndirect.entries_given_back ops w s sin inv f many max z ent t e g h in
            inl (
              given_back ent t s' g fr q (GrowIndirect.twelve ops w s sin inv f many max z, z) full)
        | inr (i, t', h, x) ↦ inr (
            Longer-by i (GrowIndirect.grown ops w s sin inv f many max z ent t e g i t' x) t'
              (GrowIndirect.entries_got ops w s sin inv f many max z ent t e g i t' x h) refl
              (GrowIndirect.entries-Extends ops w s sin inv f many max z ent t e g i t' x))
      ]
    ]

    -- On a disk that works, asking for the block behind the last one of a file in order makes the
    -- file one block longer, if it is below the largest size and there is room: the block was free,
    -- is filled with zeros and stands at the end of the map, the other blocks of the file stay, no
    -- block in use but the block of entries changes, and the file, the free map and its count are in
    -- order. Only where no block is free, or at most one where the thirteenth block of a file needs a
    -- new block of entries too, it returns `-E_NO_MEM` instead; then the inode stays, and just the
    -- blocks are free that were, a block of entries taken on the way included.
    pub sfs_bmap_load_nolock-grows : NoRoom s sin ⊎ Longer s sin
    sfs_bmap_load_nolock-grows = elim (Bool-cases (ltb sin.din.blocks 12)) [
      | inl e ↦ by_direct (ground arith)
      | inr e ↦ elim (ℕ_discrete sin.din.indirect 0) [
        | yes z ↦ by_entries (ground arith) z
        | no n ↦ by_entry (ground arith) n
      ]
    ]
