-- ===== src/Fs/Open.antt =====
-- `vfs_open` of kern/fs/vfs/vfsfile.c: opening an inode by its path.
use os_qemu.Prelude.{ℕ, ◌==◌, not, Bool, true, ◌&&◌, ◌||◌, if◌then◌else◌, none, some, List}
use os_qemu.Prelude.Errors.{Error, Result, ok, ◌>>=◌, inval, exists}
use os_qemu.Fs.Vfs.{
  Vfs, Ret, ret, fail, Vops, is_noent, accmode, bit, o_creat, o_excl, o_trunc, vop_op,
  inode_ref_dec, inode_open_inc, vfs_close,
}
use os_qemu.Fs.Path.{vfs_lookup, vfs_lookup_parent}

module _ {D : Type 0} where
  -- A call that gives an error up.
  abbrev pub give_up : Error → Result (Vfs D) → Result (Ret ℕ × Vfs D)
  give_up e r = r >>= (λ v. ok (fail e, v))

  -- The part of `vfs_open` from `vop_open` on.
  unfoldable pub open_node : Vops D → ℕ → ℕ → Bool → Vfs D → Result (Ret ℕ × Vfs D)
  open_node ops flags node truncate v = vop_op node v (ops.vop_open node flags v) >>= (λ opened.
      elim opened.0 [
        | some e ↦ give_up e (inode_ref_dec ops node opened.1)
        | none ↦
            let w = inode_open_inc node opened.1 in
            if not truncate
            then ok (ret node, w)
            else vop_op node w (ops.vop_truncate node 0 w) >>= (λ truncated. elim truncated.0 [
              | some e ↦ give_up e (vfs_close ops node truncated.1)
              | none ↦ ok (ret node, truncated.1)
            ])
      ])

  -- The part that creates the file. `stale` is what the local variable `node` holds before it is
  -- set: a failed `vop_create` leaves it so, and the code goes on.
  unfoldable pub create_node : Vops D → ℕ → List ℕ → ℕ → Vfs D → Result (Ret ℕ × Vfs D)
  create_node ops stale path flags v = vfs_lookup_parent ops path v >>= (λ p. elim p.0 [
    | fail e ↦ ok (fail e, p.1)
    | ret found ↦
        vop_op found.1 p.1 (ops.vop_create found.1 found.0 (bit flags o_excl) p.1) >>= (λ created.
          elim created.0 [
            | ret node ↦ open_node ops flags node true created.1
            | fail e ↦ open_node ops flags stale true created.1
          ])
  ])

  unfoldable pub vfs_open : Vops D → ℕ → List ℕ → ℕ → Vfs D → Result (Ret ℕ × Vfs D)
  vfs_open ops stale path flags v =
      let create = bit flags o_creat in
      if accmode flags == 3
      then ok (fail inval, v)
      else if bit flags o_trunc && accmode flags == 0
      then ok (fail inval, v)
      else vfs_lookup ops path v >>= (λ l. elim l.0 [
        | ret node ↦
            if bit flags o_excl && create
            then ok (fail exists, l.2)
            else open_node ops flags node (bit flags o_trunc || create) l.2
        | fail e ↦
            if is_noent e && create then create_node ops stale l.1 flags l.2 else ok (fail e, l.2)
      ])
