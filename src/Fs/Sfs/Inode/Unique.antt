-- ===== src/Fs/Sfs/Inode/Unique.antt =====
-- The inodes in memory as a map from the numbers of inodes to their addresses: what `sfs_load_inode` of
-- kern/fs/sfs/sfs_inode.c does to it.
use os_qemu.Prelude.{
  ℕ, ◌+◌, ◌≡◌, ◌≢◌, ◌⊎◌, inl, inr, refl, sym, ◌∙◌, ap, ◌==◌, Bool, true, false, ◌||◌, if◌then◌else◌,
  Option, none, some, List, [], ◌∷◌, arith, Bool-cases,
}
use os_qemu.Prelude.Errors.{ok}
use os_qemu.Fs.Vfs.{ret, set_count}
use os_qemu.Fs.Sfs.{Device, Sfs, in_block, sfs_rbuf}
use os_qemu.Fs.Sfs.Bmap.{SfsInode, DiskInode}
use os_qemu.Fs.Sfs.Disk.{Works, SfsInv, Used, assert_inuse-Used, read_block_lem}
use os_qemu.Fs.Sfs.Inode.{
  Cache, set_sin, chain, find_inode, take_inode, din_of, inode_size, sfs_set_links,
  sfs_create_inode, read_inode, sfs_load_inode,
}
use os_qemu.Proc.Table.{hash32, hash_shift}
use os_qemu.Proc.Table.Hash.{Absent}

find_inode-same :
    (sin sin' : ℕ → SfsInode) (j : ℕ) (xs : List ℕ)
    → ((x : ℕ) → (sin' x).ino ≡ (sin x).ino)
    → find_inode sin' j xs ≡ find_inode sin j xs
unfolding find_inode
find_inode-same sin sin' j [] e = refl
find_inode-same sin sin' j (x ∷ xs) e = rw (e x, find_inode-same sin sin' j xs e) refl

find_inode-Absent :
    (sin : ℕ → SfsInode) (p : ℕ) (v : SfsInode) (j : ℕ) (xs : List ℕ)
    → Absent p xs
    → find_inode (set_sin sin p v) j xs ≡ find_inode sin j xs
unfolding find_inode
find_inode-Absent sin p v j [] a = refl
find_inode-Absent sin p v j (x ∷ xs) a =
    let ne : (x == p) ≡ false = let n = a.0 in ground arith in
    rw (ne, find_inode-Absent sin p v j xs a.1) refl

find_inode-ino :
    (sin : ℕ → SfsInode) (j n : ℕ) (xs : List ℕ) → find_inode sin j xs ≡ some n → (sin n).ino ≡ j
unfolding find_inode
find_inode-ino sin j n [] e = ground arith
find_inode-ino sin j n (x ∷ xs) e = elim (Bool-cases ((sin x).ino == j)) [
  | inl y ↦
      let same : x ≡ n = ground (arith, e, y) in ap (λ m. (sin m).ino) (sym same) ∙ ground arith
  | inr y ↦ find_inode-ino sin j n xs (ground (arith, e, y))
]

maybe {ℓ} : {A : Type ℓ} (o : Option A) → (o ≡ none) ⊎ ((a : A) × (o ≡ some a))
maybe none = inl refl
maybe (some a) = inr (a, refl)

module _ {D : Type 0} where
  -- The inode in memory with a number.
  abbrev pub loaded : Cache D → ℕ → Option ℕ
  loaded c j = find_inode c.sin j (chain j c)

  loaded-take_inode : (n j : ℕ) (c : Cache D) → loaded (take_inode n c) j ≡ loaded c j
  unfolding take_inode
  loaded-take_inode n j c =
      find_inode-same c.sin (take_inode n c).sin j (chain j c) (λ x. ground arith)

  loaded-sfs_set_links :
      (n j : ℕ) (c : Cache D)
      → loaded (sfs_set_links n c) j ≡ (if (c.sin n).ino == j then some n else loaded c j)
  unfolding sfs_set_links find_inode
  loaded-sfs_set_links n j c =
      let h = hash32 (c.sin n).ino hash_shift in
      elim (Bool-cases ((c.sin n).ino == j)) [
        | inl e ↦
            let same : (c.sin n).ino ≡ j = ground arith in
            let here : (hash32 j hash_shift == h) ≡ true =
              let q : hash32 j hash_shift ≡ h = ap (λ i. hash32 i hash_shift) (sym same) in
              ground arith in
            rw (here, e) refl
        | inr e ↦ elim (Bool-cases (hash32 j hash_shift == h)) [
          | inl q ↦
              let same : h ≡ hash32 j hash_shift = ground arith in
              rw (q, e) (ap (λ k. find_inode c.sin j (c.hash_list k)) same)
          | inr q ↦ rw (q, e) refl
        ]
      ]

  -- What loading the inode `ino` leaves: it is in memory at `n` and has a reference, the numbers of the
  -- other inodes in memory, their references and the disk are as before, and where it was in memory
  -- before it has not moved.
  pub record Loaded (c : Cache D) (ino n : ℕ) (c' : Cache D) : Type 0 where
    pub map : (j : ℕ) → loaded c' j ≡ (if j == ino then some n else loaded c j)
    pub here : (m : ℕ) → loaded c ino ≡ some m → n ≡ m
    pub number : (c'.sin n).ino ≡ ino
    pub taken : c'.ref_count n ≢ 0
    pub others : (x : ℕ) → x ≢ n → c'.ref_count x ≡ c.ref_count x
    pub disk : c'.sfs ≡ c.sfs

  loaded-known :
      (c : Cache D) (ino n j : ℕ)
      → loaded c ino ≡ some n
      → loaded c j ≡ (if j == ino then some n else loaded c j)
  loaded-known c ino n j e = elim (Bool-cases (j == ino)) [
    | inl q ↦ let same : j ≡ ino = ground arith in rw q (ap (λ k. loaded c k) same ∙ e)
    | inr q ↦ rw q refl
  ]

  take_inode-Loaded :
      (c : Cache D) (ino n : ℕ) → loaded c ino ≡ some n → Loaded c ino n (take_inode n c)
  unfolding take_inode
  take_inode-Loaded c ino n e = record {
    map = λ j. loaded-take_inode n j c ∙ loaded-known c ino n j e;
    here = λ m e'. ground (arith, e, e');
    number =
        find_inode-ino (take_inode n c).sin ino n (chain ino c) (loaded-take_inode n ino c ∙ e);
    taken = λ z. ground arith;
    others = λ x ne. ground arith;
    disk = refl;
  }

  -- An inode at an address that none in memory has.
  abbrev pub created : DiskInode → ℕ → ℕ → Cache D → Cache D
  created din ino fresh c = record c {
    ref_count = set_count c.ref_count fresh 1;
    sin = set_sin c.sin fresh (record { din = din; ino = ino; dirty = false; reclaim_count = 1 });
  }

  create-Loaded :
      (c : Cache D) (din : DiskInode) (ino fresh : ℕ)
      → ((h : ℕ) → Absent fresh (c.hash_list h))
      → loaded c ino ≡ none
      → Loaded c ino fresh (sfs_set_links fresh (created din ino fresh c))
  unfolding sfs_set_links
  create-Loaded c din ino fresh a e =
      let c' = created din ino fresh c in
      let self : (fresh == fresh) ≡ true = ground arith in
      let number : (c'.sin fresh).ino ≡ ino = rw self refl in
      record {
        map = λ j.
            let kept : loaded c' j ≡ loaded c j =
              find_inode-Absent c.sin fresh _ j (chain j c) (a (hash32 j hash_shift)) in
            loaded-sfs_set_links fresh j c' ∙ elim (Bool-cases (j == ino)) [
              | inl q ↦ let p : (ino == j) ≡ true = ground arith in rw (self, p, q) refl
              | inr q ↦ let p : (ino == j) ≡ false = ground arith in rw (self, p, q) kept
            ];
        here = λ m e'. ground (arith, e, e');
        number = number;
        taken = λ z. ground arith;
        others = λ x ne. ground arith;
        disk = refl;
      }

module _ {D : Type 0} (ops : Device D) (room : Bool) (fresh ino : ℕ) where
  load_found :
      (n : ℕ) (c : Cache D)
      → loaded c ino ≡ some n
      → sfs_load_inode ops room fresh ino c ≡ ok (ret n, take_inode n c)
  unfolding sfs_load_inode
  load_found n c e = rw (e, sfs_load_inode) refl

  load_missing :
      (c : Cache D)
      → loaded c ino ≡ none
      → sfs_load_inode ops room fresh ino c ≡ read_inode ops room fresh ino c
  unfolding sfs_load_inode
  load_missing c e = rw (e, sfs_load_inode) refl

module _ {D : Type 0} (ops : Device D) (w : Works ops) where
  -- The inode on the disk.
  abbrev pub din_at : Sfs D → ℕ → DiskInode
  din_at s ino = din_of (λ i. w.content s.dev ino (0 + i))

  read_inode-Loaded :
      (c : Cache D) (ino fresh : ℕ)
      → SfsInv c.sfs
      → Used c.sfs ino
      → (din_at c.sfs ino).nlinks ≢ 0
      → ((din_at c.sfs ino).kind == 2 || (din_at c.sfs ino).kind == 1) ≡ true
      → fresh ≢ 0
      → ((h : ℕ) → Absent fresh (c.hash_list h))
      → loaded c ino ≡ none
      → (c' : Cache D) × (read_inode ops true fresh ino c ≡ ok (ret fresh, c'))
        × Loaded c ino fresh c'
        × ((c'.sin fresh).din ≡ din_at c.sfs ino)
  unfolding read_inode sfs_rbuf sfs_create_inode sfs_set_links
  read_inode-Loaded c ino fresh inv u linked kind ne a e =
      let fit : in_block 0 inode_size ≡ true = refl in
      let links : ((din_at c.sfs ino).nlinks == 0) ≡ false = ground arith in
      let there : (fresh == 0) ≡ false = ground arith in
      (
        sfs_set_links fresh (created (din_at c.sfs ino) ino fresh c),
        assert_inuse-Used c.sfs ino _ inv u
            ∙ rw (read_block_lem ops w c.sfs ino inv u.0 u.1) (rw (links, there, kind) refl),
        create-Loaded c (din_at c.sfs ino) ino fresh a e,
        (let self : (fresh == fresh) ≡ true = ground arith in rw self refl),
      )

  -- On a disk that works and with memory for it, an inode of the disk that is in use, has links and is a file or a directory, is
  -- loaded: there is then one inode in memory with its number, the one that was there before if there
  -- was one, and else the new one, with what the disk holds. The numbers of the other inodes in memory,
  -- their references and the disk stay as they are. The address that `alloc_inode` gives is not that of
  -- an inode in memory.
  pub sfs_load_inode-Loaded :
      (c : Cache D) (ino fresh : ℕ)
      → SfsInv c.sfs
      → Used c.sfs ino
      → (din_at c.sfs ino).nlinks ≢ 0
      → ((din_at c.sfs ino).kind == 2 || (din_at c.sfs ino).kind == 1) ≡ true
      → fresh ≢ 0
      → ((h : ℕ) → Absent fresh (c.hash_list h))
      → (n : ℕ) × (c' : Cache D) × (sfs_load_inode ops true fresh ino c ≡ ok (ret n, c'))
        × Loaded c ino n c'
        × (loaded c ino ≡ none → (c'.sin n).din ≡ din_at c.sfs ino)
  sfs_load_inode-Loaded c ino fresh inv u linked kind ne a = elim (maybe (loaded c ino)) [
    | inr (n, e) ↦ (
      n,
      take_inode n c,
      load_found ops true fresh ino n c e,
      take_inode-Loaded c ino n e,
      λ e'. ground (arith, e, e'),
    )
    | inl e ↦
        let (c', eq, l, d) = read_inode-Loaded c ino fresh inv u linked kind ne a e in
        (fresh, c', load_missing ops true fresh ino c e ∙ eq, l, λ e'. d)
  ]

-- What has been loaded is found in memory when it is loaded again, at the same address and with one
-- reference more, whatever the device does and memory there is.
pub sfs_load_inode-again :
    {D : Type 0} (ops : Device D) (c c' : Cache D) (ino n fresh : ℕ) (room : Bool)
    → Loaded c ino n c'
    → sfs_load_inode ops room fresh ino c' ≡ ok (ret n, take_inode n c')
sfs_load_inode-again ops c c' ino n fresh room l =
    let self : (ino == ino) ≡ true = ground arith in
    let there : loaded c' ino ≡ some n = l.map ino ∙ rw self refl in
    load_found ops room fresh ino n c' there
