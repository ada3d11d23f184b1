-- ===== src/Fs/File/Table.antt =====
-- The table of open files of kern/fs/file.c between two calls.
use os_qemu.Prelude.{
  ℕ, zero, suc, ◌+◌, ◌≤◌, ◌<◌, ◌≡◌, ◌≢◌, ◌⊎◌, inl, inr, refl, sym, true, false, Option, none, some,
  arith, ℕ_discrete, Bool-cases,
}
use os_qemu.Prelude.Errors.{ok, max_open}
use os_qemu.Fs.Vfs.{ret, fail}
use os_qemu.Fs.File.{
  Status, fd_none, fd_init, fd_opened, fd_closed, File, Fs, nentry, no_fd, is_none, set, set_file,
  find_free, take_file, fd_array_alloc, fd_array_init,
}

-- An entry between two calls: free, or open and held by its descriptor alone.
abbrev pub AtRest : File → Type 0
AtRest f =
    ((f.status ≡ fd_none) × (f.opens ≡ 0)) ⊎ ((f.status ≡ fd_opened) × (f.opens ≡ 1) × (f.node ≢ 0))

-- The invariant of the table.
pub record TableInv {D : Type 0} (s : Fs D) : Type 0 where
  pub counted : s.files_count ≢ 0
  pub at_rest : (i : ℕ) → i < nentry → AtRest (s.fd_array i)
  pub numbered : (i : ℕ) → i < nentry → (s.fd_array i).fd ≡ i

fd_array_init-other :
    (n fd : ℕ) (files : ℕ → File) (i : ℕ) → i < fd → fd_array_init n fd files i ≡ files i
unfolding fd_array_init
fd_array_init-other zero fd files i h = refl
fd_array_init-other (suc n) fd files i h =
    let next = set_file files fd (record (files fd) { opens = 0; status = fd_none; fd = fd }) in
    ground (arith, fd_array_init-other n (fd + 1) next i (omega arith))

-- `fd_array_init` makes every entry free and gives it its number.
pub fd_array_init_lem :
    (n fd : ℕ) (files : ℕ → File) (i : ℕ)
    → fd ≤ i
    → i < fd + n
    → ((fd_array_init n fd files i).status ≡ fd_none)
      × ((fd_array_init n fd files i).opens ≡ 0)
      × ((fd_array_init n fd files i).fd ≡ i)
unfolding fd_array_init
fd_array_init_lem zero fd files i h h' = absurd (omega arith)
fd_array_init_lem (suc n) fd files i h h' =
    let next = set_file files fd (record (files fd) { opens = 0; status = fd_none; fd = fd }) in
    elim (ℕ_discrete fd i) [
      | yes e ↦ rw (sym e, fd_array_init-other n (fd + 1) next fd (omega arith)) (ground arith)
      | no e ↦ fd_array_init_lem n (fd + 1) next i (omega arith) (omega arith)
    ]

-- What the search for a free entry finds.
pub data Search (n fd : ℕ) (files : ℕ → File) : Option ℕ → Type 0 where
  full : ((i : ℕ) → fd ≤ i → i < fd + n → (files i).status ≢ fd_none) → Search n fd files none
  first :
      (i : ℕ)
      → fd ≤ i
      → i < fd + n
      → (files i).status ≡ fd_none
      → ((j : ℕ) → fd ≤ j → j < i → (files j).status ≢ fd_none)
      → Search n fd files (some i)

is_none-eq : (s : Status) → is_none s ≡ true → s ≡ fd_none
is_none-eq fd_none h = refl
is_none-eq fd_init h = absurd (ground arith)
is_none-eq fd_opened h = absurd (ground arith)
is_none-eq fd_closed h = absurd (ground arith)

is_none-ne : (s : Status) → is_none s ≡ false → s ≢ fd_none
is_none-ne s h e = ground (arith)

module _ (n fd : ℕ) (files : ℕ → File) (taken : (files fd).status ≢ fd_none) where
  taken_from :
      (hi : ℕ)
      → ((i : ℕ) → fd + 1 ≤ i → i < hi → (files i).status ≢ fd_none)
      → (i : ℕ) → fd ≤ i
      → i < hi
      → (files i).status ≢ fd_none
  taken_from hi f i h h' = elim (ℕ_discrete fd i) [
    | yes e ↦ rw (sym e) taken
    | no e ↦ f i (omega arith) h'
  ]

  Search-step : (o : Option ℕ) → Search n (fd + 1) files o → Search (suc n) fd files o
  Search-step none (full f) = full (λ i h h'. taken_from (fd + 1 + n) f i h (omega arith))
  Search-step (some j) (first k h h' e f) = first k (omega arith) (omega arith) e (taken_from k f)

find_free-Search : (n fd : ℕ) (files : ℕ → File) → Search n fd files (find_free n fd files)
unfolding find_free
find_free-Search zero fd files = full (λ i h h'. absurd (omega arith))
find_free-Search (suc n) fd files = elim (Bool-cases (is_none (files fd).status)) [
  | inl e ↦ rw e (
      first fd (omega arith) (omega arith) (is_none-eq (files fd).status e)
        (λ j h h'. absurd (omega arith)))
  | inr e ↦ rw e (
      Search-step n fd files (is_none-ne (files fd).status e) (find_free n (fd + 1) files)
        (find_free-Search n (fd + 1) files))
]

module _ {D : Type 0} (s : Fs D) (counted : s.files_count ≢ 0) where
  alloc_full : find_free nentry 0 s.fd_array ≡ none → fd_array_alloc no_fd s ≡ ok (fail max_open, s)
  unfolding fd_array_alloc
  alloc_full e = ground arith

  alloc_found :
      (i : ℕ)
      → find_free nentry 0 s.fd_array ≡ some i
      → (s.fd_array i).opens ≡ 0
      → fd_array_alloc no_fd s
        ≡ ok (ret i, set s i (record (s.fd_array i) { status = fd_init; node = 0 }))
  unfolding fd_array_alloc take_file
  alloc_found i e h = ground arith

  taken_open :
      (i : ℕ)
      → AtRest (s.fd_array i)
      → (s.fd_array i).status ≢ fd_none
      → (s.fd_array i).status ≡ fd_opened
  taken_open i (inl h) n = absurd (n h.0)
  taken_open i (inr h) n = h.0

  none_shut :
      (i : ℕ) → AtRest (s.fd_array i) → (s.fd_array i).status ≡ fd_none → (s.fd_array i).opens ≡ 0
  none_shut i (inl h) n = h.1
  none_shut i (inr h) n = absurd (ground arith)

-- What the search for a new descriptor comes to.
abbrev pub NewFile : {D : Type 0} → Fs D → Type 0
NewFile s =
    ((fd_array_alloc no_fd s ≡ ok (fail max_open, s))
      × ((i : ℕ) → i < nentry → (s.fd_array i).status ≡ fd_opened))
    ⊎ ((i : ℕ) × (i < nentry)
        × ((s.fd_array i).status ≡ fd_none)
        × ((j : ℕ) → j < i → (s.fd_array j).status ≡ fd_opened)
        × (fd_array_alloc no_fd s
            ≡ ok (ret i, set s i (record (s.fd_array i) { status = fd_init; node = 0 }))))

-- With a whole table a new descriptor is the lowest free one, and its entry alone changes; when every
-- entry is open the call returns `-E_MAX_OPEN` and changes nothing.
pub fd_array_alloc-lowest : {D : Type 0} (s : Fs D) → TableInv s → NewFile s
fd_array_alloc-lowest s inv =
    found (find_free nentry 0 s.fd_array) refl (find_free-Search nentry 0 s.fd_array)
  where
    found :
        (o : Option ℕ)
        → find_free nentry 0 s.fd_array ≡ o
        → Search nentry 0 s.fd_array o
        → NewFile s
    found none e (full f) = inl (
      alloc_full s inv.counted e,
      λ i h. taken_open s inv.counted i (inv.at_rest i h) (f i (omega arith) h),
    )
    found (some i) e (first k h h' t f) = inr (
      i,
      h',
      t,
      λ j lt. taken_open s inv.counted j (inv.at_rest j (omega arith)) (f j (omega arith) lt),
      alloc_found s inv.counted i e (none_shut s inv.counted i (inv.at_rest i h') t),
    )
