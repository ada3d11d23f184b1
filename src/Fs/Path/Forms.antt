-- ===== src/Fs/Path/Forms.antt =====
-- kern/fs/vfs/vfslookup.c: the forms of a path. A name is a list of bytes that are neither null nor a
-- colon nor a slash.
use os_qemu.Prelude.{
  ℕ, zero, suc, ◌+◌, ◌≡◌, ◌≢◌, ◌⊎◌, ◌==◌, refl, subst, ap, if◌then◌else◌, ap₂, sym, ◌∙◌, arith,
  none, some, List, [], ◌∷◌, ◌++◌, drop, set, length, replicate, Bool-cases, inl, inr,
}
use os_qemu.Prelude.Errors.{Result, ok, err, panic, ◌>>=◌, noent}
use os_qemu.Fs.Vfs.{Vfs, Ret, ret, fail, Vops, inode_ref_inc, inode_ref_dec}
use os_qemu.Fs.Path.{
  slash, colon, first, scan_path, skip_slashes, vfs_get_curdir, vfs_get_bootfs, vfs_get_root,
  Started, start, root_from, get_root_of, with_marks, get_device,
}

abbrev pub IsName : List ℕ → Type 0
IsName [] = Unit {0}
IsName (c ∷ cs) = (c ≢ 0) × (c ≢ colon) × (c ≢ slash) × IsName cs

scan_path-colon :
    (name rest : List ℕ) (i : ℕ)
    → IsName name
    → scan_path (name ++ colon ∷ rest) i ≡ (none, some (i + length name))
unfolding scan_path
scan_path-colon [] rest i n = ground arith
scan_path-colon (c ∷ cs) rest i n = ground (arith, scan_path-colon cs rest (i + 1) n.3)

scan_path-slash :
    (name rest : List ℕ) (i : ℕ)
    → IsName name
    → first rest ≡ slash
    → scan_path (name ++ rest) i ≡ (some (i + length name), none)
unfolding scan_path
scan_path-slash [] [] i n e = ground arith
scan_path-slash [] (c ∷ rest) i n e = ground arith
scan_path-slash (c ∷ cs) rest i n e = ground (arith, scan_path-slash cs rest (i + 1) n.3 e)

scan_path-end :
    (name rest : List ℕ) (i : ℕ)
    → IsName name
    → first rest ≡ 0
    → scan_path (name ++ rest) i ≡ (none, none)
unfolding scan_path
scan_path-end [] [] i n e = refl
scan_path-end [] (c ∷ rest) i n e = ground arith
scan_path-end (c ∷ cs) rest i n e = ground (arith, scan_path-end cs rest (i + 1) n.3 e)

skip_slashes-all :
    (n : ℕ) (rest : List ℕ) → first rest ≢ slash → skip_slashes (replicate n slash ++ rest) ≡ rest
unfolding skip_slashes
skip_slashes-all zero [] ne = refl
skip_slashes-all zero (c ∷ cs) ne = ground arith
skip_slashes-all (suc n) rest ne = ground (arith, skip_slashes-all n rest ne)

drop-suc-name :
    (name : List ℕ) (c : ℕ) (rest : List ℕ) → drop (suc (length name)) (name ++ c ∷ rest) ≡ rest
drop-suc-name [] c rest = refl
drop-suc-name (d ∷ ds) c rest = drop-suc-name ds c rest

set-name :
    (name : List ℕ) (c d : ℕ) (rest : List ℕ)
    → set (name ++ c ∷ rest) (length name) d ≡ name ++ d ∷ rest
set-name [] c d rest = refl
set-name (a ∷ name) c d rest = ap (λ x. a ∷ x) (set-name name c d rest)

-- The forms of a path: the name of a device, a colon and slashes; slashes; a colon and slashes; or a
-- name, without one of these marks behind it. The last list is the rest.
pub data Form : Type 0 where
  in_device : List ℕ → ℕ → List ℕ → Form
  in_boot : ℕ → List ℕ → Form
  in_current : ℕ → List ℕ → Form
  relative : List ℕ → List ℕ → Form

unfoldable pub path_of : Form → List ℕ
path_of (in_device name n rest) = name ++ colon ∷ (replicate n slash ++ rest)
path_of (in_boot n rest) = slash ∷ (replicate n slash ++ rest)
path_of (in_current n rest) = colon ∷ (replicate n slash ++ rest)
path_of (relative name rest) = name ++ rest

-- The slashes end where the rest starts, and a name that is relative ends at the end of the path or at
-- a slash that is not its first byte.
unfoldable pub IsForm : Form → Type 0
IsForm (in_device name n rest) = IsName name × (name ≢ []) × (first rest ≢ slash)
IsForm (in_boot n rest) = first rest ≢ slash
IsForm (in_current n rest) = first rest ≢ slash
IsForm (relative name rest) =
    IsName name × ((first rest ≡ 0) ⊎ ((first rest ≡ slash) × (name ≢ [])))

-- What `get_device` makes of a path of each form.
unfoldable pub outcome : {D : Type 0} → Vops D → Form → Vfs D → Result (Started D)
outcome ops (in_device name n rest) v =
    let named = name ++ 0 ∷ (replicate n slash ++ rest) in
    vfs_get_root ops named v >>= (λ r. ok (start rest named r))
outcome ops (in_boot n rest) v = ok (start rest (path_of (in_boot n rest)) (vfs_get_bootfs v))
outcome ops (in_current n rest) v =
    let path = path_of (in_current n rest) in
    let held = inode_ref_inc v.pwd v in
    if v.pwd == 0
    then ok (fail noent, path, v)
    else if v.in_fs v.pwd == 0
    then panic
    else ops.fsop_get_root (v.in_fs v.pwd) held
      >>= (λ root. inode_ref_dec ops v.pwd root.1 >>= (λ u. ok (ret (rest, root.0), path, u)))
outcome ops (relative name rest) v = ok (start (name ++ rest) (name ++ rest) (vfs_get_curdir v))

slashes_of :
    (path : List ℕ)
    → (n : ℕ) × (rest : List ℕ) × (first rest ≢ slash) × (path ≡ replicate n slash ++ rest)
slashes_of [] = (0, [], λ e. ground arith, refl)
slashes_of (c ∷ cs) = elim (Bool-cases (c == slash)) [
  | inl e ↦ let (n, rest, ne, eq) = slashes_of cs in (suc n, rest, ne, ground arith)
  | inr e ↦ (0, c ∷ cs, (λ e'. ground arith), refl)
]

-- Where the name at the start of a path ends.
abbrev Ending : List ℕ → Type 0
Ending rest = (first rest ≡ 0) ⊎ ((first rest ≡ slash) ⊎ ((tail : List ℕ) × (rest ≡ colon ∷ tail)))

cut_path :
    (path : List ℕ)
    → (name : List ℕ) × (rest : List ℕ) × IsName name × (path ≡ name ++ rest) × Ending rest
cut_path [] = ([], [], tt, refl, inl refl)
cut_path (c ∷ cs) = elim (Bool-cases (c == 0)) [
  | inl e ↦ ([], c ∷ cs, tt, refl, inl (ground arith))
  | inr e ↦ elim (Bool-cases (c == slash)) [
    | inl e' ↦ ([], c ∷ cs, tt, refl, inr (inl (ground arith)))
    | inr e' ↦ elim (Bool-cases (c == colon)) [
      | inl e'' ↦ ([], c ∷ cs, tt, refl, inr (inr (cs, ground arith)))
      | inr e'' ↦
          let (name, rest, n, eq, end) = cut_path cs in
          (
            c ∷ name,
            rest,
            ((λ z. ground arith), (λ z. ground arith), (λ z. ground arith), n),
            ap (λ x. c ∷ x) eq,
            end,
          )
    ]
  ]
]

-- A path that starts with a name and a colon.
colon_form :
    (name tail : List ℕ) → IsName name → (f : Form) × IsForm f × (path_of f ≡ name ++ colon ∷ tail)
unfolding IsForm path_of
colon_form [] tail n =
    let (k, rest, ne, eq) = slashes_of tail in (in_current k rest, ne, ap (λ x. colon ∷ x) (sym eq))
colon_form (c ∷ cs) tail n =
    let (k, rest, ne, eq) = slashes_of tail in
    (
      in_device (c ∷ cs) k rest,
      (n, (λ z. ground arith), ne),
      ap (λ x. (c ∷ cs) ++ colon ∷ x) (sym eq),
    )

slash_form :
    (name rest : List ℕ)
    → IsName name
    → first rest ≡ slash
    → (f : Form) × IsForm f × (path_of f ≡ name ++ rest)
unfolding IsForm path_of
slash_form [] [] n e = ground arith
slash_form [] (c ∷ cs) n e =
    let (k, rest, ne, eq) = slashes_of cs in
    (in_boot k rest, ne, ap₂ (λ x y. x ∷ y) (sym e) (sym eq))
slash_form (c ∷ cs) rest n e = (relative (c ∷ cs) rest, (n, inr (e, (λ z. ground arith))), refl)

-- Every path has one of the forms.
form_of : (path : List ℕ) → (f : Form) × IsForm f × (path_of f ≡ path)
unfolding IsForm path_of
form_of path =
    let (name, rest, n, eq, end) = cut_path path in
    elim end [
      | inl e ↦ (relative name rest, (n, inl e), sym eq)
      | inr (inl e) ↦ let (f, h, p) = slash_form name rest n e in (f, h, p ∙ sym eq)
      | inr (inr (tail, e)) ↦
          let (f, h, p) = colon_form name tail n in (f, h, p ∙ ap (λ x. name ++ x) (sym e) ∙ sym eq)
    ]

-- What `start` says of the memory of the path.
started-path :
    {D : Type 0} (subpath path : List ℕ) (x : Result (Ret ℕ × Vfs D)) (r : Started D)
    → (x >>= (λ a. ok (start subpath path a))) ≡ ok r
    → r.1 ≡ path
started-path subpath path (ok a) r e = ground arith
started-path subpath path (err a) r e = ground arith
started-path subpath path panic r e = ground arith

module _ {D : Type 0} (ops : Vops D) (subpath path : List ℕ) where
  -- Giving back `node` once the root is known.
  started_dec :
      (root : ℕ) (q : Result (Vfs D))
      → ((q >>= (λ u. ok (ret root, u))) >>= (λ r. ok (start subpath path r)))
        ≡ (q >>= (λ u. ok (ret (subpath, root), path, u)))
  started_dec root (ok u) = refl
  started_dec root (err e) = refl
  started_dec root panic = refl

  started_root :
      (node : ℕ) (q : Result (ℕ × Vfs D))
      → ((q >>= (λ root. inode_ref_dec ops node root.1 >>= (λ u. ok (ret root.0, u))))
          >>= (λ r. ok (start subpath path r)))
        ≡ (q >>= (λ root.
            inode_ref_dec ops node root.1 >>= (λ u. ok (ret (subpath, root.0), path, u))))
  started_root node (ok root) = started_dec root.0 (inode_ref_dec ops node root.1)
  started_root node (err e) = refl
  started_root node panic = refl

  root_from-curdir :
      (v : Vfs D)
      → (root_from ops (vfs_get_curdir v) >>= (λ r. ok (start subpath path r))) ≡ (
          if v.pwd == 0
          then ok (fail noent, path, v)
          else if v.in_fs v.pwd == 0
          then panic
          else ops.fsop_get_root (v.in_fs v.pwd) (inode_ref_inc v.pwd v) >>= (λ root.
            inode_ref_dec ops v.pwd root.1 >>= (λ u. ok (ret (subpath, root.0), path, u))))
  unfolding root_from vfs_get_curdir inode_ref_inc
  root_from-curdir v = elim (Bool-cases (v.pwd == 0)) [
    | inl e ↦ rw e refl
    | inr e ↦ elim (Bool-cases (v.in_fs v.pwd == 0)) [
      | inl e' ↦ rw (e, e') refl
      | inr e' ↦
          rw (e, e')
            (started_root v.pwd (ops.fsop_get_root (v.in_fs v.pwd) (inode_ref_inc v.pwd v)))
    ]
  ]

module _ {D : Type 0} (ops : Vops D) (v : Vfs D) where
  get_device-named :
      (c : ℕ) (cs : List ℕ) (n : ℕ) (rest : List ℕ)
      → IsName (c ∷ cs)
      → first rest ≢ slash
      → get_device ops (path_of (in_device (c ∷ cs) n rest)) v
        ≡ outcome ops (in_device (c ∷ cs) n rest) v
  unfolding path_of outcome get_device with_marks
  get_device-named c cs n rest name ne =
      let tail = replicate n slash ++ rest in
      let one_more : 0 + length (c ∷ cs) ≡ suc (length cs) = omega arith in
      let at : ℕ → List ℕ → Result (Started D) = λ i named.
        vfs_get_root ops named v
        >>= (λ r. ok (start (skip_slashes (drop (suc i) ((c ∷ cs) ++ colon ∷ tail))) named r)) in
      ap (λ m. with_marks ops ((c ∷ cs) ++ colon ∷ tail) m v)
        (scan_path-colon (c ∷ cs) tail 0 name ∙ ap (λ i. (none, some i)) one_more)
      ∙ ap (λ named. at (length (c ∷ cs)) named) (set-name (c ∷ cs) colon 0 tail)
      ∙ ap
          (λ x.
            vfs_get_root ops ((c ∷ cs) ++ 0 ∷ tail) v
            >>= (λ r. ok (start x ((c ∷ cs) ++ 0 ∷ tail) r)))
          (ap skip_slashes (drop-suc-name (c ∷ cs) colon tail) ∙ skip_slashes-all n rest ne)

  get_device-relative :
      (name rest : List ℕ)
      → IsForm (relative name rest)
      → get_device ops (path_of (relative name rest)) v ≡ outcome ops (relative name rest) v
  unfolding IsForm path_of outcome get_device with_marks
  get_device-relative name rest (n, inl e) =
      ap (λ m. with_marks ops (name ++ rest) m v) (scan_path-end name rest 0 n e)
  get_device-relative [] rest (n, inr e) = ground arith
  get_device-relative (a ∷ name) rest (n, inr e) =
      let one_more : 0 + length (a ∷ name) ≡ suc (length name) = omega arith in
      ap (λ m. with_marks ops ((a ∷ name) ++ rest) m v)
        (scan_path-slash (a ∷ name) rest 0 n e.0 ∙ ap (λ i. (some i, none)) one_more)

  get_device-form : (f : Form) → IsForm f → get_device ops (path_of f) v ≡ outcome ops f v
  unfolding IsForm path_of outcome get_device with_marks scan_path get_root_of
  get_device-form (in_device [] n rest) h = ground arith
  get_device-form (in_device (c ∷ cs) n rest) h = get_device-named c cs n rest h.0 h.2
  get_device-form (in_boot n rest) h =
      ap (λ x. ok (start x (path_of (in_boot n rest)) (vfs_get_bootfs v)))
        (skip_slashes-all n rest h)
  get_device-form (in_current n rest) h =
      ap
        (λ x.
          root_from ops (vfs_get_curdir v) >>= (λ r. ok (start x (path_of (in_current n rest)) r)))
        (skip_slashes-all n rest h)
      ∙ root_from-curdir ops rest (path_of (in_current n rest)) v
  get_device-form (relative name rest) h = get_device-relative name rest h

  -- Every path has one of the four forms, and `get_device` starts where the form says: at what
  -- `vfs_get_root` finds for the name before the colon, with the colon overwritten by a null byte; at
  -- the boot file system; at what `fsop_get_root` gives for the file system of the current directory,
  -- the reference taken on that directory being given back; or at the current directory. The rest of
  -- the path, behind all slashes, is what is left to look up. Without a current directory it returns
  -- -E_NOENT, and a current directory without a file system stops the kernel for a path that starts
  -- with a colon.
  pub get_device-form_of :
      (path : List ℕ)
      → (f : Form) × IsForm f × (path_of f ≡ path) × (get_device ops path v ≡ outcome ops f v)
  get_device-form_of path =
      let (f, h, e) = form_of path in
      (f, h, e, ap (λ p. get_device ops p v) (sym e) ∙ get_device-form f h)

module _ {D : Type 0} (ops : Vops D) (v w : Vfs D) where
  -- A call of `get_device` that returns for a path with a device's name, an error included, leaves the
  -- path with a null byte in place of its colon and nothing else changed; a second call takes that for
  -- the bare name, to be looked up from the current directory.
  pub get_device-again :
      (name : List ℕ) (n : ℕ) (rest : List ℕ)
      → IsForm (in_device name n rest)
      → (r : Started D) → get_device ops (path_of (in_device name n rest)) v ≡ ok r
      → (r.1 ≡ name ++ 0 ∷ (replicate n slash ++ rest))
        × (get_device ops r.1 w ≡ ok (start r.1 r.1 (vfs_get_curdir w)))
  unfolding IsForm outcome path_of
  get_device-again name n rest h r e =
      let named = name ++ 0 ∷ (replicate n slash ++ rest) in
      let left : r.1 ≡ named =
        started-path rest named (vfs_get_root ops named v) r
          (sym (get_device-form ops v (in_device name n rest) h) ∙ e) in
      let again : get_device ops named w ≡ ok (start named named (vfs_get_curdir w)) =
        get_device-form ops w (relative name (0 ∷ (replicate n slash ++ rest))) (h.0, inl refl) in
      (left, subst (λ p. get_device ops p w ≡ ok (start p p (vfs_get_curdir w))) (sym left) again)
