-- ===== src/Prelude/Errors.antt =====
-- libs/error.h: the kernel's error codes, and what a kernel function can end in.
use os_qemu.Prelude.{◌≡◌, refl, ap, arith}

-- `-E_...` of libs/error.h.
pub data Error : Type 0 where
  unspecified bad_proc inval no_mem no_free_proc fault swap_fault inval_elf killed e_panic : Error
  timeout too_big no_dev na_dev busy noent isdir notdir xdev unimp seek max_open exists notempty :
      Error

-- A failed `assert` or a `panic` stops the kernel.
pub data Result {ℓ} (A : Type ℓ) : Type ℓ where
  ok : A → Result A
  err : Error → Result A
  panic : Result A

infixl 5 ◌>>=◌
abbrev pub ◌>>=◌ {ℓ κ} : {A : Type ℓ} {B : Type κ} → Result A → (A → Result B) → Result B
ok a >>= f = f a
err e >>= f = err e
panic >>= f = panic

-- A chain that comes to an end: what its first call returned, and what that led to.
pub bind-ok {ℓ κ} :
    {A : Type ℓ} {B : Type κ} (x : Result A) (f : A → Result B) (b : B)
    → (x >>= f) ≡ ok b
    → (a : A) × (x ≡ ok a) × (f a ≡ ok b)
bind-ok (ok a) f b e = (a, refl, e)
bind-ok (err x) f b e = ground arith
bind-ok panic f b e = ground arith

ok_value {ℓ} : {A : Type ℓ} → A → Result A → A
ok_value a (ok b) = b
ok_value a (err e) = a
ok_value a panic = a

pub ok-injective {ℓ} : {A : Type ℓ} (a b : A) → ok a ≡ ok b → a ≡ b
unfolding ok_value
ok-injective a b e = ap (ok_value a) e

-- A call that stops the kernel does not return.
pub stopped {ℓ} : {A : Type ℓ} (a : A) → ¬ (panic ≡ ok a)
stopped a e = ground arith
