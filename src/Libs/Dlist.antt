-- ===== src/Libs/Dlist.antt =====
-- libs/list.h: circular doubly linked lists. A node is a number, its address, and the links of all
-- nodes are one store.
pub mod Ring
pub mod Delete
use os_qemu.Prelude.{ℕ, ◌==◌, Bool, if◌then◌else◌}

pub record Links : Type 0 where
  pub prev : ℕ → ℕ
  pub next : ℕ → ℕ

abbrev pub set_link : (ℕ → ℕ) → ℕ → ℕ → ℕ → ℕ
set_link f a v x = if x == a then v else f x

unfoldable pub list_init : Links → ℕ → Links
list_init l elm = record { prev = set_link l.prev elm elm; next = set_link l.next elm elm }

-- `__list_add`: the four writes in their order.
unfoldable pub add_between : Links → ℕ → ℕ → ℕ → Links
add_between l elm prev next = record {
  prev = set_link (set_link l.prev next elm) elm prev;
  next = set_link (set_link l.next prev elm) elm next;
}

-- `__list_del`
unfoldable pub del_between : Links → ℕ → ℕ → Links
del_between l prev next = record {
  next = set_link l.next prev next;
  prev = set_link l.prev next prev;
}

unfoldable pub list_add_after : Links → ℕ → ℕ → Links
unfolding add_between
list_add_after l listelm elm = add_between l elm listelm (l.next listelm)

unfoldable pub list_add_before : Links → ℕ → ℕ → Links
unfolding add_between
list_add_before l listelm elm = add_between l elm (l.prev listelm) listelm

-- `list_add` is `list_add_after`.
unfoldable pub list_add : Links → ℕ → ℕ → Links
unfolding list_add_after
list_add l listelm elm = list_add_after l listelm elm

unfoldable pub list_del : Links → ℕ → Links
unfolding del_between
list_del l listelm = del_between l (l.prev listelm) (l.next listelm)

unfoldable pub list_del_init : Links → ℕ → Links
unfolding list_del list_init
list_del_init l listelm = list_init (list_del l listelm) listelm

unfoldable pub list_empty : Links → ℕ → Bool
list_empty l list = l.next list == list
