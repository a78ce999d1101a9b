-- ===== src/Host/ReservedList.antt =====
-- The list of subr_host.c and hostdef.h: cr_host_list_append() and cr_host_list_free(). The items
-- reachable from `head` are the list of their addresses and contents, in the order of the `next`
-- pointers; `head` is NULL when it is empty.
pub mod Laws
mod Tests
use clearram.Base.{
  ℕ, ◌+◌, ◌%◌, Bool, true, false, if◌then◌else◌, ltb, ◌==◌, ◌||◌, not, bit_and, neg64,
  page_size_bytes, add64, sub64, List, [], ◌∷◌, ◌++◌, Outcome, done, failed, enomem, try,
}
use clearram.Host.Kernel.{Supply, vmalloc}

-- struct crh_list. An item of it is its address and the value that the caller keeps in it.
pub record CrhList : Type 0 where
  pub items : List (ℕ × ℕ)
  pub item_size : ℕ
  pub page_cur : ℕ
  pub page_off : ℕ

-- CRH_LIST_INIT.
abbrev pub list_init : ℕ → CrhList
list_init size = record { items = []; item_size = size; page_cur = 0; page_off = 0 }

abbrev pub sizeof_litem : ℕ
sizeof_litem = 8

pub record Pages : Type 0 where
  pub list : CrhList
  pub supply : Supply

abbrev pub pages : CrhList → Supply → Pages
pages l s = record { list = l; supply = s }

-- The size of an item, made a multiple of 8.
unfoldable pub isize_aligned : CrhList → ℕ
isize_aligned l =
    let isize = add64 sizeof_litem l.item_size in
    if (isize % 8) == 0 then isize else bit_and isize 0xf8

abbrev pub is_empty : List (ℕ × ℕ) → Bool
is_empty [] = true
is_empty (i ∷ is) = false

-- A fresh page, where the list has none or the current one is too full.
unfoldable pub list_room : Pages → Outcome Pages
unfolding isize_aligned
list_room s =
    let l = s.list in
    let got = vmalloc s.supply in
    if is_empty l.items || ltb (sub64 page_size_bytes l.page_off) (isize_aligned l)
    then if got.p == 0
      then failed enomem (pages l got.supply)
      else done (pages (record l { page_cur = got.p; page_off = 0 }) got.supply)
    else done s

-- The new item behind the last one. `value` is what the caller writes to `*pitem`.
unfoldable pub list_link : ℕ → Pages → Pages
unfolding isize_aligned
list_link value s =
    let l = s.list in
    let li = add64 l.page_cur l.page_off in
    pages
      (record l {
        items = l.items ++ (li, value) ∷ [];
        page_off = add64 l.page_off (isize_aligned l);
      })
      s.supply

unfoldable pub list_append : ℕ → Pages → Outcome Pages
unfolding list_room list_link
list_append value s = try (list_room s) λ t. done (list_link value t)

-- The addresses that cr_host_list_free() hands to cr_host_vmfree(), in order.
unfoldable pub list_free : List (ℕ × ℕ) → List ℕ
list_free [] = []
list_free ((li, v) ∷ []) = li ∷ []
list_free ((li, v) ∷ (next, w) ∷ rest) =
    let others = list_free ((next, w) ∷ rest) in
    if bit_and li (neg64 page_size_bytes) == bit_and next (neg64 page_size_bytes)
    then others
    else li ∷ others
