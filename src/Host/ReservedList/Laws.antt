-- ===== src/Host/ReservedList/Laws.antt =====
-- Where the items of the list lie, and what is handed to the allocator at the end.
use clearram.Base.{
  refl, length, ◌∙◌, ◌||◌, Ends-try, ℕ, ◌+◌, ◌-◌, ◌^◌, ◌<◌, ◌≤◌, List, [], ◌∷◌, ◌++◌, ◌≡◌, arith,
  ◌⊎◌, Ends, add64, ap, Bool, ◌||◌, ltb, sub64, ◌≢◌, page_size_bytes, Bool-cases, inr, ◌*◌, inl,
  length, ◌==◌, bit_and, neg64, true,
}
use clearram.Base.Bits.{bit_and_high}
use clearram.Host.Kernel.{Supply, vmalloc}
use clearram.Host.ReservedList.{
  CrhList, isize_aligned, list_link, Pages, list_append, list_room, pages, is_empty, list_free,
}

-- `a..a + n` and `b..b + m` share no byte.
abbrev pub Apart : (a n b m : ℕ) → Type 0
Apart a n b m = (a + n ≤ b) ⊎ (b + m ≤ a)

-- The bytes `b..b + m` are in none of the items, which take 16 bytes each.
abbrev pub ApartItems : (b m : ℕ) → List (ℕ × ℕ) → Type 0
ApartItems b m [] = Unit {0}
ApartItems b m ((a, v) ∷ is) = Apart a 16 b m × ApartItems b m is

-- No two items overlap.
abbrev pub ItemsApart : List (ℕ × ℕ) → Type 0
ItemsApart [] = Unit {0}
ItemsApart ((a, v) ∷ is) = ApartItems a 16 is × ItemsApart is

ApartItems-sub :
    (b m c k : ℕ) (is : List (ℕ × ℕ))
    → b ≤ c
    → c + k ≤ b + m
    → ApartItems b m is
    → ApartItems c k is
ApartItems-sub b m c k [] h j r = tt
ApartItems-sub b m c k ((a, v) ∷ is) h j r = (omega arith, ApartItems-sub b m c k is h j r.1)

ApartItems-snoc :
    (b m a v : ℕ) (is : List (ℕ × ℕ))
    → ApartItems b m is
    → Apart a 16 b m
    → ApartItems b m (is ++ (a, v) ∷ [])
ApartItems-snoc b m a v [] r s = (s, tt)
ApartItems-snoc b m a v ((c, w) ∷ is) r s = (r.0, ApartItems-snoc b m a v is r.1 s)

ItemsApart-snoc :
    (a v : ℕ) (is : List (ℕ × ℕ))
    → ItemsApart is
    → ApartItems a 16 is
    → ItemsApart (is ++ (a, v) ∷ [])
ItemsApart-snoc a v [] r s = (tt, tt)
ItemsApart-snoc a v ((c, w) ∷ is) r s =
    (ApartItems-snoc c 16 a v is r.0 (omega arith), ItemsApart-snoc a v is r.1 s.1)

-- A list of 8-byte values. The rest of its current page is in no item, and no item overlaps another.
pub record IsList (l : CrhList) : Type 0 where
  pub size : l.item_size ≡ 8
  pub offset : l.page_off ≤ 4096
  pub top : l.page_cur + 4096 < 2 ^ 64
  pub free : ApartItems (l.page_cur + l.page_off) (4096 - l.page_off) l.items
  pub apart : ItemsApart l.items

-- A page that the allocator gives is in no item, and not at the end of the address space.
abbrev pub IsFresh : List (ℕ × ℕ) → Supply → Type 0
IsFresh is s = (vmalloc s).p + 4096 < 2 ^ 64 × ApartItems (vmalloc s).p 4096 is

isize_eight : (l : CrhList) → l.item_size ≡ 8 → isize_aligned l ≡ 16
unfolding isize_aligned
isize_eight l h = ground arith

-- The room for one more item.
abbrev HasRoom : CrhList → Pages → Type 0
HasRoom l t = (t.list.items ≡ l.items) × IsList t.list × (t.list.page_off + 16 ≤ 4096)

list_room-HasRoom :
    (l : CrhList) (s : Supply)
    → IsList l
    → IsFresh l.items s
    → Ends (HasRoom l) (λ t. t.list ≡ l) (list_room (pages l s))
unfolding list_room
list_room-HasRoom l s is fresh = elim (Bool-cases full) [
  | inr fits ↦
      rw (fits, list_room) (refl, is, unfold isize_aligned in ground (arith, is.size, is.offset))
  | inl e ↦ elim (Bool-cases ((vmalloc s).p == 0)) [
    | inl none_left ↦ rw (e, none_left, list_room) (refl, refl)
    | inr page ↦
        rw (e, page, list_room)
          (
            refl,
            record {
              size = is.size;
              offset = omega arith;
              top = fresh.0;
              free =
                  ApartItems-sub (vmalloc s).p 4096 ((vmalloc s).p + 0) 4096 l.items (omega arith)
                    (omega arith) fresh.1;
              apart = is.apart;
            },
            omega arith,
          )
  ]
]
  where
    full : Bool
    full = is_empty l.items || ltb (sub64 page_size_bytes l.page_off) (isize_aligned l)

abbrev Appended : ℕ → CrhList → Pages → Type 0
Appended value l t = IsList t.list × ((li : ℕ) × (t.list.items ≡ l.items ++ (li, value) ∷ []))

list_link-Appended :
    (value : ℕ) (l : CrhList) (t : Pages) → HasRoom l t → Appended value l (list_link value t)
unfolding list_link
list_link-Appended value l t (same, is, room) =
    let li = t.list.page_cur + t.list.page_off in
    let at_li : add64 t.list.page_cur t.list.page_off ≡ li = omega (arith, is.top, is.offset) in
    let off : add64 t.list.page_off (isize_aligned t.list) ≡ t.list.page_off + 16 =
      rw (isize_eight t.list is.size) (omega arith) in
    rw (at_li, off, list_link)
      (
        record {
          size = is.size;
          offset = room;
          top = is.top;
          free =
              ApartItems-snoc _ _ li value t.list.items
                (ApartItems-sub li (4096 - t.list.page_off) _ _ t.list.items (omega arith)
                  (omega arith) is.free)
                (omega arith);
          apart = ItemsApart-snoc li value t.list.items is.apart (
              ApartItems-sub li (4096 - t.list.page_off) li 16 t.list.items (omega arith)
                (omega arith) is.free);
        },
        (li, ap (λ is'. is' ++ (li, value) ∷ []) same),
      )

-- Appending a page frame number puts it behind the others, at an address that overlaps no item, if
-- a page that the allocator gives overlaps none; without memory the call returns -ENOMEM and
-- leaves the list as it was.
pub list_append-IsList :
    (value : ℕ) (l : CrhList) (s : Supply)
    → IsList l
    → IsFresh l.items s
    → Ends
        (λ t. IsList t.list × ((li : ℕ) × (t.list.items ≡ l.items ++ (li, value) ∷ [])))
        (λ t. t.list ≡ l)
        (list_append value (pages l s))
unfolding list_append
list_append-IsList value l s is fresh =
    Ends-try (HasRoom l) (Appended value l) (λ t. t.list ≡ l) (list_room (pages l s)) _
      (list_room-HasRoom l s is fresh) (list_link-Appended value l)

-- Items of 16 bytes that follow one another in a page.
abbrev pub in_page : (base i : ℕ) → List ℕ → List (ℕ × ℕ)
in_page base i [] = []
in_page base i (v ∷ vs) = (base + 16 * i, v) ∷ in_page base (i + 1) vs

same_page :
    (page i : ℕ)
    → page * 4096 + 4096 ≤ 2 ^ 64
    → i < 255
    → (bit_and (page * 4096 + 16 * i) (neg64 page_size_bytes)
        == bit_and (page * 4096 + 16 * (i + 1)) (neg64 page_size_bytes))
      ≡ true
same_page page i top fits = ground (
  arith,
  bit_and_high 12 52 (page * 4096 + 16 * i),
  bit_and_high 12 52 (page * 4096 + 16 * (i + 1)),
)

list_free-in_page :
    (page i v : ℕ) (vs : List ℕ)
    → page * 4096 + 4096 ≤ 2 ^ 64
    → i + length vs < 256
    → list_free (in_page (page * 4096) i (v ∷ vs)) ≡ (page * 4096 + 16 * (i + length vs)) ∷ []
unfolding list_free
list_free-in_page page i v [] top fits = ap (λ (n : ℕ). (page * 4096 + 16 * n) ∷ []) (omega arith)
list_free-in_page page i v (w ∷ ws) top fits = rw (same_page page i top (omega arith)) (
    list_free-in_page page (i + 1) w ws top (omega arith)
    ∙ ap (λ (n : ℕ). (page * 4096 + 16 * n) ∷ []) (omega arith))

-- Of a list of two or more items that lie in one page the address of the last one, and that alone, is
-- handed to the allocator; it is inside the page, and not the address that the allocator gave.
pub list_free-last :
    (page v : ℕ) (vs : List ℕ)
    → page * 4096 + 4096 ≤ 2 ^ 64
    → 1 ≤ length vs
    → length vs < 256
    → (list_free (in_page (page * 4096) 0 (v ∷ vs)) ≡ (page * 4096 + 16 * length vs) ∷ [])
      × (page * 4096 + 16 * length vs ≢ page * 4096)
list_free-last page v vs top some_more fits = (
  list_free-in_page page 0 v vs top (omega arith)
      ∙ ap (λ (n : ℕ). (page * 4096 + 16 * n) ∷ []) (omega arith),
  omega arith,
)
