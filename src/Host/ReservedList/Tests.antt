-- ===== src/Host/ReservedList/Tests.antt =====
-- Lists of page frame numbers, as lkm_init() makes them, and of items of one byte.
use clearram.Base.{refl, ℕ, arith, ◌≡◌, [], ◌∷◌, Ends}
use clearram.Host.ReservedList.{pages, list_init, list_append}
use clearram.Host.ReservedList.Laws.{IsList, list_append-IsList}

list_append-IsList_example :
    Ends
      (λ t. IsList t.list × ((li : ℕ) × (t.list.items ≡ (li, 9) ∷ [])))
      (λ t. t.list ≡ list_init 8)
      (list_append 9 (pages (list_init 8) (0x7000 ∷ [])))
list_append-IsList_example =
    list_append-IsList 9 (list_init 8) (0x7000 ∷ [])
      (record { size = refl; offset = omega arith; top = omega arith; free = tt; apart = tt })
      (omega arith, tt)
