-- ===== src/Lkm/Unmap/Tests.antt =====
-- One frame that is mapped at page 5, through three tables.
use clearram.Base.{
  contradictory, ℕ, refl, inl, inr, [], ◌∷◌, ok, done, Outcome, Bool-cases, Result, if◌then◌else◌,
  ◌≡◌, ◌==◌, ◌*◌, arith, ◌&&◌, both_equal, ==_iff, sym, ap, ◌∙◌,
}
use clearram.Map.Layout.{va_to_pe_idx}
use clearram.Map.Walk.{absent, walk}
use clearram.Map.Walk.Tree.{Labels, IsTree}
use clearram.Map.Aligned.{Entries}
use clearram.Lkm.Unmap.{unmap_reserved, unmap_frame, clear_entry}
use clearram.Lkm.Unmap.Pages.{IsRooted, IsCleared, is_listed, unmap_reserved-IsCleared}

abbrev one_page : Entries
one_page q j =
    if q == 0x1000 && (j == 0)
    then 0x2003
    else if q == 0x2000 && (j == 0)
    then 0x3003
    else if q == 0x3000 && (j == 0)
    then 0x4003
    else if q == 0x4000 && (j == 5)
    then 0x8003
    else 0

abbrev labels : Labels
labels = record {
  level_of = λ q.
      if q == 0x1000
      then 4
      else if q == 0x2000
      then 3
      else if q == 0x3000
      then 2
      else if q == 0x4000
      then 1
      else 0;
  place_of = λ q. 0;
}

abbrev identity : ℕ → Result ℕ
identity pfn = ok (pfn * 0x1000)

abbrev at_page_5 : ℕ → Result ℕ
at_page_5 pfn = ok 0x5000

one_page-IsTree : IsTree identity one_page labels
one_page-IsTree q j upper small op some = elim (Bool-cases (q == 0x1000 && (j == 0))) [
  | inl hit ↦
      let (table, idx) = both_equal q 0x1000 j 0 hit in
      (0x2000, rw (table, idx) refl, rw table refl, omega (arith, idx))
  | inr not_4 ↦ elim (Bool-cases (q == 0x2000 && (j == 0))) [
    | inl hit ↦
        let (table, idx) = both_equal q 0x2000 j 0 hit in
        (0x3000, rw (table, idx) refl, rw table refl, omega (arith, idx))
    | inr not_3 ↦ elim (Bool-cases (q == 0x3000 && (j == 0))) [
      | inl hit ↦
          let (table, idx) = both_equal q 0x3000 j 0 hit in
          (0x4000, rw (table, idx) refl, rw table refl, omega (arith, idx))
      | inr not_2 ↦ elim (Bool-cases (q == 0x4000)) [
        | inl lowest ↦ absurd (omega (arith, rw ((==_iff q 0x4000).0 lowest) at upper))
        | inr not_1 ↦
            let vacant : one_page q j ≡ 0 = rw (not_4, not_3, not_2, not_1) refl in
            absurd (contradictory (sym (ap absent vacant) ∙ some))
      ]
    ]
  ]
]

abbrev rooted : IsRooted identity at_page_5 0x1000 labels one_page
rooted = record { tree = one_page-IsTree; root_level = refl; root_place = refl }

unmap_reserved-IsCleared_example :
    (after : Entries) × (unmap_reserved identity at_page_5 0x1000 ((0, 8) ∷ []) one_page
      ≡ done after)
    × IsRooted identity at_page_5 0x1000 labels after
    × IsCleared identity at_page_5 0x1000 labels (is_listed at_page_5 ((0, 8) ∷ [])) one_page after
unfolding walk
unmap_reserved-IsCleared_example =
    unmap_reserved-IsCleared identity at_page_5 0x1000 labels ((0, 8) ∷ []) one_page rooted
      ((0x5000, refl, (omega arith, λ e. omega (arith, e)), omega arith), tt)

abbrev entry_after : Outcome Entries → ℕ
entry_after (done e) = e 0x4000 5
entry_after _ = 0

cleared_run :
    entry_after (unmap_reserved identity at_page_5 0x1000 ((0, 8) ∷ (0, 8) ∷ []) one_page) ≡ 0x8002
unfolding unmap_reserved unmap_frame clear_entry va_to_pe_idx
cleared_run = refl
