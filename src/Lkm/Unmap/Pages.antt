-- ===== src/Lkm/Unmap/Pages.antt =====
-- The two loops of cr_host_lkm_init() that unmap pages, as changes of what a page walk finds.
use clearram.Base.{
  true, false, ℕ, zero, suc, refl, inl, inr, ok, err, [], ◌∷◌, ◌≡◌, Result, Bool, done, ◌/◌, ◌≤◌,
  ◌==◌, if◌then◌else◌, ◌*◌, arith, false, ◌%◌, List, not_both, ap, ◌∙◌, ◌||◌, Bool-cases, ==_iff,
  add64, try, page_size_bytes, u64_mod, fun_ext, ◌+◌, sym,
}
use clearram.Base.Bits.{bit_and_field}
use clearram.Map.Walk.{walk, page_of}
use clearram.Map.Walk.Tree.{Labels, IsTree, IsOpen}
use clearram.Map.Aligned.{Entries, write_entry}
use clearram.Lkm.Unmap.{clear_present, unmap_frame, unmap_reserved, unmap_image}
use clearram.Lkm.Unmap.Clears.{find, written_lem, IsFound}

pub clear_present_lem : (pe : ℕ) → clear_present pe ≡ pe / 2 * 2
clear_present_lem pe = grind (arith, bit_and_field 1 31 (pe % 512))

pub twice_cleared :
    (a b : Bool) (x y : ℕ)
    → y ≡ (if a then x / 2 * 2 else x)
    → (if b then y / 2 * 2 else y) ≡ (if a || b then x / 2 * 2 else x)
twice_cleared true true x y e = omega (arith, e)
twice_cleared true false x y e = e
twice_cleared false true x y e = omega (arith, e)
twice_cleared false false x y e = e

abbrev pub is_page_of : (xlate_ram : ℕ → Result ℕ) (pfn page : ℕ) → Bool
is_page_of xlate_ram pfn page = elim (xlate_ram pfn) [ ok va ↦ page == page_of va | err e ↦ false ]

-- The pages of the frames of the list.
abbrev pub is_listed : (xlate_ram : ℕ → Result ℕ) → List (ℕ × ℕ) → ℕ → Bool
is_listed xlate_ram [] page = false
is_listed xlate_ram ((li, pfn) ∷ items) page =
    is_page_of xlate_ram pfn page || is_listed xlate_ram items page

-- Each frame of the list has a page.
abbrev pub AllFound : (xlate_ram : ℕ → Result ℕ) → List (ℕ × ℕ) → Type 0
AllFound xlate_ram [] = Unit {0}
AllFound xlate_ram ((li, pfn) ∷ items) =
    ((va : ℕ) × (xlate_ram pfn ≡ ok va)) × AllFound xlate_ram items

module _ (table_at xlate_ram : ℕ → Result ℕ) (pml4 : ℕ) (lab : Labels) where
  -- Tables that form a tree below the PML4.
  pub record IsRooted (entries : Entries) : Type 0 where
    pub tree : IsTree table_at entries lab
    pub root_level : lab.level_of pml4 ≡ 4
    pub root_place : lab.place_of pml4 ≡ 0

  abbrev pub found_at : Entries → ℕ → ℕ
  found_at entries page = walk table_at entries 4 pml4 page

  -- The frame is a page of RAM that has been mapped, with some bit besides the present bit.
  abbrev pub IsUnmappable : (pfn : ℕ) → Entries → Type 0
  IsUnmappable pfn entries =
      (va : ℕ) × (xlate_ram pfn ≡ ok va) × IsOpen (page_of va) × (2 ≤ found_at entries (page_of va))

  abbrev pub IsCleared : (at : ℕ → Bool) (before after : Entries) → Type 0
  IsCleared at before after =
      (p : ℕ)
      → IsOpen p
      → found_at after p ≡ (if at p then found_at before p / 2 * 2 else found_at before p)

  is_page_of_lem :
      (pfn va p : ℕ) → xlate_ram pfn ≡ ok va → is_page_of xlate_ram pfn p ≡ (p == page_of va)
  is_page_of_lem pfn va p at = rw (is_page_of, at) refl

  -- With the entry that a page walk finds.
  unmap_found :
      (pfn va table : ℕ) (entries : Entries) (is_open : IsOpen (page_of va))
      → IsRooted entries
      → xlate_ram pfn ≡ ok va
      → IsFound table_at xlate_ram pml4 lab va is_open entries 4 pml4 table
      → (after : Entries) × (unmap_frame table_at xlate_ram pml4 pfn entries ≡ done after)
        × IsRooted after
        × IsCleared (is_page_of xlate_ram pfn) entries after
  unfolding unmap_frame
  unmap_found pfn va table entries is_open rooted at found = (
    write_entry table (page_of va % 512) pe entries,
    rw (unmap_frame, at) found.cleared,
    record {
      tree = λ q j upper small op some.
          let same = rw (kept q j upper) at some in
          let (r, leads, below, place) = rooted.tree q j upper small op same in
          (r, rw (kept q j upper) leads, below, place);
      root_level = rooted.root_level;
      root_place = rooted.root_place;
    },
    λ p op.
        written_lem table_at xlate_ram pml4 lab va is_open entries table pe rooted.tree
          rooted.root_level rooted.root_place found p op
        ∙ value p
        ∙ ap (λ (b : Bool). if b then found_at entries p / 2 * 2 else found_at entries p)
            (sym (is_page_of_lem pfn va p at)),
  )
    where
      pe : ℕ
      pe = clear_present (entries table (page_of va % 512))

      kept :
          (q j : ℕ)
          → 2 ≤ lab.level_of q
          → write_entry table (page_of va % 512) pe entries q j ≡ entries q j
      kept q j upper =
          rw
            (not_both q table j (page_of va % 512)
              (λ e. omega (arith, upper, found.lowest, ap lab.level_of e)))
            refl

      value :
          (p : ℕ)
          → (if p == page_of va then pe else found_at entries p)
            ≡ (if p == page_of va then found_at entries p / 2 * 2 else found_at entries p)
      value p = elim (Bool-cases (p == page_of va)) [
        | inr other ↦ rw other refl
        | inl same ↦
            let reached = found.reached entries (λ r j upper. refl) in
            rw (same, (==_iff p (page_of va)).0 same, reached)
              (clear_present_lem (entries table (page_of va % 512)))
      ]

  pub unmap_frame-IsCleared :
      (pfn : ℕ) (entries : Entries)
      → IsRooted entries
      → IsUnmappable pfn entries
      → (after : Entries) × (unmap_frame table_at xlate_ram pml4 pfn entries ≡ done after)
        × IsRooted after
        × IsCleared (is_page_of xlate_ram pfn) entries after
  unmap_frame-IsCleared pfn entries rooted (va, at, is_open, mapped) =
      let (table, found) =
        find table_at xlate_ram pml4 lab va is_open entries 3 pml4 rooted.tree (omega arith)
          rooted.root_level (omega (arith, rooted.root_place, is_open.0))
          (λ e. omega (arith, e, mapped)) in
      unmap_found pfn va table entries is_open rooted at found

  abbrev pub AllUnmappable : List (ℕ × ℕ) → Entries → Type 0
  AllUnmappable [] entries = Unit {0}
  AllUnmappable ((li, pfn) ∷ items) entries = IsUnmappable pfn entries × AllUnmappable items entries

  still_unmappable :
      (at : ℕ → Bool) (items : List (ℕ × ℕ)) (before after : Entries)
      → IsCleared at before after
      → AllUnmappable items before
      → AllUnmappable items after
  still_unmappable at [] before after cleared h = tt
  still_unmappable at ((li, pfn) ∷ items) before after cleared ((va, xlated, is_open, mapped), h) =
      (
        (va, xlated, is_open, ground (arith, cleared (page_of va) is_open, mapped)),
        still_unmappable at items before after cleared h,
      )

  -- On page tables that form a tree, the loop over the list of reserved pages returns 0 where each
  -- frame of the list is a page of RAM that has been mapped with some bit besides the present bit,
  -- and clears the present bit of the entries of these pages; a page walk finds every other page as
  -- before. A frame may be listed more than once.
  pub unmap_reserved-IsCleared :
      (items : List (ℕ × ℕ)) (entries : Entries)
      → IsRooted entries
      → AllUnmappable items entries
      → (after : Entries) × (unmap_reserved table_at xlate_ram pml4 items entries ≡ done after)
        × IsRooted after
        × IsCleared (is_listed xlate_ram items) entries after
  unfolding unmap_reserved
  unmap_reserved-IsCleared [] entries rooted h = (entries, refl, rooted, λ p op. refl)
  unmap_reserved-IsCleared ((li, pfn) ∷ items) entries rooted (h, hs) =
      let (next, first, rooted', cleared) = unmap_frame-IsCleared pfn entries rooted h in
      let (after, rest, rooted'', cleared') =
        unmap_reserved-IsCleared items next rooted'
          (still_unmappable (is_page_of xlate_ram pfn) items entries next cleared hs) in
      (
        after,
        rw first rest,
        rooted'',
        λ p op.
            cleared' p op
            ∙ twice_cleared (is_page_of xlate_ram pfn p) (is_listed xlate_ram items p)
                (found_at entries p) (found_at next p) (cleared p op),
      )

-- The frames of the image, as a list.
abbrev pub image_frames : (virt_to_phys : ℕ → ℕ) (clear_image_base left npage : ℕ) → List (ℕ × ℕ)
image_frames virt_to_phys clear_image_base zero npage = []
image_frames virt_to_phys clear_image_base (suc left) npage =
    (0, virt_to_phys (add64 clear_image_base (npage * page_size_bytes % u64_mod)))
    ∷ image_frames virt_to_phys clear_image_base left (npage + 1)

-- The loop over the image does for its frames what the loop over the list does for the listed ones.
pub unmap_image_lem :
    (table_at xlate_ram : ℕ → Result ℕ) (pml4 : ℕ) (virt_to_phys : ℕ → ℕ)
    (clear_image_base left npage : ℕ) (entries : Entries)
    → unmap_image table_at xlate_ram pml4 virt_to_phys clear_image_base left npage entries
      ≡ unmap_reserved table_at xlate_ram pml4
          (image_frames virt_to_phys clear_image_base left npage)
          entries
unfolding unmap_image unmap_reserved
unmap_image_lem table_at xlate_ram pml4 virt_to_phys clear_image_base zero npage entries = refl
unmap_image_lem table_at xlate_ram pml4 virt_to_phys clear_image_base (suc left) npage entries =
    ap
      (try (
        unmap_frame table_at xlate_ram pml4
          (virt_to_phys (add64 clear_image_base (npage * page_size_bytes % u64_mod))) entries))
      (fun_ext (λ e.
        unmap_image_lem table_at xlate_ram pml4 virt_to_phys clear_image_base left (npage + 1) e))
