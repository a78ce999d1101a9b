-- ===== src/Map/Walk/Tree.antt =====
-- Page tables that form a tree, and the changes to them that a page walk does not see.
use clearram.Base.{
  ℕ, ◌≡◌, Result, zero, suc, refl, Bool-cases, inl, inr, ◌≤◌, ◌<◌, ◌%◌, ◌^◌, ◌*◌, ap, ◌∙◌, ◌+◌,
  false, get_field, ok, ◌⊎◌, true, arith,
}
use clearram.Map.Walk.{above, absent, walk}
use clearram.Amd64.PageEnt.{pe_pfn_base}
use clearram.Map.Aligned.{Entries}

-- The level of a table, and the number of its place among the tables of its level. Level 0 is that
-- of what is no table.
pub record Labels : Type 0 where
  pub level_of : ℕ → ℕ
  pub place_of : ℕ → ℕ

-- The entry of the PML4 that leads to the PML4 itself.
abbrev pub self_idx : ℕ
self_idx = 0x1f0

abbrev pub IsOpen : (page : ℕ) → Type 0
IsOpen page = (page < 2 ^ 36) × (above 3 page ≡ self_idx → ⊥)

-- The entry on the way to an open page is not that of the PML4 itself.
pub open_place :
    (lab : Labels) (q level page : ℕ)
    → IsOpen page
    → lab.level_of q ≡ suc level
    → lab.place_of q ≡ above (suc level) page
    → lab.level_of q ≡ 4
    → lab.place_of q * 512 + above level page % 512 ≡ self_idx
    → ⊥
open_place lab q level page is_open at_level at_place top self = is_open.1 (
    ap (λ (l : ℕ). above l page) {x = 3} {y = level} (omega (arith, top, at_level))
    ∙ omega (arith, self, at_place))

-- What a present entry of a table above the level of the pages leads to.
abbrev pub IsTree : (table_at : ℕ → Result ℕ) → Entries → Labels → Type 0
IsTree table_at entries lab =
    (q j : ℕ)
    → 2 ≤ lab.level_of q
    → j < 512
    → (lab.level_of q ≡ 4 → lab.place_of q * 512 + j ≡ self_idx → ⊥)
    → absent (entries q j) ≡ false
    → (r : ℕ) × (table_at (get_field pe_pfn_base (entries q j)) ≡ ok r)
      × (lab.level_of r + 1 ≡ lab.level_of q)
      × (lab.place_of r ≡ lab.place_of q * 512 + j)

pub walk-empty :
    (table_at : ℕ → Result ℕ) (entries : Entries) (level table page : ℕ)
    → ((j : ℕ) → entries table j ≡ 0)
    → walk table_at entries level table page ≡ 0
unfolding walk
walk-empty table_at entries zero table page empty = refl
walk-empty table_at entries (suc zero) table page empty = empty (page % 512)
walk-empty table_at entries (suc (suc level)) table page empty =
    rw (empty (above (suc level) page % 512)) refl

-- A table that has just been entered where nothing was before, and is empty.
pub record IsHungIn (table_at : ℕ → Result ℕ) (before after : Entries) (q j : ℕ) : Type 0 where
  pub nothing : absent (before q j) ≡ true
  pub table : ℕ
  pub leads : table_at (get_field pe_pfn_base (after q j)) ≡ ok table
  pub empty : (i : ℕ) → after table i ≡ 0

module _ (table_at table_at' : ℕ → Result ℕ) (before after : Entries) (lab : Labels)
    (tree : IsTree table_at before lab)
    (kept : (pfn r : ℕ) → table_at pfn ≡ ok r → table_at' pfn ≡ ok r) (page : ℕ)
    (is_page : IsOpen page) where
  hung_in_unseen :
      (level q : ℕ)
      → IsHungIn table_at' before after q (above (suc level) page % 512)
      → walk table_at' after (suc (suc level)) q page
        ≡ walk table_at before (suc (suc level)) q page
  unfolding walk
  hung_in_unseen level q hung =
      elim (Bool-cases (absent (after q (above (suc level) page % 512)))) [
        | inl none ↦ rw (none, hung.nothing) refl
        | inr some ↦
            rw (some, hung.nothing, hung.leads)
              (walk-empty table_at' after (suc level) hung.table page hung.empty)
      ]

  -- A page walk sees no change of entries that are not on its way, and no empty table that has been
  -- hung in.
  pub walk_unseen :
      (level q : ℕ)
      → level ≤ 4
      → lab.level_of q ≡ level
      → lab.place_of q ≡ above level page
      → ((l r : ℕ)
          → lab.level_of r ≡ suc l
          → lab.place_of r ≡ above (suc l) page
          → (after r (above l page % 512) ≡ before r (above l page % 512))
            ⊎ ((1 ≤ l) × IsHungIn table_at' before after r (above l page % 512)))
      → walk table_at' after level q page ≡ walk table_at before level q page
  unfolding walk
  walk_unseen zero q high at_level at_place same = refl
  walk_unseen (suc zero) q high at_level at_place same = elim (same 0 q at_level at_place) [
    | inl e ↦ e
    | inr hung ↦ absurd (omega (arith, hung.0))
  ]
  walk_unseen (suc (suc level)) q high at_level at_place same =
      elim (same (suc level) q at_level at_place) [
        | inr hung ↦ hung_in_unseen level q hung.1
        | inl e ↦ elim (Bool-cases (absent (before q (above (suc level) page % 512)))) [
          | inl none ↦ rw (e, none) refl
          | inr some ↦
              let (r, at, below, place) =
                tree q (above (suc level) page % 512) (omega (arith, at_level)) (omega arith)
                  (open_place lab q (suc level) page is_page at_level at_place) some in
              rw (e, some, at, kept _ r at)
                (walk_unseen (suc level) r (omega arith) (omega (arith, at_level, below))
                  (omega (arith, at_place, place)) same)
        ]
      ]
