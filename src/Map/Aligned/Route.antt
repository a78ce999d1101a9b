-- ===== src/Map/Aligned/Route.antt =====
-- The state of the loop of cr_amd64_map_pages_aligned(): tables that form a tree below the PML4, and
-- the tables of `pt_cur`, which lead to the page that is mapped next.
use clearram.Base.{
  refl, ℕ, ◌≤◌, Result, suc, ◌≡◌, ◌%◌, ◌<◌, arith, false, ◌∙◌, get_field, ok, ◌==◌, Bool-cases, inl,
  ==_iff, inr, ap, sym,
}
use clearram.Map.Aligned.{Tables, Entries, pe_pfn_base, set_slot}
use clearram.Map.Aligned.Source.{Source}
use clearram.Map.Walk.{above, absent, walk}
use clearram.Map.Walk.Tree.{Labels, IsTree}

-- `pt_cur` from `level` up.
pub record IsRoute (table_at : ℕ → Result ℕ) (entries : Entries) (lab : Labels) (slots : ℕ → ℕ)
    (level page : ℕ) : Type 0 where
  pub at_level : (l : ℕ) → level ≤ l → l ≤ 4 → lab.level_of (slots l) ≡ l
  pub at_place : (l : ℕ) → level ≤ l → l ≤ 4 → lab.place_of (slots l) ≡ above l page
  pub present :
      (l : ℕ) → level ≤ l → l < 4 → absent (entries (slots (suc l)) (above l page % 512)) ≡ false
  pub leads :
      (l : ℕ)
      → level ≤ l
      → l < 4
      → table_at (get_field pe_pfn_base (entries (slots (suc l)) (above l page % 512)))
        ≡ ok (slots l)

-- One level of a page walk.
walk-next :
    (table_at : ℕ → Result ℕ) (entries : Entries) (level q r page : ℕ)
    → absent (entries q (above (suc level) page % 512)) ≡ false
    → table_at (get_field pe_pfn_base (entries q (above (suc level) page % 512))) ≡ ok r
    → walk table_at entries (suc (suc level)) q page ≡ walk table_at entries (suc level) r page
unfolding walk
walk-next table_at entries level q r page some at = rw (some, at) refl

-- A page walk to a page of the table that the route ends in.
pub walk-IsRoute :
    (table_at : ℕ → Result ℕ) (entries : Entries) (lab : Labels) (slots : ℕ → ℕ) (page p : ℕ)
    → IsRoute table_at entries lab slots 1 page
    → above 1 p ≡ above 1 page
    → walk table_at entries 4 (slots 4) p ≡ entries (slots 1) (p % 512)
unfolding walk
walk-IsRoute table_at entries lab slots page p route block =
    let step : (l : ℕ)
        → 1 ≤ suc l
        → suc l < 4
        → above (suc l) p ≡ above (suc l) page
        → walk table_at entries (suc (suc l)) (slots (suc (suc l))) p
          ≡ walk table_at entries (suc l) (slots (suc l)) p =
      λ l low high same.
        walk-next table_at entries l _ _ p (rw same (route.present (suc l) low high))
          (rw same (route.leads (suc l) low high)) in
    step 2 (omega arith) (omega arith) (omega (arith, block))
    ∙ step 1 (omega arith) (omega arith) (omega (arith, block))
    ∙ step 0 (omega arith) (omega arith) block

-- The upper tables of a route also lead to each other page below them.
pub IsRoute-move :
    (table_at : ℕ → Result ℕ) (entries : Entries) (lab : Labels) (slots : ℕ → ℕ)
    (low level page page' : ℕ)
    → IsRoute table_at entries lab slots low page
    → low ≤ level
    → ((l : ℕ) → level ≤ l → l ≤ 4 → above l page ≡ above l page')
    → IsRoute table_at entries lab slots level page'
IsRoute-move table_at entries lab slots low level page page' route h same = record {
  at_level = λ l below high. route.at_level l (omega arith) high;
  at_place = λ l below high. route.at_place l (omega arith) high ∙ same l below high;
  present = λ l below high. rw (same l below (omega arith)) at (route.present l (omega arith) high);
  leads = λ l below high. rw (same l below (omega arith)) at (route.leads l (omega arith) high);
}

module _ {H : Type 0} (src : Source H) where
  abbrev pub table_at : Tables H → ℕ → Result ℕ
  table_at t pfn = src.xlate_table pfn t.host

  pub record IsSound (pml4 : ℕ) (lab : Labels) (t : Tables H) : Type 0 where
    pub valid : src.IsValid t.host
    pub tree : IsTree (table_at t) t.entries lab
    pub used : (q : ℕ) → 1 ≤ lab.level_of q → src.Used t.host q
    pub root_level : lab.level_of pml4 ≡ 4
    pub root_place : lab.place_of pml4 ≡ 0

  -- What holds of a state of tables does not depend on the address in it.
  pub IsSound-at_address :
      (pml4 : ℕ) (lab : Labels) (t : Tables H) (va : ℕ)
      → IsSound pml4 lab t
      → IsSound pml4 lab (record t { va_base = va })
  IsSound-at_address pml4 lab t va sound = record {
    valid = sound.valid;
    tree = sound.tree;
    used = sound.used;
    root_level = sound.root_level;
    root_place = sound.root_place;
  }

larger_differs : (a b : ℕ) → b < a → (a == b) ≡ false
larger_differs a b h = ground arith

-- The route with a table of the level below that the entry of its last table leads to.
pub IsRoute-set_slot :
    (table_at : ℕ → Result ℕ) (entries : Entries) (lab : Labels) (slots : ℕ → ℕ) (level page r : ℕ)
    → IsRoute table_at entries lab slots (suc level) page
    → level < 4
    → lab.level_of r ≡ level
    → lab.place_of r ≡ above level page
    → absent (entries (slots (suc level)) (above level page % 512)) ≡ false
    → table_at (get_field pe_pfn_base (entries (slots (suc level)) (above level page % 512))) ≡ ok r
    → IsRoute table_at entries lab (set_slot slots level r) level page
IsRoute-set_slot table_at entries lab slots level page r route below lev place some at = record {
  at_level = λ l low high. elim (Bool-cases (l == level)) [
    | inl same ↦ rw same (omega (arith, lev, (==_iff l level).0 same))
    | inr other ↦ rw other (route.at_level l (grind arith) high)
  ];
  at_place = λ l low high. elim (Bool-cases (l == level)) [
    | inl same ↦ rw same (place ∙ ap (λ (k : ℕ). above k page) (sym ((==_iff l level).0 same)))
    | inr other ↦ rw other (route.at_place l (grind arith) high)
  ];
  present = λ l low high.
      rw (larger_differs (suc l) level (omega arith)) (elim (Bool-cases (l == level)) [
        | inl same ↦ rw ((==_iff l level).0 same) some
        | inr other ↦ route.present l (grind arith) high
      ]);
  leads = λ l low high.
      rw (larger_differs (suc l) level (omega arith)) (elim (Bool-cases (l == level)) [
        | inl same ↦ rw (same, (==_iff l level).0 same) at
        | inr other ↦ rw other (route.leads l (grind arith) high)
      ]);
}
