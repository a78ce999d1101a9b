-- ===== src/Map/Aligned/Descend.antt =====
-- The table of the level below in a round of cr_amd64_map_pages_aligned(): no page walk sees that it
-- is looked up or created, and the route goes one level further down.
use clearram.Base.{
  contradictory, ℕ, refl, inl, inr, if◌then◌else◌, ◌≡◌, ◌≤◌, ◌<◌, ◌==◌, suc, false, ◌*◌, ◌%◌,
  get_field, ◌+◌, ok, ap, arith, ◌∙◌, true, Bool-cases, ==_iff, ◌&&◌, sym, both_equal, ==_refl,
  distinct, not_both,
}
use clearram.Map.Aligned.{Tables, NewTable, set_slot, pe_pfn_base}
use clearram.Map.Aligned.Source.{Source, Grows, IsAllocated}
use clearram.Map.Aligned.Route.{IsRoute, IsSound, table_at, IsRoute-set_slot}
use clearram.Map.Walk.{above, absent, walk}
use clearram.Map.Walk.Tree.{Labels, IsTree, IsOpen, self_idx, walk_unseen, open_place}

abbrev pub add_label : (table level place : ℕ) → Labels → Labels
add_label table level place lab = record {
  level_of = λ q. if q == table then level else lab.level_of q;
  place_of = λ q. if q == table then place else lab.place_of q;
}

module _ {H : Type 0} (src : Source H) (pml4 : ℕ) where
  -- What a page walk from the PML4 finds.
  abbrev pub mapped_at : Tables H → ℕ → ℕ
  mapped_at t page = walk (table_at src t) t.entries 4 pml4 page

  -- The state behind the look-up.
  pub record IsBelow (lab : Labels) (slots : ℕ → ℕ) (level page : ℕ) (t : Tables H) (n : NewTable H)
      : Type 0 where
    pub sound : IsSound src pml4 lab n.tables
    pub route :
        IsRoute
          (table_at src n.tables)
          n.tables.entries
          lab
          (set_slot slots level n.pt_next)
          level
          page
    pub va : n.tables.va_base ≡ t.va_base
    pub unseen : (p : ℕ) → IsOpen p → mapped_at n.tables p ≡ mapped_at t p

  module _ (lab : Labels) (slots : ℕ → ℕ) (level page : ℕ) (low : 1 ≤ level) (high : level < 4)
      (t : Tables H) (is_open : IsOpen page) (sound : IsSound src pml4 lab t)
      (route : IsRoute (table_at src t) t.entries lab slots (suc level) page) where
    abbrev idx : ℕ
    idx = above level page % 512

    abbrev entry : ℕ
    entry = t.entries (slots (suc level)) idx

    pub open_entry :
        lab.level_of (slots (suc level)) ≡ 4
        → lab.place_of (slots (suc level)) * 512 + idx ≡ self_idx
        → ⊥
    open_entry =
        open_place lab (slots (suc level)) level page is_open
          (route.at_level (suc level) (omega arith) (omega arith))
          (route.at_place (suc level) (omega arith) (omega arith))

    -- A table that is there.
    pub found_IsBelow :
        (r : ℕ)
        → absent entry ≡ false
        → table_at src t (get_field pe_pfn_base entry) ≡ ok r
        → lab.level_of r + 1 ≡ lab.level_of (slots (suc level))
        → lab.place_of r ≡ lab.place_of (slots (suc level)) * 512 + idx
        → IsBelow lab slots level page t (record { pt_next = r; tables = t })
    found_IsBelow r some at below place = record {
      sound = sound;
      route =
          IsRoute-set_slot (table_at src t) t.entries lab slots level page r route high
            (omega (arith, below, route.at_level (suc level) (omega arith) (omega arith)))
            (omega (arith, place, route.at_place (suc level) (omega arith) (omega arith))) some at;
      va = refl;
      unseen = λ p op. refl;
    }

    -- A table that has been created.
    module _ (none : absent entry ≡ true) (n : NewTable H) (valid : src.IsValid n.tables.host)
        (grows : Grows src.xlate_table src.Used t.host n.tables.host)
        (new : IsAllocated src.xlate_table src.Used (slots (suc level)) idx t n) where
      abbrev lab' : Labels
      lab' = add_label n.pt_next level (above level page) lab

      -- A table that has a label is not the new one.
      labelled_old : (q : ℕ) → 1 ≤ lab.level_of q → (q == n.pt_next) ≡ false
      labelled_old q some = elim (Bool-cases (q == n.pt_next)) [
        | inr other ↦ other
        | inl same ↦ absurd (new.fresh ((rw ((==_iff q n.pt_next).0 same) at (sound.used q some))))
      ]

      created-IsTree : IsTree (table_at src n.tables) n.tables.entries lab'
      created-IsTree q j upper small op some = elim (Bool-cases (q == n.pt_next)) [
        | inl same ↦ absurd (
            contradictory (
              sym (
                ap absent (
                  ap (λ (x : ℕ). n.tables.entries x j) ((==_iff q n.pt_next).0 same) ∙ new.empty j))
              ∙ some))
        | inr old ↦ elim (Bool-cases ((q == slots (suc level)) && (j == idx))) [
          | inl this ↦
              let (here, at) = both_equal q (slots (suc level)) j idx this in
              (
                n.pt_next,
                rw (here, at) new.leads,
                rw (old, ==_refl n.pt_next)
                    (omega (
                      arith,
                      here,
                      route.at_level (suc level) (omega arith) (omega arith),
                      ap lab.level_of here,
                    )),
                rw (old, ==_refl n.pt_next)
                    (omega (
                      arith,
                      at,
                      route.at_place (suc level) (omega arith) (omega arith),
                      ap lab.place_of here,
                    )),
              )
          | inr other ↦
              let upper' : 2 ≤ lab.level_of q = rw old at upper in
              let op' : lab.level_of q ≡ 4 → lab.place_of q * 512 + j ≡ self_idx → ⊥ =
                rw old at op in
              let before = new.others q j (distinct q n.pt_next old) other in
              let (r, at, below, place) =
                sound.tree q j upper' small op' (sym (ap absent before) ∙ some) in
              let older = labelled_old r (omega (arith, below, upper')) in
              (r, rw before (grows.xlate_kept _ r at), rw (old, older) below, rw (old, older) place)
        ]
      ]

      created-IsSound : IsSound src pml4 lab' n.tables
      created-IsSound = record {
        valid = valid;
        tree = created-IsTree;
        used = λ q some. elim (Bool-cases (q == n.pt_next)) [
          | inl same ↦ rw ((==_iff q n.pt_next).0 same) new.taken
          | inr old ↦ grows.used_kept q (sound.used q (rw old at some))
        ];
        root_level = rw (labelled_old pml4 (omega (arith, sound.root_level))) sound.root_level;
        root_place = rw (labelled_old pml4 (omega (arith, sound.root_level))) sound.root_place;
      }

      created_unseen :
          (p l q : ℕ)
          → IsOpen p
          → l ≤ 4
          → lab.level_of q ≡ l
          → lab.place_of q ≡ above l p
          → walk (table_at src n.tables) n.tables.entries l q p
            ≡ walk (table_at src t) t.entries l q p
      created_unseen p l q op below at_level at_place =
          walk_unseen (table_at src t) (table_at src n.tables) t.entries n.tables.entries lab
            sound.tree grows.xlate_kept p op l q below at_level at_place
            (λ k r at_r place_r.
              elim (Bool-cases ((r == slots (suc level)) && (above k p % 512 == idx))) [
                | inr other ↦ inl (
                    new.others r (above k p % 512)
                      (distinct r n.pt_next (labelled_old r (omega (arith, at_r)))) other)
                | inl this ↦
                    let (here, at) = both_equal r (slots (suc level)) (above k p % 512) idx this in
                    inr (
                      omega (
                        arith,
                        at_r,
                        ap lab.level_of here,
                        route.at_level (suc level) (omega arith) (omega arith),
                      ),
                      record {
                        nothing = rw (here, at) none;
                        table = n.pt_next;
                        leads = rw (here, at) new.leads;
                        empty = new.empty;
                      },
                    )
              ])

      -- The entries of the route lie in other tables than the new entry.
      route_kept :
          (l : ℕ)
          → suc level ≤ l
          → l < 4
          → n.tables.entries (slots (suc l)) (above l page % 512)
            ≡ t.entries (slots (suc l)) (above l page % 512)
      route_kept l low' high' =
          let at = route.at_level (suc l) (omega arith) (omega arith) in
          new.others (slots (suc l)) (above l page % 512)
            (distinct (slots (suc l)) n.pt_next (labelled_old (slots (suc l)) (omega (arith, at))))
            (not_both (slots (suc l)) (slots (suc level)) (above l page % 512) idx (λ same. omega (
              arith,
              at,
              ap lab.level_of same,
              route.at_level (suc level) (omega arith) (omega arith),
            )))

      created-IsRoute : IsRoute (table_at src n.tables) n.tables.entries lab' slots (suc level) page
      created-IsRoute = record {
        at_level = λ l low' high'.
            rw (labelled_old (slots l) (omega (arith, route.at_level l low' high')))
              (route.at_level l low' high');
        at_place = λ l low' high'.
            rw (labelled_old (slots l) (omega (arith, route.at_level l low' high')))
              (route.at_place l low' high');
        present = λ l low' high'. rw (route_kept l low' high') (route.present l low' high');
        leads = λ l low' high'.
            rw (route_kept l low' high') (grows.xlate_kept _ _ (route.leads l low' high'));
      }

      pub created_IsBelow : IsBelow lab' slots level page t n
      created_IsBelow = record {
        sound = created-IsSound;
        route =
            IsRoute-set_slot (table_at src n.tables) n.tables.entries lab' slots level page
              n.pt_next created-IsRoute high (rw (==_refl n.pt_next) refl)
              (rw (==_refl n.pt_next) refl) new.present new.leads;
        va = new.va;
        unseen = λ p op.
            created_unseen p 4 pml4 op (omega arith) sound.root_level
              (omega (arith, sound.root_place, op.0));
      }
