-- ===== src/Map/Aligned/Chunk.antt =====
-- What the entries that crp_amd64_fill_table() writes into a table of 4K pages map.
use clearram.Base.{
  ℕ, refl, inl, inr, suc, ◌≡◌, if◌then◌else◌, ◌%◌, leb, ◌+◌, ◌&&◌, ◌≤◌, ltb, true, ◌<◌, arith,
  Bool-cases, ◌-◌, ◌==◌, sym, ◌/◌, ap, ==_iff, ◌∙◌, false, ==_refl, distinct,
}
use clearram.Map.Aligned.{Tables, Filling, init_page_ent}
use clearram.Map.Aligned.Fill.{IsFilled}
use clearram.Map.Aligned.Source.{Source, Grows}
use clearram.Map.Aligned.Route.{IsRoute, IsSound, table_at, walk-IsRoute}
use clearram.Map.Aligned.Descend.{mapped_at}
use clearram.Map.Walk.{above, absent}
use clearram.Map.Walk.Tree.{Labels, IsOpen, walk_unseen}

same_tests :
    (page p m : ℕ)
    → (p / 512 == page / 512) ≡ true
    → page % 512 + m ≤ 512
    → (leb page p && ltb p (page + m))
      ≡ (leb (page % 512) (p % 512) && ltb (p % 512) (page % 512 + m))
same_tests page p m h fits = ground arith

outside :
    (page p m : ℕ)
    → (p / 512 == page / 512) ≡ false
    → page % 512 + m ≤ 512
    → (leb page p && ltb p (page + m)) ≡ false
outside page p m h fits = ground arith

module _ {H : Type 0} (src : Source H) (pml4 extra_bits pages_nx : ℕ) where
  -- Outside the part of the PML4 that leads to the tables themselves, `n` pages from `page` on map
  -- the frames from `base` on, and the others map what they did.
  abbrev pub IsMapped : (n base page : ℕ) (before after : Tables H) → Type 0
  IsMapped n base page before after =
      (p : ℕ)
      → IsOpen p
      → mapped_at src pml4 after p ≡ (
          if leb page p && ltb p (page + n)
          then init_page_ent (base + (p - page)) extra_bits pages_nx 1 true
          else mapped_at src pml4 before p)

  module _ (lab : Labels) (slots : ℕ → ℕ) (page : ℕ) (t : Tables H) (sound : IsSound src pml4 lab t)
      (root : slots 4 ≡ pml4) (route : IsRoute (table_at src t) t.entries lab slots 1 page)
      (pfn m : ℕ) (fits : page % 512 + m ≤ 512) (g : Filling H) (valid : src.IsValid g.tables.host)
      (grows : Grows src.xlate_table src.Used t.host g.tables.host)
      (filled : IsFilled extra_bits pages_nx 1 true
        (slots 1)
        m
        (record { pfn_cur = pfn; pt_idx = page % 512; tables = t })
        g) where
    -- No table but that of the pages has changed.
    other_table :
        (q j : ℕ)
        → (lab.level_of q ≡ 1 → lab.place_of q ≡ above 1 page → ⊥)
        → g.tables.entries q j ≡ t.entries q j
    other_table q j other = elim (Bool-cases (q == slots 1)) [
      | inl same ↦ absurd (
          other
            (ap lab.level_of ((==_iff q (slots 1)).0 same)
              ∙ route.at_level 1 (omega arith) (omega arith))
            (ap lab.place_of ((==_iff q (slots 1)).0 same)
              ∙ route.at_place 1 (omega arith) (omega arith)))
      | inr differs ↦ filled.entries q j ∙ rw differs refl
    ]

    pub chunk-IsSound : IsSound src pml4 lab g.tables
    chunk-IsSound = record {
      valid = valid;
      tree = λ q j upper small op some.
          let same = other_table q j (λ lowest place. omega arith) in
          let (r, at, below, place) = sound.tree q j upper small op (sym (ap absent same) ∙ some) in
          (r, rw same (grows.xlate_kept _ r at), below, place);
      used = λ q some. grows.used_kept q (sound.used q some);
      root_level = sound.root_level;
      root_place = sound.root_place;
    }

    pub chunk-IsRoute :
        (level : ℕ)
        → 1 ≤ level
        → level ≤ 4
        → IsRoute (table_at src t) t.entries lab slots level page
        → IsRoute (table_at src g.tables) g.tables.entries lab slots level page
    chunk-IsRoute level low high r = record {
      at_level = r.at_level;
      at_place = r.at_place;
      present = λ l low' high'. rw (kept l low' high') (r.present l low' high');
      leads = λ l low' high'. rw (kept l low' high') (grows.xlate_kept _ _ (r.leads l low' high'));
    }
      where
        kept :
            (l : ℕ)
            → level ≤ l
            → l < 4
            → g.tables.entries (slots (suc l)) (above l page % 512)
              ≡ t.entries (slots (suc l)) (above l page % 512)
        kept l low' high' =
            other_table (slots (suc l)) (above l page % 512) (λ lowest place.
              omega (arith, lowest, r.at_level (suc l) (omega arith) (omega arith)))

    pub chunk-IsMapped : IsMapped m pfn page t g.tables
    chunk-IsMapped p op = elim (Bool-cases (p / 512 == page / 512)) [
      | inl same ↦
          let block : above 1 p ≡ above 1 page = (==_iff (p / 512) (page / 512)).0 same in
          let after = rw root at (
            walk-IsRoute (table_at src g.tables) g.tables.entries lab slots page p
              (chunk-IsRoute 1 (omega arith) (omega arith) route) block) in
          let before =
            rw root at (walk-IsRoute (table_at src t) t.entries lab slots page p route block) in
          let tests = same_tests page p m same fits in
          let offset : p % 512 - page % 512 ≡ p - page = omega (arith, block) in
          after
          ∙ filled.entries (slots 1) (p % 512)
          ∙ rw (before, tests, ==_refl (slots 1), offset) refl
      | inr differs ↦ rw (outside page p m differs fits) (
          walk_unseen (table_at src t) (table_at src g.tables) t.entries g.tables.entries lab
            sound.tree grows.xlate_kept p op 4 pml4 (omega arith) sound.root_level
            (omega (arith, sound.root_place, op.0))
            (λ l r at_level at_place. inl (
              other_table r (above l p % 512) (λ lowest place.
                distinct (p / 512) (page / 512) differs (
                  sym (
                    ap (λ (k : ℕ). above (suc k) p) {x = l} {y = 0}
                      (omega (arith, lowest, at_level)))
                  ∙ sym at_place
                  ∙ place)))))
    ]
