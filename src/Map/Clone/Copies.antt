-- ===== src/Map/Clone/Copies.antt =====
-- What the cloned pages map.
use clearram.Base.{
  refl, none, some, Option, ℕ, zero, suc, inl, inr, ◌<◌, ◌^◌, ◌≡◌, ◌≤◌, ◌+◌, if◌then◌else◌, ◌*◌,
  leb, Ends, ◌&&◌, sym, arith, ltb, ◌-◌, Bool-cases, ◌==◌, add64, false, true, Ends-try, ==_iff, ap,
  ◌∙◌, ltb→lt, Ends-mono,
}
use clearram.Amd64.PageEnt.{init_page_ent}
use clearram.Map.Layout.{va_incr}
use clearram.Map.Aligned.{Tables}
use clearram.Map.Aligned.Fill.{IsCanonical, va_incr-zero, va_incr_twice, va_incr-IsCanonical}
use clearram.Map.Aligned.Source.{Source}
use clearram.Map.Aligned.Route.{IsSound, IsSound-at_address}
use clearram.Map.Aligned.Descend.{mapped_at}
use clearram.Map.Aligned.Chunk.{IsMapped}
use clearram.Map.Aligned.Rounds.{Reaches}
use clearram.Map.Aligned.Steps.{page_of-va_incr, Ends-try_of}
use clearram.Map.Aligned.Maps.{map_pages_aligned-Reaches}
use clearram.Map.Walk.{page_of}
use clearram.Map.Walk.Tree.{Labels, IsOpen}
use clearram.Map.Clone.{clone_pages, map_pages_clone4k, Cloned}

behind :
    (n p page page' : ℕ)
    → p ≡ page
    → (0 < n → page' ≡ page + 1)
    → (leb page' p && ltb p (page' + n)) ≡ false
behind zero p page page' at next = ground arith
behind (suc n) p page page' at next = rw (next (omega arith), at) (ground arith)

still_within :
    (n p page : ℕ)
    → (p == page) ≡ false
    → (leb page p && ltb p (page + suc n)) ≡ true
    → (leb (page + 1) p && ltb p (page + 1 + n)) ≡ true
still_within n p page other within = ground arith

next_offset :
    (n p page : ℕ)
    → (leb (page + 1) p && ltb p (page + 1 + n)) ≡ true
    → 1 * 4096 + (p - (page + 1)) * 4096 ≡ (p - page) * 4096
next_offset n p page within = ground arith

module _ {H : Type 0} (src : Source H) (pml4 extra_bits pages_nx : ℕ) (virt_to_phys : ℕ → ℕ)
    (small : (va : ℕ) → virt_to_phys va < 2 ^ 40) where
  -- `n` pages from `page` on map the frames that the host maps from `va` on, and the others map what
  -- they did.
  abbrev pub IsCloned : (n va page : ℕ) (before after : Tables H) → Type 0
  IsCloned n va page before after =
      (p : ℕ)
      → IsOpen p
      → mapped_at src pml4 after p ≡ (
          if leb page p && ltb p (page + n)
          then init_page_ent (virt_to_phys (va_incr va ((p - page) * 4096))) extra_bits pages_nx 1
              true
          else mapped_at src pml4 before p)

  not_one : (p page : ℕ) → (p == page) ≡ false → (leb page p && ltb p (page + 1)) ≡ false
  not_one p page h = ground arith

  IsCloned-suc :
      (n va page page' : ℕ) (s t u : Tables H)
      → IsCanonical va
      → (0 < n → page' ≡ page + 1)
      → IsMapped src pml4 extra_bits pages_nx 1 (virt_to_phys va) page s t
      → IsCloned n (va_incr va 4096) page' t u
      → IsCloned (suc n) va page s u
  IsCloned-suc n va page page' s t u canonical next first rest p op =
      elim (Bool-cases (p == page)) [
        | inl same ↦
            let at : p ≡ page = (==_iff p page).0 same in
            let offset : va_incr va ((p - page) * 4096) ≡ va =
              ap (va_incr va) (omega (arith, at)) ∙ va_incr-zero va canonical in
            let past : (leb page' p && ltb p (page' + n)) ≡ false = behind n p page page' at next in
            rw offset ((rw past at (rest p op)) ∙ ground (arith, first p op, at))
        | inr other ↦
            let before : mapped_at src pml4 t p ≡ mapped_at src pml4 s p =
              rw (not_one p page other) at (first p op) in
            rest p op
            ∙ rw before (elim (Bool-cases (ltb 0 n)) [
              | inr last ↦ ground (arith, last, not_one p page other)
              | inl more ↦
                  let moved : page' ≡ page + 1 = next (ltb→lt 0 n more) in
                  rw moved (elim (Bool-cases (leb page p && ltb p (page + suc n))) [
                    | inr beyond ↦ ground (arith, beyond)
                    | inl within ↦
                        let within' : (leb (page + 1) p && ltb p (page + 1 + n)) ≡ true =
                          still_within n p page other within in
                        let offset : 1 * 4096 + (p - (page + 1)) * 4096 ≡ (p - page) * 4096 =
                          next_offset n p page within' in
                        rw (within, within')
                          (ap (λ (v : ℕ). init_page_ent (virt_to_phys v) extra_bits pages_nx 1 true)
                            (va_incr_twice va 4096 ((p - (page + 1)) * 4096)
                              ∙ ap (va_incr va) offset))
                  ])
            ])
      ]

  -- The loop.
  pub CloneReaches : (n va : ℕ) (before after : Tables H) → Type 0
  CloneReaches n va before after =
      (lab : Labels) × IsSound src pml4 lab after
      × (after.va_base ≡ va_incr before.va_base (n * 4096))
      × IsCloned n va (page_of before.va_base) before after

  pub clone_pages-CloneReaches :
      (n va : ℕ) (lab : Labels) (t : Tables H)
      → IsCanonical va
      → IsCanonical t.va_base
      → ((p : ℕ) → page_of t.va_base ≤ p → p < page_of t.va_base + n → IsOpen p)
      → IsSound src pml4 lab t
      → Ends
          (CloneReaches n va t)
          (λ u. Unit {0})
          (clone_pages extra_bits pages_nx src.link_ram_page src.alloc_pt src.xlate_table
            virt_to_phys pml4 n va t)
  unfolding clone_pages CloneReaches
  clone_pages-CloneReaches zero va lab t canonical canonical' op sound =
      (lab, sound, sym (va_incr-zero t.va_base canonical'), λ p op'. ground arith)
  clone_pages-CloneReaches (suc n) va lab t canonical canonical' op sound =
      let pfn = virt_to_phys va in
      let limit : add64 pfn 1 ≡ pfn + 1 = omega (arith, small va) in
      let one : pfn + 1 - pfn ≡ 1 = omega arith in
      let first =
        map_pages_aligned-Reaches src pml4 extra_bits pages_nx (pfn + 1) (omega (arith, small va))
          lab pfn t (omega arith) canonical' (λ p low high. op p low (omega arith)) sound in
      let first' = rw one at first in
      rw limit (
        Ends-try (Reaches src pml4 extra_bits pages_nx 1 pfn t) _ _ _ _ first'
          (λ u (lab', sound', moved, mapped).
            rest_cloned (clone_pages-CloneReaches n (va_incr va 4096)) u lab' sound' moved mapped))
    where
      rest_cloned :
          ((lab' : Labels) (u : Tables H)
            → IsCanonical (va_incr va 4096)
            → IsCanonical u.va_base
            → ((p : ℕ) → page_of u.va_base ≤ p → p < page_of u.va_base + n → IsOpen p)
            → IsSound src pml4 lab' u
            → Ends
                (CloneReaches n (va_incr va 4096) u)
                (λ w. Unit {0})
                (clone_pages extra_bits pages_nx src.link_ram_page src.alloc_pt src.xlate_table
                  virt_to_phys pml4 n
                  (va_incr va 4096)
                  u))
          → (u : Tables H) (lab' : Labels) → IsSound src pml4 lab' u
          → u.va_base ≡ va_incr t.va_base (1 * 4096)
          → IsMapped src pml4 extra_bits pages_nx 1 (virt_to_phys va) (page_of t.va_base) t u
          → Ends
              (CloneReaches (suc n) va t)
              (λ w. Unit {0})
              (clone_pages extra_bits pages_nx src.link_ram_page src.alloc_pt src.xlate_table
                virt_to_phys pml4 n
                (va_incr va 4096)
                u)
      rest_cloned again u lab' sound' moved mapped =
          let next : 0 < n → page_of u.va_base ≡ page_of t.va_base + 1 = λ more.
            ap page_of moved
            ∙ page_of-va_incr t.va_base 1
            ∙ omega (arith, (op (page_of t.va_base + 1) (omega arith) (omega arith)).0) in
          let joined : va_incr u.va_base (n * 4096) ≡ va_incr t.va_base (suc n * 4096) =
            ap (λ (v : ℕ). va_incr v (n * 4096)) moved
            ∙ va_incr_twice t.va_base (1 * 4096) (n * 4096)
            ∙ ap (va_incr t.va_base) (omega arith) in
          Ends-mono (CloneReaches n (va_incr va 4096) u) (λ w. Unit {0}) (CloneReaches (suc n) va t)
            (λ w. Unit {0}) _
            (λ w (lab'', sound'', va', cloned). (
              lab'',
              sound'',
              va' ∙ joined,
              IsCloned-suc n va (page_of t.va_base) (page_of u.va_base) t u w canonical next mapped
                  cloned,
            ))
            (λ w v. tt)
            (again lab' u (va_incr-IsCanonical va 4096)
              (rw moved (va_incr-IsCanonical t.va_base 4096))
              (λ p low high.
                op p (omega (arith, next (omega (arith, low, high)), low))
                  (omega (arith, next (omega (arith, low, high)), high)))
              sound')

  -- Behind the whole call.
  abbrev pub CloneEnds :
      (n va_src va_dst : ℕ) (pva_dst : Option ℕ) (before : Tables H) (after : Cloned H) → Type 0
  CloneEnds n va_src va_dst pva_dst before after =
      ((lab : Labels) × IsSound src pml4 lab after.tables)
      × (after.tables.va_base ≡ before.va_base)
      × (after.pva_dst
          ≡ (elim pva_dst [ some va ↦ some (va_incr va_dst (n * 4096)) | none ↦ none ]))
      × IsCloned n va_src (page_of va_dst) before after.tables

  -- On page tables that form a tree, with functions that keep the laws of `Source` and frames below
  -- 2 ^ 40, a call of cr_amd64_map_pages_clone4K() ends, and fails at most with -ENOMEM. Where it
  -- returns 0, each of the pages at the destination, which is the source where no destination is
  -- given, maps the frame that the host maps at the source, and every other page what it mapped
  -- before; the destination has moved on behind the pages, and the tables are a tree again. The
  -- addresses are sign-extended, and the pages lie outside the part of the PML4 that maps the tables.
  pub map_pages_clone4k-CloneEnds :
      (n va_src va_dst : ℕ) (pva_dst : Option ℕ) (lab : Labels) (t : Tables H)
      → va_dst ≡ (elim pva_dst [ some va ↦ va | none ↦ va_src ])
      → IsCanonical va_src
      → IsCanonical va_dst
      → ((p : ℕ) → page_of va_dst ≤ p → p < page_of va_dst + n → IsOpen p)
      → IsSound src pml4 lab t
      → Ends
          (CloneEnds n va_src va_dst pva_dst t)
          (λ c. Unit {0})
          (map_pages_clone4k extra_bits pages_nx src.link_ram_page src.alloc_pt src.xlate_table
            virt_to_phys pml4 va_src pva_dst n t)
  unfolding map_pages_clone4k CloneReaches
  map_pages_clone4k-CloneEnds n va_src va_dst pva_dst lab t dst canonical canonical' op sound =
      rw (← dst) (
        Ends-try_of (CloneReaches n va_src (record t { va_base = va_dst })) _ _ _ _ _
          (clone_pages-CloneReaches n va_src lab (record t { va_base = va_dst }) canonical
            canonical' op (IsSound-at_address src pml4 lab t va_dst sound))
          (λ u. tt) (λ u held. ends u held pva_dst))
    where
      ends :
          (u : Tables H)
          → CloneReaches n va_src (record t { va_base = va_dst }) u
          → (o : Option ℕ)
          → CloneEnds n va_src va_dst o t (record {
            tables = record u { va_base = t.va_base };
            pva_dst = elim o [ some va ↦ some u.va_base | none ↦ none ];
          })
      ends u (lab', sound', moved, cloned) none =
          ((lab', IsSound-at_address src pml4 lab' u t.va_base sound'), refl, refl, cloned)
      ends u (lab', sound', moved, cloned) (some va) =
          ((lab', IsSound-at_address src pml4 lab' u t.va_base sound'), refl, ap some moved, cloned)
