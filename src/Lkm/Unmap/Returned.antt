-- ===== src/Lkm/Unmap/Returned.antt =====
-- The two loops of cr_host_lkm_init() that unmap pages, where they return 0 and every linked page of
-- RAM has been mapped.
use clearram.Base.{
  refl, Outcome, done, failed, undefined, out_of_fuel, [], ◌∷◌, ok, err, ℕ, Result, Bool, List, ◌≡◌,
  WhereDone, ok, arith, ◌||◌, ◌≤◌, try, ◌∙◌, err, WhereDone-try, WhereDone-mono,
}
use clearram.Map.Walk.{page_of}
use clearram.Map.Walk.Tree.{Labels, IsOpen}
use clearram.Map.Aligned.{Entries}
use clearram.Lkm.Unmap.{unmap_frame, unmap_reserved, unmap_image}
use clearram.Lkm.Unmap.Pages.{
  IsRooted, IsCleared, is_page_of, AllFound, is_listed, found_at, twice_cleared,
  unmap_frame-IsCleared, image_frames, unmap_image_lem,
}

module _ (table_at xlate_ram : ℕ → Result ℕ) (pml4 : ℕ) (lab : Labels) where
  -- Every page of RAM that a frame is looked up at has been mapped.
  abbrev pub AllMapped : Entries → Type 0
  AllMapped entries =
      (pfn va : ℕ)
      → xlate_ram pfn ≡ ok va
      → IsOpen (page_of va) × (2 ≤ found_at table_at xlate_ram pml4 lab entries (page_of va))

  -- Tables that form a tree, in which these pages are mapped, and the pages that have been cleared.
  abbrev pub Unmapped : (at : ℕ → Bool) (before after : Entries) → Type 0
  Unmapped at before after =
      IsRooted table_at xlate_ram pml4 lab after
      × AllMapped after
      × IsCleared table_at xlate_ram pml4 lab at before after

  still_mapped :
      (at : ℕ → Bool) (before after : Entries)
      → IsCleared table_at xlate_ram pml4 lab at before after
      → AllMapped before
      → AllMapped after
  still_mapped at before after cleared mapped pfn va e =
      let (op, some) = mapped pfn va e in (op, ground (arith, cleared (page_of va) op, some))

  unmap_frame-Unmapped :
      (pfn : ℕ) (entries : Entries) (r : Result ℕ)
      → xlate_ram pfn ≡ r
      → IsRooted table_at xlate_ram pml4 lab entries
      → AllMapped entries
      → WhereDone
          (Unmapped (is_page_of xlate_ram pfn) entries)
          (unmap_frame table_at xlate_ram pml4 pfn entries)
  unfolding unmap_frame
  unmap_frame-Unmapped pfn entries (err e) at rooted mapped = rw (unmap_frame, at) tt
  unmap_frame-Unmapped pfn entries (ok va) at rooted mapped =
      let (op, some) = mapped pfn va at in
      let (after, returned, rooted', cleared) =
        unmap_frame-IsCleared table_at xlate_ram pml4 lab pfn entries rooted (va, at, op, some) in
      rw returned
        (rooted', still_mapped (is_page_of xlate_ram pfn) entries after cleared mapped, cleared)

  Unmapped-trans :
      (a b : ℕ → Bool) (s t u : Entries)
      → Unmapped a s t
      → Unmapped b t u
      → Unmapped (λ p. a p || b p) s u
  Unmapped-trans a b s t u first rest = (
    rest.0,
    rest.1,
    λ p op.
        rest.2 p op
        ∙ twice_cleared (a p) (b p) (found_at table_at xlate_ram pml4 lab s p)
            (found_at table_at xlate_ram pml4 lab t p) (first.2 p op),
  )

  pub unmap_reserved-Unmapped :
      (items : List (ℕ × ℕ)) (entries : Entries)
      → IsRooted table_at xlate_ram pml4 lab entries
      → AllMapped entries
      → WhereDone
          (Unmapped (is_listed xlate_ram items) entries)
          (unmap_reserved table_at xlate_ram pml4 items entries)
  unfolding unmap_reserved
  unmap_reserved-Unmapped [] entries rooted mapped = (rooted, mapped, λ p op. refl)
  unmap_reserved-Unmapped ((li, pfn) ∷ items) entries rooted mapped =
      let at = is_page_of xlate_ram pfn in
      let rest = is_listed xlate_ram items in
      WhereDone-try (Unmapped at entries) _ (unmap_frame table_at xlate_ram pml4 pfn entries) _
        (unmap_frame-Unmapped pfn entries (xlate_ram pfn) refl rooted mapped)
        (λ next first.
          WhereDone-mono (Unmapped rest next) (Unmapped (λ p. at p || rest p) entries)
            (unmap_reserved table_at xlate_ram pml4 items next)
            (λ after. Unmapped-trans at rest entries next after first)
            (unmap_reserved-Unmapped items next first.0 first.1))

  -- Both loops, one behind the other.
  pub unmap_both-Unmapped :
      (items : List (ℕ × ℕ)) (virt_to_phys : ℕ → ℕ) (base left : ℕ) (entries : Entries)
      → IsRooted table_at xlate_ram pml4 lab entries
      → AllMapped entries
      → WhereDone
          (Unmapped
            (λ p.
              is_listed xlate_ram items p
              || is_listed xlate_ram (image_frames virt_to_phys base left 0) p)
            entries)
          (try
            (unmap_reserved table_at xlate_ram pml4 items entries)
            (λ e. unmap_image table_at xlate_ram pml4 virt_to_phys base left 0 e))
  unmap_both-Unmapped items virt_to_phys base left entries rooted mapped =
      let at = is_listed xlate_ram items in
      let image = image_frames virt_to_phys base left 0 in
      let at_image = is_listed xlate_ram image in
      WhereDone-try (Unmapped at entries) _ (unmap_reserved table_at xlate_ram pml4 items entries) _
        (unmap_reserved-Unmapped items entries rooted mapped)
        (λ next first. rw (unmap_image_lem table_at xlate_ram pml4 virt_to_phys base left 0 next) (
          WhereDone-mono (Unmapped at_image next) (Unmapped (λ p. at p || at_image p) entries)
            (unmap_reserved table_at xlate_ram pml4 image next)
            (λ after. Unmapped-trans at at_image entries next after first)
            (unmap_reserved-Unmapped image next first.0 first.1)))

WhereDone-always : {S : Type 0} (P : Type 0) (m : Outcome S) → P → WhereDone (λ s. P) m
WhereDone-always P (done s) h = h
WhereDone-always P (failed e s) h = tt
WhereDone-always P undefined h = tt
WhereDone-always P out_of_fuel h = tt

-- Where the loops return 0, each frame has been looked up.
module _ (table_at xlate_ram : ℕ → Result ℕ) (pml4 : ℕ) where
  unmap_frame-found :
      (pfn : ℕ) (entries : Entries) (r : Result ℕ)
      → xlate_ram pfn ≡ r
      → WhereDone
          (λ (e : Entries). (va : ℕ) × (xlate_ram pfn ≡ ok va))
          (unmap_frame table_at xlate_ram pml4 pfn entries)
  unfolding unmap_frame
  unmap_frame-found pfn entries (err e) at = rw (unmap_frame, at) tt
  unmap_frame-found pfn entries (ok va) at =
      WhereDone-always ((v : ℕ) × (xlate_ram pfn ≡ ok v))
        (unmap_frame table_at xlate_ram pml4 pfn entries) (va, at)

  unmap_reserved-AllFound :
      (items : List (ℕ × ℕ)) (entries : Entries)
      → WhereDone
          (λ (e : Entries). AllFound xlate_ram items)
          (unmap_reserved table_at xlate_ram pml4 items entries)
  unfolding unmap_reserved
  unmap_reserved-AllFound [] entries = tt
  unmap_reserved-AllFound ((li, pfn) ∷ items) entries =
      WhereDone-try (λ (e : Entries). (va : ℕ) × (xlate_ram pfn ≡ ok va)) _
        (unmap_frame table_at xlate_ram pml4 pfn entries) _
        (unmap_frame-found pfn entries (xlate_ram pfn) refl)
        (λ next found.
          WhereDone-mono (λ (e : Entries). AllFound xlate_ram items)
            (λ (e : Entries). AllFound xlate_ram ((li, pfn) ∷ items))
            (unmap_reserved table_at xlate_ram pml4 items next) (λ after rest. (found, rest))
            (unmap_reserved-AllFound items next))

  pub unmap_both-AllFound :
      (items : List (ℕ × ℕ)) (virt_to_phys : ℕ → ℕ) (base left : ℕ) (entries : Entries)
      → WhereDone
          (λ (e : Entries).
            AllFound xlate_ram items × AllFound xlate_ram (image_frames virt_to_phys base left 0))
          (try
            (unmap_reserved table_at xlate_ram pml4 items entries)
            (λ e. unmap_image table_at xlate_ram pml4 virt_to_phys base left 0 e))
  unmap_both-AllFound items virt_to_phys base left entries =
      let image = image_frames virt_to_phys base left 0 in
      WhereDone-try (λ (e : Entries). AllFound xlate_ram items) _
        (unmap_reserved table_at xlate_ram pml4 items entries) _
        (unmap_reserved-AllFound items entries)
        (λ next first. rw (unmap_image_lem table_at xlate_ram pml4 virt_to_phys base left 0 next) (
          WhereDone-mono (λ (e : Entries). AllFound xlate_ram image)
            (λ (e : Entries). AllFound xlate_ram items × AllFound xlate_ram image)
            (unmap_reserved table_at xlate_ram pml4 image next) (λ after rest. (first, rest))
            (unmap_reserved-AllFound image next)))
