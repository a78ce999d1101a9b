-- ===== src/Lkm/Setup/Start.antt =====
-- The page tables that the mapping begins with.
use clearram.Base.{
  contradictory, err, ℕ, refl, inl, inr, false, ok, ◌≤◌, if◌then◌else◌, ◌<◌, ◌^◌, ◌*◌, ◌==◌, ◌+◌,
  ◌≡◌, arith, ap, ◌%◌, Bool-cases, Result, different, sym, ==_refl, ◌∙◌, ==_iff,
}
use clearram.Host.Kernel.{Supply}
use clearram.Host.PagesTree.{xlate_pfn, leaf_at}
use clearram.Host.AllocPt.Lawful.{IsIn, xlate_table, IsSeparate, Used}
use clearram.Host.AllocPt.HostSource.{host_source}
use clearram.Map.Aligned.Route.{IsSound}
use clearram.Map.Aligned.Descend.{mapped_at}
use clearram.Map.Walk.{above, absent, walk}
use clearram.Map.Walk.Tree.{Labels, IsOpen}
use clearram.Lkm.Setup.{init_tables, image_npages, init_host}

abbrev pub root_labels : (pml4 : ℕ) → Labels
root_labels pml4 = record { level_of = λ q. if q == pml4 then 4 else 0; place_of = λ q. 0 }

-- The pages of the image are enough for its bytes, and the last one is needed.
pub image_npages-bounds :
    (size : ℕ) → (size ≤ image_npages size * 4096) × (image_npages size * 4096 < size + 4096)
image_npages-bounds size = ground arith

ok_of : Result ℕ → ℕ
ok_of (ok a) = 1
ok_of (err e) = 0

module _ (virt_to_phys : ℕ → ℕ) (extra nx : ℕ) (bits : extra < 2 ^ 9) (no_execute : nx < 2)
    (pml4 : ℕ) (supply : Supply) (separate : IsSeparate virt_to_phys supply) (pos : 0 < pml4)
    (own : IsIn pml4 supply → ⊥) where
  no_table : (pfn r : ℕ) → xlate_table pfn (init_host supply) ≡ ok r → ⊥
  unfolding xlate_table xlate_pfn leaf_at ok_of
  no_table pfn r e = omega (arith, ap ok_of e)

  -- With the free pages of the kernel of frames of their own and the PML4 none of them, the tables
  -- that the mapping begins with are a tree with the PML4 as its only table.
  pub init_tables-IsSound :
      IsSound
        (host_source virt_to_phys extra nx bits no_execute)
        pml4
        (root_labels pml4)
        (init_tables virt_to_phys pml4 supply)
  unfolding init_tables host_source Used
  init_tables-IsSound = record {
    valid = record { separate = separate; unlinked = λ pfn r q e pos' at key. no_table pfn r e };
    tree = λ q j upper small op some. elim (Bool-cases (q == pml4)) [
      | inr other ↦ absurd (omega (arith, rw other at upper))
      | inl root ↦
          let differs : (j == 0x1f0) ≡ false =
            different j 0x1f0 (λ e. rw root at op refl (omega (arith, e))) in
          let vacant : (init_tables virt_to_phys pml4 supply).entries q j ≡ 0 =
            rw (root, differs) refl in
          absurd (contradictory (sym (ap absent vacant) ∙ some))
    ];
    used = λ q some. elim (Bool-cases (q == pml4)) [
      | inr other ↦ absurd (omega (arith, rw other at some))
      | inl root ↦ rw ((==_iff q pml4).0 root) (pos, own)
    ];
    root_level = rw (==_refl pml4) refl;
    root_place = refl;
  }

  -- Nothing is mapped yet.
  pub init_tables-empty :
      (p : ℕ)
      → IsOpen p
      → mapped_at
          (host_source virt_to_phys extra nx bits no_execute)
          pml4
          (init_tables virt_to_phys pml4 supply)
          p
        ≡ 0
  unfolding init_tables walk
  init_tables-empty p op =
      let differs : (above 3 p % 512 == 0x1f0) ≡ false =
        different (above 3 p % 512) 0x1f0 (λ e. op.1 (omega (arith, e, op.0))) in
      rw (==_refl pml4, differs) refl
