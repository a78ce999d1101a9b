-- ===== src/Lkm/RamMapped.antt =====
-- The mapping of all RAM with the host's own functions: what cr_host_lkm_init() has mapped behind
-- its loop over the levels.
use clearram.Base.{
  ℕ, zero, suc, inl, inr, [], ◌∷◌, ◌<◌, List, ◌^◌, ◌++◌, Bool-cases, ◌≤◌, arith, ◌≡◌, ltb, ltb→lt,
  if◌then◌else◌, ◌*◌, true, Ends, Ends-mono, ◌∙◌, leb, ◌&&◌, ◌+◌, ◌-◌,
}
use clearram.Amd64.PageEnt.{init_page_ent}
use clearram.Host.Kernel.{Supply}
use clearram.Host.Link.{HostState}
use clearram.Host.AllocPt.Lawful.{IsIn, IsSeparate}
use clearram.Host.AllocPt.HostSource.{host_source}
use clearram.Linux.PmapWalk.{Resource, sections, is_ram, section_of}
use clearram.Map.Unaligned.Spec.{
  span, around, round_up, round_down, blocks_1g, blocks_2m, blocks_4k,
}
use clearram.Map.Unaligned.Passes.{blocks}
use clearram.Map.Aligned.{Tables}
use clearram.Map.Aligned.Descend.{mapped_at}
use clearram.Map.Aligned.Blocks.{frames, frame_at, AllBlocks, mapper, LaysOut, map_all-LaysOut}
use clearram.Map.Walk.Tree.{IsOpen}
use clearram.Lkm.MapRam.{map_ram}
use clearram.Lkm.MapRam.Laws.{level_blocks, ram_blocks, map_ram-map_all}
use clearram.Lkm.Setup.{init_tables}
use clearram.Lkm.Setup.Start.{init_tables-IsSound, init_tables-empty, root_labels}

pub from_zero :
    (p n : ℕ) (f : ℕ → ℕ)
    → (if leb 0 p && ltb p (0 + n) then f (p - 0) else 0) ≡ (if ltb p n then f p else 0)
from_zero p n f =
    let same : p - 0 ≡ p = omega arith in
    let all : 0 + n ≡ n = omega arith in rw (same, all) (ground arith)

AllBlocks-append : (xs ys : List (ℕ × ℕ)) → AllBlocks xs → AllBlocks ys → AllBlocks (xs ++ ys)
AllBlocks-append [] ys h k = k
AllBlocks-append ((lo, hi) ∷ xs) ys (some, word, h) k = (some, word, AllBlocks-append xs ys h k)

span-AllBlocks : (lo hi : ℕ) → hi < 2 ^ 64 → AllBlocks (span lo hi)
span-AllBlocks lo hi word = elim (Bool-cases (ltb lo hi)) [
  | inl some ↦ rw some (ltb→lt lo hi some, word, tt)
  | inr none ↦ rw none tt
]

around-AllBlocks :
    (lo hi mid_lo mid_hi : ℕ)
    → hi < 2 ^ 64
    → mid_hi < 2 ^ 64
    → AllBlocks (around lo hi mid_lo mid_hi)
around-AllBlocks lo hi mid_lo mid_hi word word' = elim (Bool-cases (ltb mid_lo mid_hi)) [
  | inl some ↦ rw some (
      AllBlocks-append (span lo mid_lo) (span mid_hi hi)
        (span-AllBlocks lo mid_lo (omega (arith, ltb→lt mid_lo mid_hi some)))
        (span-AllBlocks mid_hi hi word))
  | inr none ↦ rw none (span-AllBlocks lo hi word)
]

pub blocks-AllBlocks : (level b l : ℕ) → l < 2 ^ 64 → AllBlocks (blocks level b l)
unfolding blocks_1g blocks_2m blocks_4k
blocks-AllBlocks zero b l word = tt
blocks-AllBlocks (suc zero) b l word =
    around-AllBlocks b l (round_up b 512) (round_down l 512) word (omega arith)
blocks-AllBlocks (suc (suc zero)) b l word =
    around-AllBlocks (round_up b 512) (round_down l 512) (round_up b 262144) (round_down l 262144)
      (omega arith) (omega arith)
blocks-AllBlocks (suc (suc (suc n))) b l word =
    span-AllBlocks (round_up b 262144) (round_down l 262144) (omega arith)

level_blocks-AllBlocks :
    (level mask : ℕ) (rs : List Resource) → AllBlocks (level_blocks level (sections mask rs))
level_blocks-AllBlocks level mask [] = tt
level_blocks-AllBlocks level mask (r ∷ rs) = elim (Bool-cases (is_ram mask r)) [
  | inr other ↦ rw other (level_blocks-AllBlocks level mask rs)
  | inl ram ↦ rw ram (
      AllBlocks-append (blocks level (section_of r).0 (section_of r).1)
        (level_blocks level (sections mask rs))
        (blocks-AllBlocks level (section_of r).0 (section_of r).1 (omega arith))
        (level_blocks-AllBlocks level mask rs))
]

pub ram_blocks-AllBlocks :
    (mask : ℕ) (rs : List Resource) → AllBlocks (ram_blocks (sections mask rs))
ram_blocks-AllBlocks mask rs =
    let at : (level : ℕ) → AllBlocks (level_blocks level (sections mask rs)) =
      λ level. level_blocks-AllBlocks level mask rs in
    AllBlocks-append (level_blocks 3 (sections mask rs))
      (level_blocks 2 (sections mask rs) ++ level_blocks 1 (sections mask rs)) (at 3)
      (AllBlocks-append (level_blocks 2 (sections mask rs)) (level_blocks 1 (sections mask rs))
        (at 2) (at 1))

module _ (virt_to_phys : ℕ → ℕ) (extra nx : ℕ) (bits : extra < 2 ^ 9) (no_execute : nx < 2)
    (pml4 : ℕ) (supply : Supply) (separate : IsSeparate virt_to_phys supply) (pos : 0 < pml4)
    (own : IsIn pml4 supply → ⊥) (mask : ℕ) (children : List Resource) where
  -- All RAM in the order of the blocks, from page 0 on, and nothing else.
  pub IsAllRam : Tables HostState → Type 0
  IsAllRam after =
      let bs = ram_blocks (sections mask children) in
      (p : ℕ)
      → IsOpen p
      → mapped_at (host_source virt_to_phys extra nx bits no_execute) pml4 after p
        ≡ (if ltb p (frames bs) then init_page_ent (frame_at bs p) extra nx 1 true else 0)

  -- Let the free pages of the kernel be of frames of their own below 2^36, the PML4 be none of them,
  -- and RAM be at most 0x1f0·2^27 frames. Mapping all RAM from the start, with the functions of the
  -- host for tables and links, ends; where it returns 0, a walk from each page, outside the entry of
  -- the PML4 that leads to itself, finds an entry for the frame at that place of the blocks of RAM,
  -- and zero behind the last of them.
  pub map_ram-IsAllRam :
      frames (ram_blocks (sections mask children)) ≤ 0x1f0 * 2 ^ 27
      → Ends IsAllRam
          (λ u. Unit {0})
          (map_ram
            (mapper (host_source virt_to_phys extra nx bits no_execute) pml4 extra nx)
            mask
            children
            (init_tables virt_to_phys pml4 supply))
  unfolding IsAllRam init_tables
  map_ram-IsAllRam room =
      let src = host_source virt_to_phys extra nx bits no_execute in
      let t = init_tables virt_to_phys pml4 supply in
      let bs = ram_blocks (sections mask children) in
      rw (map_ram-map_all (mapper src pml4 extra nx) mask children t) (
        Ends-mono (LaysOut src pml4 extra nx bs t) (λ u. Unit {0}) _ _ _
          (λ u (lab, sound, va, laid) p op.
            laid p op
            ∙ rw
                (init_tables-empty virt_to_phys extra nx bits no_execute pml4 supply separate pos
                  own p op)
                (from_zero p (frames bs) (λ i. init_page_ent (frame_at bs i) extra nx 1 true)))
          (λ u v. tt)
          (map_all-LaysOut src pml4 extra nx bs (root_labels pml4) t
            (ram_blocks-AllBlocks mask children) (inl (omega arith))
            (λ p low high. (omega (arith, high, room), λ e. omega (arith, e, high, room)))
            (init_tables-IsSound virt_to_phys extra nx bits no_execute pml4 supply separate pos
              own)))
