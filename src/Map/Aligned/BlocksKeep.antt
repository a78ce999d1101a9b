-- ===== src/Map/Aligned/BlocksKeep.antt =====
-- What the mapping of several blocks keeps of the host's state, where linking a page of a range keeps
-- it.
use clearram.Base.{
  [], ◌∷◌, refl, ltb, lt→ltb, ℕ, WhereDone, ◌≡◌, ◌*◌, false, List, ◌<◌, ◌+◌, ◌≤◌, arith, ◌^◌, ◌-◌,
  ap, ◌∙◌, sym, WhereDone-try, WhereDone-both, WhereDone-Ends,
}
use clearram.Map.Layout.{va_incr}
use clearram.Map.Unaligned.Spec.{map_all}
use clearram.Map.Aligned.{Tables}
use clearram.Map.Aligned.Fill.{IsCanonical, va_incr-zero, va_incr_twice, va_incr-IsCanonical}
use clearram.Map.Aligned.Source.{Source}
use clearram.Map.Aligned.Route.{IsSound}
use clearram.Map.Aligned.Rounds.{Reaches}
use clearram.Map.Aligned.Steps.{page_of-va_incr}
use clearram.Map.Aligned.Maps.{map_pages_aligned-Reaches}
use clearram.Map.Aligned.Keeps.{map_pages_aligned-kept}
use clearram.Map.Aligned.Blocks.{frames, frame_at, AllBlocks, mapper}
use clearram.Map.Walk.{page_of}
use clearram.Map.Walk.Tree.{Labels, IsOpen}

-- What holds of a range of pages holds of those behind the first `n` of them.
pub range_behind :
    (n m va va' : ℕ) (Q : ℕ → Type 0)
    → va' ≡ va_incr va (n * 4096)
    → ((p : ℕ) → page_of va ≤ p → p < page_of va + (n + m) → IsOpen p)
    → ((p : ℕ) → page_of va ≤ p → p < page_of va + (n + m) → Q p)
    → (p : ℕ) → page_of va' ≤ p
    → p < page_of va' + m
    → Q p
range_behind n m va va' Q moved op h p low high =
    let last : 0 < m = omega (arith, low, high) in
    let next : page_of va' ≡ page_of va + n =
      ap page_of moved
      ∙ page_of-va_incr va n
      ∙ omega (arith, (op (page_of va + n) (omega arith) (omega arith)).0) in
    h p (omega (arith, next, low)) (omega (arith, next, high))

frames_behind :
    (n m va va' : ℕ) (frame : ℕ → ℕ) (Q : (pfn page : ℕ) → Type 0)
    → va' ≡ va_incr va (n * 4096)
    → ((p : ℕ) → page_of va ≤ p → p < page_of va + (n + m) → IsOpen p)
    → ((i : ℕ) → i < n + m → Q (frame i) (page_of va + i))
    → (j : ℕ) → j < m
    → Q (frame (n + j)) (page_of va' + j)
frames_behind n m va va' frame Q moved op h j below =
    let next : page_of va' ≡ page_of va + n =
      ap page_of moved
      ∙ page_of-va_incr va n
      ∙ omega (arith, (op (page_of va + n) (omega arith) (omega arith)).0) in
    let page : page_of va' + j ≡ page_of va + (n + j) = omega (arith, next) in
    rw page (h (n + j) (omega arith))

frame_at-first :
    (lo hi i : ℕ) (bs : List (ℕ × ℕ)) → i < hi - lo → frame_at ((lo, hi) ∷ bs) i ≡ lo + i
frame_at-first lo hi i bs below = rw (lt→ltb i (hi - lo) below) refl

frame_at-behind :
    (lo hi j : ℕ) (bs : List (ℕ × ℕ)) → frame_at ((lo, hi) ∷ bs) (hi - lo + j) ≡ frame_at bs j
frame_at-behind lo hi j bs =
    let past : ltb (hi - lo + j) (hi - lo) ≡ false = ground arith in
    let offset : hi - lo + j - (hi - lo) ≡ j = omega arith in rw (past, offset) refl

module _ {H : Type 0} (src : Source H) (pml4 extra_bits pages_nx : ℕ) (P : H → Type 0)
    (Q : (pfn page : ℕ) → Type 0)
    (link_keeps : (pfn va : ℕ) (h : H)
      → Q pfn (page_of va)
      → P h
      → WhereDone P (src.link_ram_page pfn va h))
    (alloc_keeps : (va level table idx : ℕ) (t : Tables H)
      → P t.host
      → WhereDone
          (λ n. P n.tables.host × (n.tables.va_base ≡ t.va_base))
          (src.alloc_pt va level false table idx t)) where
  -- The address is that of the frame.
  abbrev At : (pfn_base va_base pfn va : ℕ) → Type 0
  At pfn_base va_base pfn va = (i : ℕ) × (pfn ≡ pfn_base + i) × (va ≡ va_incr va_base (i * 4096))

  block_kept :
      (lo hi : ℕ) (t : Tables H)
      → hi < 2 ^ 64
      → IsCanonical t.va_base
      → ((p : ℕ) → page_of t.va_base ≤ p → p < page_of t.va_base + (hi - lo) → IsOpen p)
      → ((i : ℕ) → i < hi - lo → Q (lo + i) (page_of t.va_base + i))
      → P t.host
      → WhereDone (λ u. P u.host) (mapper src pml4 extra_bits pages_nx lo hi t)
  block_kept lo hi t word canonical op allowed held =
      map_pages_aligned-kept extra_bits pages_nx src.link_ram_page src.alloc_pt src.xlate_table P
        (At lo t.va_base) hi word
        (λ pfn va h below (i, same, at) kept. (
          link_keeps pfn va h (page_allowed pfn va i below same at) kept,
          (
            i + 1,
            ap (λ (k : ℕ). k + 1) same ∙ omega arith,
            ap (λ (v : ℕ). va_incr v (1 * 4096)) at
                ∙ va_incr_twice t.va_base (i * 4096) (1 * 4096)
                ∙ ap (va_incr t.va_base) (omega arith),
          ),
        ))
        alloc_keeps pml4 lo t (0, omega arith, sym (va_incr-zero t.va_base canonical)) held
    where
      page_allowed :
          (pfn va i : ℕ)
          → pfn < hi
          → pfn ≡ lo + i
          → va ≡ va_incr t.va_base (i * 4096)
          → Q pfn (page_of va)
      page_allowed pfn va i below same at =
          let p = page_of t.va_base + i in
          let high : p < page_of t.va_base + (hi - lo) = omega (arith, below, same) in
          let page : page_of va ≡ p =
            ap page_of at
            ∙ page_of-va_incr t.va_base i
            ∙ omega (arith, (op p (omega arith) high).0) in
          rw (page, same) (allowed i (omega arith))

  pub map_all-kept :
      (bs : List (ℕ × ℕ)) (lab : Labels) (t : Tables H)
      → AllBlocks bs
      → IsCanonical t.va_base
      → ((p : ℕ) → page_of t.va_base ≤ p → p < page_of t.va_base + frames bs → IsOpen p)
      → ((i : ℕ) → i < frames bs → Q (frame_at bs i) (page_of t.va_base + i))
      → IsSound src pml4 lab t
      → P t.host
      → WhereDone (λ u. P u.host) (map_all (mapper src pml4 extra_bits pages_nx) bs t)
  map_all-kept [] lab t blocks canonical op allowed sound held = held
  map_all-kept ((lo, hi) ∷ bs) lab t (some, word, blocks) canonical op allowed sound held =
      WhereDone-try (λ u. P u.host × Reaches src pml4 extra_bits pages_nx (hi - lo) lo t u) _ _ _
        (WhereDone-both (λ u. P u.host) (Reaches src pml4 extra_bits pages_nx (hi - lo) lo t) _
          (block_kept lo hi t word canonical (λ p low high. op p low (omega arith))
            (λ i below. rw (frame_at-first lo hi i bs below) at (allowed i (omega arith))) held)
          (WhereDone-Ends (Reaches src pml4 extra_bits pages_nx (hi - lo) lo t)
            (Reaches src pml4 extra_bits pages_nx (hi - lo) lo t) (λ u. Unit {0}) _ (λ u r. r)
            (map_pages_aligned-Reaches src pml4 extra_bits pages_nx hi word lab lo t some canonical
              (λ p low high. op p low (omega arith)) sound)))
        (λ u (held', (lab', sound', moved, mapped)).
          map_all-kept bs lab' u blocks
            (rw moved (va_incr-IsCanonical t.va_base ((hi - lo) * 4096)))
            (range_behind (hi - lo) (frames bs) t.va_base u.va_base IsOpen moved op op)
            (λ j below. rw (frame_at-behind lo hi j bs) at (
              frames_behind (hi - lo) (frames bs) t.va_base u.va_base (frame_at ((lo, hi) ∷ bs)) Q
                moved op allowed j below))
            sound' held')
