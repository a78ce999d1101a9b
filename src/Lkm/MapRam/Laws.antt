-- ===== src/Lkm/MapRam/Laws.antt =====
-- What is mapped of all RAM.
use clearram.Base.{
  ℕ, zero, suc, ◌≤◌, ◌<◌, false, List, [], ◌∷◌, ◌++◌, length, Outcome, done, failed, undefined,
  out_of_fuel, try, ◌≡◌, refl, arith, ◌∙◌, ap, sym, Bool-cases, inl, inr, fun_ext, ap₂,
}
use mathlib.Core.List.{append-nil, append_assoc}
use clearram.Map.Unaligned.Spec.{map_all, times_mapped}
use clearram.Map.Unaligned.Cover.{times_mapped-append, passes_once}
use clearram.Map.Unaligned.Passes.{blocks, map_pages_unaligned-map_all}
use clearram.Linux.PmapWalk.{Resource, pmap_walk, walk_loop, sections, section_of, is_ram}
use clearram.Lkm.MapRam.{map_sections, map_level, map_ram}

-- The blocks of a level in all sections.
abbrev pub level_blocks : ℕ → List (ℕ × ℕ) → List (ℕ × ℕ)
level_blocks level [] = []
level_blocks level ((b, l) ∷ ss) = blocks level b l ++ level_blocks level ss

abbrev pub ram_blocks : List (ℕ × ℕ) → List (ℕ × ℕ)
ram_blocks ss = level_blocks 3 ss ++ (level_blocks 2 ss ++ level_blocks 1 ss)

try_assoc :
    {S : Type 0} (o : Outcome S) (f g : S → Outcome S) → try (try o f) g ≡ try o (λ s. try (f s) g)
try_assoc (done s) f g = refl
try_assoc (failed e s) f g = refl
try_assoc undefined f g = refl
try_assoc out_of_fuel f g = refl

map_all-append :
    {S : Type 0} (mapper : (base limit : ℕ) → S → Outcome S) (xs ys : List (ℕ × ℕ)) (s : S)
    → map_all mapper (xs ++ ys) s ≡ try (map_all mapper xs s) (map_all mapper ys)
map_all-append mapper [] ys s = refl
map_all-append mapper ((lo, hi) ∷ xs) ys s =
    ap (try (mapper lo hi s)) (fun_ext λ t. map_all-append mapper xs ys t)
    ∙ sym (try_assoc (mapper lo hi s) (map_all mapper xs) (map_all mapper ys))

module _ {S : Type 0} (mapper : (base limit : ℕ) → S → Outcome S) (mask : ℕ) (level : ℕ)
    (low : 1 ≤ level) (high : level ≤ 3) where
  -- From the resources `rs` on, with a walk that has begun.
  walked :
      (rs children : List Resource) (fuel : ℕ) (s : S)
      → length rs < fuel
      → map_sections mapper mask children fuel level (record { restart = false; res_cur = rs }) s
        ≡ map_all mapper (level_blocks level (sections mask rs)) s
  unfolding map_sections pmap_walk walk_loop
  walked rs children zero s enough = absurd (omega arith)
  walked [] children (suc fuel) s enough = refl
  walked (r ∷ rs) children (suc fuel) s enough = elim (Bool-cases (is_ram mask r)) [
    | inr other ↦ rw other (walked rs children (suc fuel) s (omega arith))
    | inl ram ↦
        let b = (section_of r).0 in
        let l = (section_of r).1 in
        let pass = map_pages_unaligned-map_all mapper level b l s low high (omega arith) in
        rw (ram, pass)
          (ap (try (map_all mapper (blocks level b l) s))
              (fun_ext λ t. walked rs children fuel t (omega arith))
            ∙ sym (
                map_all-append mapper (blocks level b l) (level_blocks level (sections mask rs)) s))
  ]

  map_level-map_all :
      (children : List Resource) (s : S)
      → map_level mapper mask children level s
        ≡ map_all mapper (level_blocks level (sections mask children)) s
  unfolding map_level map_sections pmap_walk
  map_level-map_all children s = walked children children (suc (length children)) s (omega arith)

-- Mapping all RAM ends, and calls the mapping function on the 1G blocks of all sections of RAM, then
-- on their 2M blocks, then on their 4K pages, up to the first call that fails, whose error it
-- returns.
pub map_ram-map_all :
    {S : Type 0} (mapper : (base limit : ℕ) → S → Outcome S) (mask : ℕ) (children : List Resource)
    (s : S)
    → map_ram mapper mask children s ≡ map_all mapper (ram_blocks (sections mask children)) s
unfolding map_ram
map_ram-map_all {S} mapper mask children s =
    let ss = sections mask children in
    let pass : (level : ℕ) → List (ℕ × ℕ) = λ level. level_blocks level ss in
    let last : (u : S) → map_level mapper mask children 1 u ≡ map_all mapper (pass 1) u =
      λ u. map_level-map_all mapper mask 1 (omega arith) (omega arith) children u in
    let two : (t : S)
        → try (map_level mapper mask children 2 t) (map_level mapper mask children 1)
          ≡ map_all mapper (pass 2 ++ pass 1) t =
      λ t.
        ap₂ try (map_level-map_all mapper mask 2 (omega arith) (omega arith) children t)
          (fun_ext last)
        ∙ sym (map_all-append mapper (pass 2) (pass 1) t) in
    ap₂ try (map_level-map_all mapper mask 3 (omega arith) (omega arith) children s) (fun_ext two)
    ∙ sym (map_all-append mapper (pass 3) (pass 2 ++ pass 1) s)

-- A frame is in the blocks as often as in the sections.
times_mapped-ram_blocks :
    (p : ℕ) (ss : List (ℕ × ℕ)) → times_mapped p (ram_blocks ss) ≡ times_mapped p ss
times_mapped-ram_blocks p [] = refl
times_mapped-ram_blocks p ((b, l) ∷ ss) = omega (
  arith,
  times_mapped-ram_blocks p ss,
  passes_once p b l,
  times_mapped-append p (level_blocks 3 ((b, l) ∷ ss))
      (level_blocks 2 ((b, l) ∷ ss) ++ level_blocks 1 ((b, l) ∷ ss)),
  times_mapped-append p (level_blocks 2 ((b, l) ∷ ss)) (level_blocks 1 ((b, l) ∷ ss)),
  times_mapped-append p (blocks 3 b l) (level_blocks 3 ss),
  times_mapped-append p (blocks 2 b l) (level_blocks 2 ss),
  times_mapped-append p (blocks 1 b l) (level_blocks 1 ss),
  times_mapped-append p (level_blocks 3 ss) (level_blocks 2 ss ++ level_blocks 1 ss),
  times_mapped-append p (level_blocks 2 ss) (level_blocks 1 ss),
)

-- A mapping function that notes its calls.
abbrev pub note : (base limit : ℕ) → List (ℕ × ℕ) → Outcome (List (ℕ × ℕ))
note base limit calls = done (calls ++ (base, limit) ∷ [])

map_all-note : (bs calls : List (ℕ × ℕ)) → map_all note bs calls ≡ done (calls ++ bs)
map_all-note [] calls = ap done (sym (append-nil calls))
map_all-note ((lo, hi) ∷ bs) calls =
    map_all-note bs (calls ++ (lo, hi) ∷ []) ∙ ap done (append_assoc calls ((lo, hi) ∷ []) bs)

-- If every call succeeds, each page frame is mapped as often as it is in a section of RAM: no frame
-- outside them, and none of them twice unless the sections overlap.
pub map_ram_once :
    (mask : ℕ) (children : List Resource) (p : ℕ)
    → (calls : List (ℕ × ℕ)) × (map_ram note mask children [] ≡ done calls)
      × (times_mapped p calls ≡ times_mapped p (sections mask children))
map_ram_once mask children p = (
  ram_blocks (sections mask children),
  map_ram-map_all note mask children [] ∙ map_all-note (ram_blocks (sections mask children)) [],
  times_mapped-ram_blocks p (sections mask children),
)
