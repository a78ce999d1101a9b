-- ===== src/Map/Aligned/Blocks.antt =====
-- Several blocks of frames, mapped one behind the other by cr_amd64_map_pages_aligned(): what the
-- loops over blocks of Map/Unaligned and Lkm/MapRam come to.
use clearram.Base.{
  true, false, ℕ, zero, suc, refl, [], ◌∷◌, List, Outcome, if◌then◌else◌, ◌<◌, ◌-◌, ◌≡◌, ◌≤◌, leb,
  ◌*◌, ◌+◌, ◌^◌, ltb, Ends, ◌&&◌, true, sym, arith, Ends-try, ap, ◌∙◌, Ends-mono, Bool,
}
use clearram.Amd64.PageEnt.{init_page_ent}
use clearram.Map.Layout.{va_incr}
use clearram.Map.Unaligned.Spec.{map_all}
use clearram.Map.Aligned.{Tables, map_pages_aligned}
use clearram.Map.Aligned.Fill.{
  params_4k, IsCanonical, va_incr-zero, va_incr_twice, va_incr-IsCanonical,
}
use clearram.Map.Aligned.Source.{Source}
use clearram.Map.Aligned.Route.{IsSound}
use clearram.Map.Aligned.Descend.{mapped_at}
use clearram.Map.Aligned.Chunk.{IsMapped}
use clearram.Map.Aligned.Rounds.{Reaches}
use clearram.Map.Aligned.Steps.{page_of-va_incr}
use clearram.Map.Aligned.Maps.{map_pages_aligned-Reaches}
use clearram.Map.Walk.{page_of}
use clearram.Map.Walk.Tree.{Labels, IsOpen}

-- The number of frames in the blocks, and the frame at a place in their order.
abbrev pub frames : List (ℕ × ℕ) → ℕ
frames [] = 0
frames ((lo, hi) ∷ bs) = hi - lo + frames bs

abbrev pub frame_at : List (ℕ × ℕ) → ℕ → ℕ
frame_at [] i = 0
frame_at ((lo, hi) ∷ bs) i = if ltb i (hi - lo) then lo + i else frame_at bs (i - (hi - lo))

-- Blocks of frames that are 64-bit numbers, none of them empty.
abbrev pub AllBlocks : List (ℕ × ℕ) → Type 0
AllBlocks [] = Unit {0}
AllBlocks ((lo, hi) ∷ bs) = (lo < hi) × (hi < 2 ^ 64) × AllBlocks bs

-- What is found at a page behind two ranges that follow each other.
layer :
    (m page page' p n x y z a : ℕ) (b : ℕ → ℕ)
    → (0 < m → page' ≡ page + n)
    → z ≡ (if leb page' p && ltb p (page' + m) then b (p - page') else y)
    → y ≡ (if leb page p && ltb p (page + n) then a else x)
    → z ≡ (
        if leb page p && ltb p (page + (n + m))
        then (if ltb (p - page) n then a else b (p - page - n))
        else x)
layer zero page page' p n x y z a b next e e' = ground (arith, e, e')
layer (suc m) page page' p n x y z a b next e e' =
    let moved : page' ≡ page + n = next (omega arith) in
    let e'' = rw moved at e in
    let offset : p - (page + n) ≡ p - page - n = omega arith in
    let e3 = rw offset at e'' in ground (arith, e3, e')

module _ {H : Type 0} (src : Source H) (pml4 extra_bits pages_nx : ℕ) where
  -- One call with the rest of the arguments.
  abbrev pub mapper : (base limit : ℕ) → Tables H → Outcome (Tables H)
  mapper base limit t =
      map_pages_aligned (params_4k extra_bits pages_nx) src.link_ram_page src.alloc_pt
        src.xlate_table limit pml4 base t

  -- The frames of the blocks are mapped in their order from `page` on, and the other pages map what
  -- they did.
  abbrev pub IsLaidOut : (bs : List (ℕ × ℕ)) (page : ℕ) (before after : Tables H) → Type 0
  IsLaidOut bs page before after =
      (p : ℕ)
      → IsOpen p
      → mapped_at src pml4 after p ≡ (
          if leb page p && ltb p (page + frames bs)
          then init_page_ent (frame_at bs (p - page)) extra_bits pages_nx 1 true
          else mapped_at src pml4 before p)

  abbrev pub LaysOut : (bs : List (ℕ × ℕ)) (before after : Tables H) → Type 0
  LaysOut bs before after =
      (lab : Labels) × IsSound src pml4 lab after
      × (after.va_base ≡ va_incr before.va_base (frames bs * 4096))
      × IsLaidOut bs (page_of before.va_base) before after

  spread :
      (b : Bool) (x y : ℕ)
      → (if b
          then init_page_ent x extra_bits pages_nx 1 true
          else init_page_ent y extra_bits pages_nx 1 true)
        ≡ init_page_ent (if b then x else y) extra_bits pages_nx 1 true
  spread true x y = refl
  spread false x y = refl

  IsLaidOut-cons :
      (lo hi : ℕ) (bs : List (ℕ × ℕ)) (page page' : ℕ) (s t u : Tables H)
      → (0 < frames bs → page' ≡ page + (hi - lo))
      → IsMapped src pml4 extra_bits pages_nx (hi - lo) lo page s t
      → IsLaidOut bs page' t u
      → IsLaidOut ((lo, hi) ∷ bs) page s u
  IsLaidOut-cons lo hi bs page page' s t u next first rest p op =
      layer (frames bs) page page' p (hi - lo) (mapped_at src pml4 s p) (mapped_at src pml4 t p)
        (mapped_at src pml4 u p) (init_page_ent (lo + (p - page)) extra_bits pages_nx 1 true)
        (λ i. init_page_ent (frame_at bs i) extra_bits pages_nx 1 true) next (rest p op)
        (first p op)
      ∙ ap
          (λ e.
            if leb page p && ltb p (page + (hi - lo + frames bs))
            then e
            else mapped_at src pml4 s p)
          (spread (ltb (p - page) (hi - lo)) (lo + (p - page)) (frame_at bs (p - page - (hi - lo))))

  pub map_all-LaysOut :
      (bs : List (ℕ × ℕ)) (lab : Labels) (t : Tables H)
      → AllBlocks bs
      → IsCanonical t.va_base
      → ((p : ℕ) → page_of t.va_base ≤ p → p < page_of t.va_base + frames bs → IsOpen p)
      → IsSound src pml4 lab t
      → Ends (LaysOut bs t) (λ u. Unit {0}) (map_all mapper bs t)
  map_all-LaysOut [] lab t blocks canonical op sound =
      (lab, sound, sym (va_incr-zero t.va_base canonical), λ p op'. ground arith)
  map_all-LaysOut ((lo, hi) ∷ bs) lab t (some, word, blocks) canonical op sound =
      Ends-try (Reaches src pml4 extra_bits pages_nx (hi - lo) lo t) _ _ _ _
        (map_pages_aligned-Reaches src pml4 extra_bits pages_nx hi word lab lo t some canonical
          (λ p low high. op p low (omega arith)) sound)
        (λ u (lab', sound', moved, mapped).
          let next : 0 < frames bs → page_of u.va_base ≡ page_of t.va_base + (hi - lo) = λ more.
            ap page_of moved
            ∙ page_of-va_incr t.va_base (hi - lo)
            ∙ omega (arith, (op (page_of t.va_base + (hi - lo)) (omega arith) (omega arith)).0) in
          let joined : va_incr u.va_base (frames bs * 4096)
              ≡ va_incr t.va_base ((hi - lo + frames bs) * 4096) =
            ap (λ (v : ℕ). va_incr v (frames bs * 4096)) moved
            ∙ va_incr_twice t.va_base ((hi - lo) * 4096) (frames bs * 4096)
            ∙ ap (va_incr t.va_base) (omega arith) in
          Ends-mono (LaysOut bs u) (λ w. Unit {0}) (LaysOut ((lo, hi) ∷ bs) t) (λ w. Unit {0}) _
            (λ w (lab'', sound'', va', laid). (
              lab'',
              sound'',
              va' ∙ joined,
              IsLaidOut-cons lo hi bs (page_of t.va_base) (page_of u.va_base) t u w next mapped
                  laid,
            ))
            (λ w v. tt)
            (map_all-LaysOut bs lab' u blocks
              (rw moved (va_incr-IsCanonical t.va_base ((hi - lo) * 4096)))
              (λ p low high.
                op p (omega (arith, next (omega (arith, low, high)), low))
                  (omega (arith, next (omega (arith, low, high)), high)))
              sound'))
