-- ===== src/Map/Aligned/Fill.antt =====
-- The entries that crp_amd64_fill_table() writes for 4K pages.
use clearram.Base.{
  zero, suc, undefined, out_of_fuel, refl, ℕ, ◌+◌, ◌-◌, ◌^◌, ◌<◌, ◌≤◌, ◌≡◌, arith, ◌⊎◌, Outcome,
  Bool, Ends, suc, done, ◌*◌, sym, ◌∙◌, if◌then◌else◌, failed, ap, ◌==◌, ◌&&◌, leb, ltb, min,
  Bool-cases, inr, ltb→le, inl, ltb→lt, add64, Ends-mono,
}
use clearram.Map.Layout.{va_incr}
use clearram.Amd64.PageEnt.{init_page_ent}
use clearram.Map.Aligned.{Params, Filling, set_entry, with_host, try_in, fill_table}

abbrev pub params_4k : (extra_bits pages_nx : ℕ) → Params
params_4k e n = record { extra_bits = e; pages_nx = n; page_size = 1 }

-- A sign-extended 48-bit address.
abbrev pub IsCanonical : ℕ → Type 0
IsCanonical va = va < 2 ^ 47 ⊎ ((2 ^ 64 - 2 ^ 47 ≤ va) × (va < 2 ^ 64))

pub va_incr-zero : (va : ℕ) → IsCanonical va → va_incr va 0 ≡ va
unfolding va_incr
va_incr-zero va canonical = ground arith

pub va_incr-IsCanonical : (va n : ℕ) → IsCanonical (va_incr va n)
unfolding va_incr
va_incr-IsCanonical va n = ground arith

pub va_incr_twice : (va m n : ℕ) → va_incr (va_incr va m) n ≡ va_incr va (m + n)
unfolding va_incr
va_incr_twice va m n = ground arith

Ends-try_in :
    {A B : Type 0} (R Q : B → Type 0) (m : Outcome A) (on_error : A → B) (k : A → Outcome B)
    → Ends (λ a. Unit {0}) (λ a. Unit {0}) m
    → ((a : A) → Q (on_error a))
    → ((a : A) → Ends R Q (k a))
    → Ends R Q (try_in m on_error k)
Ends-try_in R Q (done a) on_error k h bad next = next a
Ends-try_in R Q (failed e a) on_error k h bad next = (h.0, bad a)
Ends-try_in R Q undefined on_error k h bad next = h
Ends-try_in R Q out_of_fuel on_error k h bad next = h

module _ {H : Type 0} (extra_bits pages_nx level : ℕ) (map_direct : Bool) (table : ℕ) where
  -- `n` entries have been written from the index of `f` on, for the frames and addresses from
  -- those of `f` on, and no other entry of any table.
  pub record IsFilled (n : ℕ) (f g : Filling H) : Type 0 where
    pub pfn : g.pfn_cur ≡ f.pfn_cur + n
    pub idx : g.pt_idx ≡ f.pt_idx + n
    pub va : g.tables.va_base ≡ va_incr f.tables.va_base (n * 4096)
    pub entries :
        (q j : ℕ)
        → g.tables.entries q j ≡ (
            if q == table && (leb f.pt_idx j && ltb j (f.pt_idx + n))
            then init_page_ent (f.pfn_cur + (j - f.pt_idx)) extra_bits pages_nx level map_direct
            else f.tables.entries q j)

  module _ (link_ram_page : (pfn va : ℕ) → H → Outcome H) (f : Filling H) (host : H)
      (canonical : IsCanonical f.tables.va_base) where
    with_host-IsFilled :
        IsFilled 0 f (with_host (params_4k extra_bits pages_nx) link_ram_page f host)
    with_host-IsFilled = record {
      pfn = omega arith;
      idx = omega arith;
      va = sym (va_incr-zero f.tables.va_base canonical);
      entries = λ q j. ground arith;
    }

    set_entry-IsFilled :
        f.pfn_cur + 1 < 2 ^ 64
        → IsFilled 1 f
            (set_entry (params_4k extra_bits pages_nx) link_ram_page level map_direct table f host)
    set_entry-IsFilled word = record {
      pfn = omega arith;
      idx = omega arith;
      va = refl;
      entries = λ q j. grind arith;
    }

  IsFilled-none : (f : Filling H) → IsCanonical f.tables.va_base → IsFilled 0 f f
  IsFilled-none f canonical = record {
    pfn = omega arith;
    idx = omega arith;
    va = sym (va_incr-zero f.tables.va_base canonical);
    entries = λ q j. ground arith;
  }

  IsFilled-trans :
      (n : ℕ) {f g k : Filling H} → IsFilled 1 f g → IsFilled n g k → IsFilled (suc n) f k
  IsFilled-trans n {f} {g} {k} one rest = record {
    pfn = omega (arith, one.pfn, rest.pfn);
    idx = omega (arith, one.idx, rest.idx);
    va =
        rest.va
        ∙ ap (λ (v : ℕ). va_incr v (n * 4096)) one.va
        ∙ va_incr_twice f.tables.va_base (1 * 4096) (n * 4096)
        ∙ ap (va_incr f.tables.va_base) (omega arith);
    entries = λ q j. grind (arith, rest.entries q j, one.entries q j, one.pfn, one.idx);
  }

module _ {H : Type 0} (extra_bits pages_nx : ℕ) (link_ram_page : (pfn va : ℕ) → H → Outcome H)
    (total : (pfn va : ℕ) (h : H)
      → Ends (λ t. Unit {0}) (λ t. Unit {0}) (link_ram_page pfn va h)) where
  -- Behind one entry, with what the loop does from there on.
  module _ (level : ℕ) (map_direct : Bool) (table : ℕ) (f : Filling H) (h : H)
      (canonical : IsCanonical f.tables.va_base) where
    filled_one : Filling H
    filled_one = set_entry (params_4k extra_bits pages_nx) link_ram_page level map_direct table f h

    one_more :
        (n : ℕ) (loop : Outcome (Filling H))
        → f.pfn_cur + 1 < 2 ^ 64
        → (512 ≤ f.pt_idx + 1 → n ≡ 0)
        → (f.pt_idx + 1 < 512
            → Ends
                (IsFilled extra_bits pages_nx level map_direct table n filled_one)
                (λ k.
                  (m : ℕ) × (m < n)
                  × IsFilled extra_bits pages_nx level map_direct table m filled_one k)
                loop)
        → Ends
            (IsFilled extra_bits pages_nx level map_direct table (suc n) f)
            (λ k. (m : ℕ) × (m < suc n) × IsFilled extra_bits pages_nx level map_direct table m f k)
            (if leb 512 (f.pt_idx + 1) then done filled_one else loop)
    unfolding filled_one
    one_more n loop word last rest =
        let one =
          set_entry-IsFilled extra_bits pages_nx level map_direct table link_ram_page f h canonical
            word in
        elim (Bool-cases (leb 512 (f.pt_idx + 1))) [
          | inl full ↦ let zero_left = last (ground arith) in rw (full, zero_left) one
          | inr left_over ↦ rw left_over (
              Ends-mono _ _ _ _ loop
                (λ k filled. IsFilled-trans extra_bits pages_nx level map_direct table n one filled)
                (λ k (m, below, filled). (
                  suc m,
                  omega arith,
                  IsFilled-trans extra_bits pages_nx level map_direct table m one filled,
                ))
                (rest (ground arith)))
        ]

  -- With a link function that ends and fails at most with -ENOMEM, crp_amd64_fill_table() for 4K
  -- pages writes an entry for each frame up to the limit or to the end of the table, and moves the
  -- frame, the index and the virtual address on behind them; if a page cannot be linked it has
  -- written the entries before it. No other entry is changed.
  pub fill_table-IsFilled :
      (left pfn_limit level : ℕ) (map_direct : Bool) (table : ℕ) (f : Filling H)
      → IsCanonical f.tables.va_base
      → pfn_limit < 2 ^ 64
      → 0 < left
      → f.pt_idx + left ≡ 512
      → Ends
          (IsFilled extra_bits pages_nx level map_direct table (min left (pfn_limit - f.pfn_cur)) f)
          (λ g.
            (m : ℕ) × (m < min left (pfn_limit - f.pfn_cur))
            × IsFilled extra_bits pages_nx level map_direct table m f g)
          (fill_table
            (params_4k extra_bits pages_nx)
            link_ram_page
            left
            pfn_limit
            level
            map_direct
            table
            f)
  unfolding fill_table filled_one
  fill_table-IsFilled zero pfn_limit level map_direct table f canonical word some size =
      absurd (omega arith)
  fill_table-IsFilled (suc left) pfn_limit level map_direct table f canonical word some size =
      elim (Bool-cases (ltb f.pfn_cur pfn_limit)) [
        | inr ended ↦
            let none : min (suc left) (pfn_limit - f.pfn_cur) ≡ 0 =
              omega (arith, ltb→le f.pfn_cur pfn_limit ended) in
            rw (ended, none) (IsFilled-none extra_bits pages_nx level map_direct table f canonical)
        | inl more ↦
            let inside : f.pfn_cur < pfn_limit = ltb→lt f.pfn_cur pfn_limit more in
            let moved : add64 f.pfn_cur 1 ≡ f.pfn_cur + 1 = omega arith in
            let n = min left (pfn_limit - add64 f.pfn_cur 1) in
            let count : min (suc left) (pfn_limit - f.pfn_cur) ≡ suc n =
              omega (arith, moved, inside) in
            rw (more, count)
              (Ends-try_in _ _ (link_ram_page f.pfn_cur f.tables.va_base f.tables.host) _ _
                (total f.pfn_cur f.tables.va_base f.tables.host)
                (λ h. (
                  0,
                  omega arith,
                  with_host-IsFilled extra_bits pages_nx level map_direct table link_ram_page f h
                      canonical,
                ))
                (λ h.
                  one_more level map_direct table f h canonical n _ (omega arith)
                    (λ full. omega arith)
                    (λ left_over.
                      fill_table-IsFilled left pfn_limit level map_direct table
                        (set_entry (params_4k extra_bits pages_nx) link_ram_page level map_direct
                          table f h)
                        (va_incr-IsCanonical f.tables.va_base 4096) word (omega arith)
                        (omega arith))))
      ]
