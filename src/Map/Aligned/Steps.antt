-- ===== src/Map/Aligned/Steps.antt =====
-- The two kinds of rounds of cr_amd64_map_pages_aligned() for 4K pages, on tables that form a tree.
use clearram.Base.{
  ℕ, inl, inr, zero, suc, done, failed, undefined, out_of_fuel, Outcome, ◌≤◌, ◌<◌, ◌*◌, Ends, ◌≡◌,
  false, Bool, ◌%◌, ◌+◌, arith, ◌^◌, Bool-cases, Ends-mono, ◌/◌, ltb, leb,
}
use clearram.Base.Bits.{bit_and_low}
use clearram.Map.Layout.{va_to_pe_idx, va_incr}
use clearram.Map.Aligned.{Tables, Filling, next_table, fill_table, try_in, set_entry}
use clearram.Map.Aligned.Fill.{params_4k}
use clearram.Map.Aligned.Source.{Source, Grows, IsAllocated}
use clearram.Map.Aligned.Route.{IsRoute, IsSound, table_at}
use clearram.Map.Aligned.Descend.{IsBelow, add_label, created_IsBelow, open_entry, found_IsBelow}
use clearram.Map.Walk.{above, absent, page_of}
use clearram.Map.Walk.Tree.{Labels, IsOpen}

pub va_to_pe_idx-above :
    (va level : ℕ) → level < 4 → va_to_pe_idx va (suc level) ≡ above level (page_of va) % 512
unfolding va_to_pe_idx
va_to_pe_idx-above va zero high = omega (arith, bit_and_low 9 (va / 2 ^ 12))
va_to_pe_idx-above va (suc zero) high = omega (arith, bit_and_low 9 (va / 2 ^ 21))
va_to_pe_idx-above va (suc (suc zero)) high = omega (arith, bit_and_low 9 (va / 2 ^ 30))
va_to_pe_idx-above va (suc (suc (suc zero))) high = omega (arith, bit_and_low 9 (va / 2 ^ 39))
va_to_pe_idx-above va (suc (suc (suc (suc level)))) high = absurd (omega arith)

pub page_of-va_incr : (va n : ℕ) → page_of (va_incr va (n * 4096)) ≡ (page_of va + n) % 2 ^ 36
unfolding va_incr
page_of-va_incr va n = ground arith

pub Ends-both :
    {S : Type 0} (P Q : S → Type 0) (R : S → Type 0) (m : Outcome S)
    → Ends P R m
    → Ends Q (λ s. Unit {0}) m
    → Ends (λ s. P s × Q s) R m
Ends-both P Q R (done s) h k = (h, k)
Ends-both P Q R (failed e s) h k = h
Ends-both P Q R undefined h k = h
Ends-both P Q R out_of_fuel h k = h

pub Ends-try_of :
    {A B : Type 0} (P : A → Type 0) (R Q : B → Type 0) (m : Outcome A) (on_error : A → B)
    (k : A → Outcome B)
    → Ends P (λ a. Unit {0}) m
    → ((a : A) → Q (on_error a))
    → ((a : A) → P a → Ends R Q (k a))
    → Ends R Q (try_in m on_error k)
Ends-try_of P R Q (done a) on_error k h bad next = next a h
Ends-try_of P R Q (failed e a) on_error k h bad next = (h.0, bad a)
Ends-try_of P R Q undefined on_error k h bad next = h
Ends-try_of P R Q out_of_fuel on_error k h bad next = h

module _ {H : Type 0} (src : Source H) (pml4 extra_bits pages_nx pfn_limit : ℕ) where
  pub next_table-IsBelow :
      (lab : Labels) (slots : ℕ → ℕ) (level page : ℕ) (t : Tables H)
      → 1 ≤ level
      → level < 4
      → IsOpen page
      → IsSound src pml4 lab t
      → IsRoute (table_at src t) t.entries lab slots (suc level) page
      → Ends
          (λ n. (lab' : Labels) × IsBelow src pml4 lab' slots level page t n)
          (λ n. Unit {0})
          (next_table
            (params_4k extra_bits pages_nx)
            src.link_ram_page
            src.alloc_pt
            src.xlate_table
            pfn_limit
            (suc level)
            false
            (slots (suc level))
            (above level page % 512)
            t)
  unfolding next_table
  next_table-IsBelow lab slots level page t low high op sound route =
      elim (Bool-cases (absent (t.entries (slots (suc level)) (above level page % 512)))) [
        | inl none ↦ rw none (
            Ends-mono
              (λ n.
                src.IsValid n.tables.host
                × Grows src.xlate_table src.Used t.host n.tables.host
                × IsAllocated src.xlate_table src.Used (slots (suc level)) (above level page % 512)
                    t n)
              (λ n. Unit {0}) _ _ _
              (λ n (valid, grows, new). (
                add_label n.pt_next level (above level page) lab,
                created_IsBelow src pml4 lab slots level page low high t op sound route none n valid
                    grows new,
              ))
              (λ n u. tt)
              (src.alloc_ends t.va_base (suc level) (slots (suc level)) (above level page % 512) t
                sound.valid
                (sound.used (slots (suc level))
                  (omega (arith, route.at_level (suc level) (omega arith) (omega arith))))))
        | inr some ↦
            let (r, at, below, place) =
              sound.tree (slots (suc level)) (above level page % 512)
                (omega (arith, route.at_level (suc level) (omega arith) (omega arith)))
                (omega arith) (open_entry src pml4 lab slots level page low high t op sound route)
                some in
            rw (some, at)
              (
                lab,
                found_IsBelow src pml4 lab slots level page low high t op sound route r some at
                    below place,
              )
      ]

  -- What holds of the host's state at the start and behind each linked page.
  pub fill_table-host :
      (P : H → Type 0)
      → ((pfn va : ℕ) (h : H) → P h → Ends P (λ h'. Unit {0}) (src.link_ram_page pfn va h))
      → (left level : ℕ) (map_direct : Bool) (table : ℕ) (f : Filling H) → f.pt_idx + left ≡ 512
      → 0 < left
      → P f.tables.host
      → Ends
          (λ g. P g.tables.host)
          (λ g. Unit {0})
          (fill_table
            (params_4k extra_bits pages_nx)
            src.link_ram_page
            left
            pfn_limit
            level
            map_direct
            table
            f)
  unfolding fill_table
  fill_table-host P step zero level map_direct table f size some h = absurd (omega arith)
  fill_table-host P step (suc left) level map_direct table f size some h =
      elim (Bool-cases (ltb f.pfn_cur pfn_limit)) [
        | inr ended ↦ rw ended h
        | inl more ↦ rw more (
            Ends-try_of P _ (λ g. Unit {0})
              (src.link_ram_page f.pfn_cur f.tables.va_base f.tables.host) _ _
              (step f.pfn_cur f.tables.va_base f.tables.host h) (λ h'. tt)
              (λ h' holds. elim (Bool-cases (leb 512 (f.pt_idx + 1))) [
                | inl full ↦ rw full holds
                | inr left_over ↦ rw left_over (
                    fill_table-host P step left level map_direct table
                      (set_entry (params_4k extra_bits pages_nx) src.link_ram_page level map_direct
                        table f h')
                      (omega arith) (ground arith) holds)
              ]))
      ]
