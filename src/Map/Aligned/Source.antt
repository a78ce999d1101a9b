-- ===== src/Map/Aligned/Source.antt =====
-- What cr_amd64_map_pages_aligned() relies on of the functions that it is given: a record of the
-- three functions, of what they need of the host's state, and of their laws.
use clearram.Base.{ℕ, Result, Bool, ◌≡◌, Outcome, ok, Ends, false, get_field, ◌==◌, ◌&&◌}
use clearram.Map.Aligned.{Tables, NewTable, pe_pfn_base}
use clearram.Map.Walk.{absent}

-- What the host translates and has in use stays so.
pub record Grows {H : Type 0} (xlate_table : ℕ → H → Result ℕ) (Used : H → ℕ → Type 0) (h h' : H)
    : Type 0 where
  pub xlate_kept : (pfn r : ℕ) → xlate_table pfn h ≡ ok r → xlate_table pfn h' ≡ ok r
  pub used_kept : (q : ℕ) → Used h q → Used h' q

pub Grows-refl :
    {H : Type 0} {xlate_table : ℕ → H → Result ℕ} {Used : H → ℕ → Type 0} (h : H)
    → Grows xlate_table Used h h
Grows-refl h = record { xlate_kept = λ pfn r e. e; used_kept = λ q u. u }

pub Grows-trans :
    {H : Type 0} {xlate_table : ℕ → H → Result ℕ} {Used : H → ℕ → Type 0} (h h' h'' : H)
    → Grows xlate_table Used h h'
    → Grows xlate_table Used h' h''
    → Grows xlate_table Used h h''
Grows-trans h h' h'' a b = record {
  xlate_kept = λ pfn r e. b.xlate_kept pfn r (a.xlate_kept pfn r e);
  used_kept = λ q u. b.used_kept q (a.used_kept q u);
}

-- A page that was not in use has become an empty table, which the entry leads to. No entry of a
-- table in use has changed but this one.
pub record IsAllocated {H : Type 0} (xlate_table : ℕ → H → Result ℕ) (Used : H → ℕ → Type 0)
    (table idx : ℕ) (t : Tables H) (n : NewTable H) : Type 0 where
  pub fresh : Used t.host n.pt_next → ⊥
  pub taken : Used n.tables.host n.pt_next
  pub present : absent (n.tables.entries table idx) ≡ false
  pub leads :
      xlate_table (get_field pe_pfn_base (n.tables.entries table idx)) n.tables.host ≡ ok n.pt_next
  pub empty : (j : ℕ) → n.tables.entries n.pt_next j ≡ 0
  pub others :
      (q j : ℕ)
      → (q ≡ n.pt_next → ⊥)
      → ((q == table) && (j == idx)) ≡ false
      → n.tables.entries q j ≡ t.entries q j
  pub va : n.tables.va_base ≡ t.va_base

pub record Source (H : Type 0) : Type 1 where
  pub alloc_pt :
      (va level : ℕ) (map_direct : Bool) (table idx : ℕ) → Tables H → Outcome (NewTable H)
  pub link_ram_page : (pfn va : ℕ) → H → Outcome H
  pub xlate_table : (pfn : ℕ) → H → Result ℕ
  pub IsValid : H → Type 0
  pub Used : H → ℕ → Type 0
  pub link_total :
      (pfn va : ℕ) (h : H) → Ends (λ h'. Unit {0}) (λ h'. Unit {0}) (link_ram_page pfn va h)
  pub link_ends :
      (pfn va : ℕ) (h : H)
      → IsValid h
      → Ends
          (λ h'. IsValid h' × Grows xlate_table Used h h')
          (λ h'. Unit {0})
          (link_ram_page pfn va h)
  pub alloc_ends :
      (va level table idx : ℕ) (t : Tables H)
      → IsValid t.host
      → Used t.host table
      → Ends
          (λ n.
            IsValid n.tables.host
            × Grows xlate_table Used t.host n.tables.host
            × IsAllocated xlate_table Used table idx t n)
          (λ n. Unit {0})
          (alloc_pt va level false table idx t)
