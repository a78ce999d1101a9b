-- ===== src/Host/AllocPt/Lawful.antt =====
-- The host's own functions keep the laws that cr_amd64_map_pages_aligned() relies on.
use clearram.Base.{
  ℕ, refl, [], ◌∷◌, ok, err, some, none, inl, inr, Option, ◌≡◌, ◌∷◌, Result, ◌⊎◌, some, ok, ◌<◌,
  true, ap, err, ◌^◌, none, Option-cases, arith, sym, ◌∙◌,
}
use clearram.Host.Kernel.{Supply, vmalloc}
use clearram.Host.PagesTree.{xlate_pfn, leaf_at, leaf_va, ptl_page_table}
use clearram.Host.Link.{HostState}
use clearram.Host.Link.Leaves.{page_table, same_key, Kind, flag}
use clearram.Host.Link.View.{view}
use clearram.Map.Aligned.Source.{Grows}

abbrev pub IsIn : ℕ → Supply → Type 0
IsIn q [] = ⊥
IsIn q (p ∷ s) = (q ≡ p) ⊎ IsIn q s

unfoldable pub xlate_table : (pfn : ℕ) → HostState → Result ℕ
xlate_table pfn st = xlate_pfn st.host_pages_tree ptl_page_table pfn

some_of : (r : Result ℕ) → Option ℕ
some_of (ok a) = some a
some_of (err e) = none

some_value : (a : ℕ) → Option ℕ → ℕ
some_value a none = a
some_value a (some b) = b

present : Option ℕ → ℕ
present none = 0
present (some b) = 1

some_of_elim : (r : Result ℕ) → some_of r ≡ (elim r [ ok va ↦ some va | err e ↦ none ])
unfolding some_of
some_of_elim (ok a) = refl
some_of_elim (err e) = refl

some_of-ok : (r : Result ℕ) (a : ℕ) → some_of r ≡ some a → r ≡ ok a
unfolding some_of some_value present
some_of-ok (ok b) a e = ap ok (ap (some_value a) e)
some_of-ok (err x) a e = absurd (omega (arith, ap present e))

xlate_view :
    (k : Kind) (pfn : ℕ) (st : HostState)
    → some_of (xlate_pfn st.host_pages_tree (flag k) pfn) ≡ view st k pfn
unfolding xlate_pfn some_of
xlate_view k pfn st = elim (Option-cases (leaf_at st.host_pages_tree pfn)) [
  | inl e ↦ rw (xlate_pfn, e) refl
  | inr (l, e) ↦ rw (xlate_pfn, e) (some_of_elim (leaf_va l (flag k)))
]

-- What a look-up of a kind of page finds.
pub xlate_pfn-view :
    (k : Kind) (pfn va : ℕ) (st : HostState)
    → xlate_pfn st.host_pages_tree (flag k) pfn ≡ ok va
    → view st k pfn ≡ some va
unfolding some_of
xlate_pfn-view k pfn va st e = sym (xlate_view k pfn st) ∙ ap some_of e

module _ (virt_to_phys : ℕ → ℕ) where
  -- Free pages have frames of their own, below 2 ^ 36.
  unfoldable pub IsSeparate : Supply → Type 0
  IsSeparate [] = Unit {0}
  IsSeparate (p ∷ s) =
      (0 < p
        → (virt_to_phys p < 2 ^ 36)
          × ((q : ℕ) → 0 < q → IsIn q s → virt_to_phys p ≡ virt_to_phys q → ⊥))
      × IsSeparate s

  -- No free page is linked as a table.
  pub record IsHost (st : HostState) : Type 0 where
    pub separate : IsSeparate st.supply
    pub unlinked :
        (pfn r q : ℕ)
        → xlate_table pfn st ≡ ok r
        → 0 < q
        → IsIn q st.supply
        → same_key (virt_to_phys q) pfn ≡ true
        → ⊥

  IsSeparate-closed : (s : Supply) → IsSeparate s → IsSeparate (vmalloc s).supply
  unfolding IsSeparate
  IsSeparate-closed [] h = tt
  IsSeparate-closed (p ∷ s) h = h.1

  IsIn-closed :
      (t s : Supply)
      → ((q : ℕ) → IsIn q s → IsIn q t)
      → (q : ℕ) → IsIn q (vmalloc s).supply
      → IsIn q t
  IsIn-closed t [] h q i = absurd i
  IsIn-closed t (p ∷ s) h q i = h q (inr i)

  pub xlate_ok :
      (pfn r : ℕ) (st : HostState) → view st page_table pfn ≡ some r → xlate_table pfn st ≡ ok r
  unfolding xlate_table
  xlate_ok pfn r st e = some_of-ok (xlate_table pfn st) r (xlate_view page_table pfn st ∙ e)

  pub view_ok :
      (pfn r : ℕ) (st : HostState) → xlate_table pfn st ≡ ok r → view st page_table pfn ≡ some r
  unfolding xlate_table
  view_ok pfn r st e = xlate_pfn-view page_table pfn r st e

  -- What linking a page does to the free pages.
  pub record IsTaken (s s' : Supply) : Type 0 where
    pub separate : IsSeparate s'
    pub among : (q : ℕ) → IsIn q s' → IsIn q s

  pub IsTaken-closed : (t s : Supply) → IsTaken t s → IsTaken t (vmalloc s).supply
  IsTaken-closed t s h = record {
    separate = IsSeparate-closed s h.separate;
    among = IsIn-closed t s h.among;
  }

  unfoldable pub Used : HostState → ℕ → Type 0
  Used st q = (0 < q) × (IsIn q st.supply → ⊥)

  -- A page that is linked for another kind than the tables.
  pub page_linked :
      (h h' : HostState)
      → IsHost h
      → ((pfn : ℕ) → view h' page_table pfn ≡ view h page_table pfn)
      → IsTaken h.supply h'.supply
      → IsHost h' × Grows xlate_table Used h h'
  unfolding Used
  page_linked h h' host same taken = (
    record {
      separate = taken.separate;
      unlinked = λ f r q e pos at.
          host.unlinked f r q (xlate_ok f r h (sym (same f) ∙ view_ok f r h' e)) pos
            (taken.among q at);
    },
    record {
      xlate_kept = λ f r e. xlate_ok f r h' (same f ∙ view_ok f r h e);
      used_kept = λ q (pos, out). (pos, λ at. out (taken.among q at));
    },
  )
