-- ===== src/Lkm/Init/PageEntries.antt =====
-- The entries that cr_host_lkm_init() gives to the pages, one mapping over the other: all RAM from page
-- 0 on, the pages of the image, and the text screen.
use clearram.Base.{
  sym, ◌∙◌, ◌-◌, ℕ, ◌≤◌, Bool, List, true, Bool-cases, if◌then◌else◌, arith, ◌<◌, leb, ◌&&◌, ◌+◌,
  ◌⊎◌, inl, ◌-◌, ltb, ◌*◌, ◌≡◌, inr, contradictory, sym,
}
use clearram.Map.Layout.{va_incr}
use clearram.Map.Aligned.Blocks.{frames, frame_at}
use clearram.Map.Walk.{page_of}
use clearram.Host.Link.Leaves.{same_key}
use clearram.Amd64.PageEnt.{init_page_ent}

-- With read, write and no cache, not executable.
abbrev pub ram_entry : (pfn : ℕ) → ℕ
ram_entry pfn = init_page_ent pfn 0x12 1 1 true

-- With read, write and write-through, executable.
abbrev pub image_entry : (pfn : ℕ) → ℕ
image_entry pfn = init_page_ent pfn 0xa 0 1 true

pub ram_entry-mapped : (pfn : ℕ) → 2 ≤ ram_entry pfn
unfolding init_page_ent
ram_entry-mapped pfn = ground arith

pub image_entry-mapped : (pfn : ℕ) → 2 ≤ image_entry pfn
unfolding init_page_ent
image_entry-mapped pfn = ground arith

-- A page from `page` on, among `n` of them.
abbrev pub is_among : (page n p : ℕ) → Bool
is_among page n p = leb page p && ltb p (page + n)

same_key_trans : (p q r : ℕ) → same_key p q ≡ true → same_key q r ≡ true → same_key p r ≡ true
same_key_trans p q r e e' = ground arith

module _ (blocks : List (ℕ × ℕ)) (virt_to_phys : ℕ → ℕ) (image_base npages vga : ℕ) where
  abbrev pub entry_of_ram : ℕ → ℕ
  entry_of_ram p = if ltb p (frames blocks) then ram_entry (frame_at blocks p) else 0

  abbrev pub entry_with_image : ℕ → ℕ
  entry_with_image p =
      if is_among (page_of image_base) npages p
      then image_entry (virt_to_phys (va_incr image_base ((p - page_of image_base) * 4096)))
      else entry_of_ram p

  abbrev pub entry_of : ℕ → ℕ
  entry_of p =
      if is_among (page_of vga) 8 p
      then ram_entry (0xb8 + (p - page_of vga))
      else entry_with_image p

  -- A page of RAM or of the text screen, with its frame, as far as the tree of pages tells frames apart.
  abbrev pub IsLinkable : (pfn page : ℕ) → Type 0
  IsLinkable pfn p =
      ((p < frames blocks) × (same_key (frame_at blocks p) pfn ≡ true))
      ⊎ ((is_among (page_of vga) 8 p ≡ true) × (same_key (0xb8 + (p - page_of vga)) pfn ≡ true))

  pub IsLinkable-same_key :
      (pfn pfn' p : ℕ) → same_key pfn pfn' ≡ true → IsLinkable pfn p → IsLinkable pfn' p
  IsLinkable-same_key pfn pfn' p same (inl (below, here)) =
      inl (below, same_key_trans (frame_at blocks p) pfn pfn' here same)
  IsLinkable-same_key pfn pfn' p same (inr (screen, here)) =
      inr (screen, same_key_trans (0xb8 + (p - page_of vga)) pfn pfn' here same)

  -- Such a page is mapped in the end, with more than the present bit.
  pub entry_of-mapped : (pfn p : ℕ) → IsLinkable pfn p → 2 ≤ entry_of p
  entry_of-mapped pfn p linkable = elim (Bool-cases (is_among (page_of vga) 8 p)) [
    | inl screen ↦ rw screen (ram_entry-mapped (0xb8 + (p - page_of vga)))
    | inr not_screen ↦ rw not_screen (elim (Bool-cases (is_among (page_of image_base) npages p)) [
      | inl image ↦ rw image (image_entry-mapped _)
      | inr not_image ↦ rw not_image (elim linkable [
        | inl (ram, here) ↦ ground (arith, ram, ram_entry-mapped (frame_at blocks p))
        | inr (screen, here) ↦ absurd (contradictory (sym screen ∙ not_screen))
      ])
    ])
  ]
