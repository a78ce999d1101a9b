-- ===== src/FreeBsd/PmapWalk/Repeats.antt =====
-- What a walk gives call by call.
use clearram.Base.{ℕ, zero, suc, ◌≡◌, ◌≢◌, refl, true, different, if◌then◌else◌, List, [], ◌∷◌, ap}
use clearram.FreeBsd.PmapWalk.{PmapWalkParams, walk_params, pmap_walk}

-- The calls of a loop that goes on while a section is found, `n` of them at most.
abbrev pub sections_walked : (phys_avail : ℕ → ℕ) (n : ℕ) → PmapWalkParams → List (ℕ × ℕ)
sections_walked phys_avail zero params = []
sections_walked phys_avail (suc n) params =
    let w = pmap_walk phys_avail params in
    let rest = sections_walked phys_avail n w.params in
    if w.found then (w.section_base, w.section_limit) ∷ rest else []

abbrev pub repeat : (n : ℕ) → ℕ × ℕ → List (ℕ × ℕ)
repeat zero s = []
repeat (suc n) s = s ∷ repeat n s

at_first :
    (phys_avail : ℕ → ℕ) (nid : ℕ)
    → phys_avail 1 ≢ 0
    → pmap_walk phys_avail (record { restart = true; nid = nid }) ≡ record {
      found = true;
      section_base = phys_avail 0;
      section_limit = phys_avail 1;
      params = record { restart = true; nid = 2 };
    }
unfolding pmap_walk
at_first phys_avail nid some = rw (different (phys_avail 1) 0 some) refl

first_again :
    (phys_avail : ℕ → ℕ) (n nid : ℕ)
    → phys_avail 1 ≢ 0
    → sections_walked phys_avail n (record { restart = true; nid = nid })
      ≡ repeat n (phys_avail 0, phys_avail 1)
first_again phys_avail zero nid some = refl
first_again phys_avail (suc n) nid some = rw (at_first phys_avail nid some) (
    ap (λ (rest : List (ℕ × ℕ)). (phys_avail 0, phys_avail 1) ∷ rest)
      (first_again phys_avail n 2 some))

-- Where the kernel has a range of memory, a walk that goes on while cr_host_pmap_walk() returns 1 is given
-- the first range, in bytes, by each call, and no other: it does not end.
pub pmap_walk-repeat :
    (phys_avail : ℕ → ℕ) (n : ℕ)
    → phys_avail 1 ≢ 0
    → sections_walked phys_avail n walk_params ≡ repeat n (phys_avail 0, phys_avail 1)
pmap_walk-repeat phys_avail n some = first_again phys_avail n 0 some
