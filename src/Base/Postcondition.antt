-- ===== src/Base/Postcondition.antt =====
-- Postconditions of a C function on the state: one where it returns 0, and one where it returns
-- -ENOMEM, its only error. It neither reads an undefined value nor loops for ever.
use clearram.Base.Status.{enomem, Outcome, done, failed, undefined, out_of_fuel, try}
use mathlib.Core.Path.{◌≡◌}

abbrev pub Ends : {S : Type 0} → (S → Type 0) → (S → Type 0) → Outcome S → Type 0
Ends P Q (done s) = P s
Ends P Q (failed e s) = (e ≡ enomem) × Q s
Ends P Q undefined = ⊥
Ends P Q out_of_fuel = ⊥

pub Ends-try :
    {S : Type 0} (P R Q : S → Type 0) (m : Outcome S) (k : S → Outcome S)
    → Ends P Q m
    → ((s : S) → P s → Ends R Q (k s))
    → Ends R Q (try m k)
Ends-try P R Q (done s) k h next = next s h
Ends-try P R Q (failed e s) k h next = h
Ends-try P R Q undefined k h next = h
Ends-try P R Q out_of_fuel k h next = h

pub Ends-mono :
    {S : Type 0} (P Q P' Q' : S → Type 0) (m : Outcome S)
    → ((s : S) → P s → P' s)
    → ((s : S) → Q s → Q' s)
    → Ends P Q m
    → Ends P' Q' m
Ends-mono P Q P' Q' (done s) f g h = f s h
Ends-mono P Q P' Q' (failed e s) f g h = (h.0, g s h.1)
Ends-mono P Q P' Q' undefined f g h = h
Ends-mono P Q P' Q' out_of_fuel f g h = h

-- A postcondition of the calls that return 0, which says nothing of the others.
abbrev pub WhereDone : {S : Type 0} → (S → Type 0) → Outcome S → Type 0
WhereDone P (done s) = P s
WhereDone P (failed e s) = Unit {0}
WhereDone P undefined = Unit {0}
WhereDone P out_of_fuel = Unit {0}

pub WhereDone-Ends :
    {S : Type 0} (P P' Q : S → Type 0) (m : Outcome S)
    → ((s : S) → P s → P' s)
    → Ends P Q m
    → WhereDone P' m
WhereDone-Ends P P' Q (done s) f h = f s h
WhereDone-Ends P P' Q (failed e s) f h = tt
WhereDone-Ends P P' Q undefined f h = tt
WhereDone-Ends P P' Q out_of_fuel f h = tt

pub WhereDone-mono :
    {S : Type 0} (P P' : S → Type 0) (m : Outcome S)
    → ((s : S) → P s → P' s)
    → WhereDone P m
    → WhereDone P' m
WhereDone-mono P P' (done s) f h = f s h
WhereDone-mono P P' (failed e s) f h = tt
WhereDone-mono P P' undefined f h = tt
WhereDone-mono P P' out_of_fuel f h = tt

pub WhereDone-both :
    {S : Type 0} (P Q : S → Type 0) (m : Outcome S)
    → WhereDone P m
    → WhereDone Q m
    → WhereDone (λ s. P s × Q s) m
WhereDone-both P Q (done s) h k = (h, k)
WhereDone-both P Q (failed e s) h k = tt
WhereDone-both P Q undefined h k = tt
WhereDone-both P Q out_of_fuel h k = tt

pub WhereDone-try :
    {S : Type 0} (P Q : S → Type 0) (m : Outcome S) (k : S → Outcome S)
    → WhereDone P m
    → ((s : S) → P s → WhereDone Q (k s))
    → WhereDone Q (try m k)
WhereDone-try P Q (done s) k h next = next s h
WhereDone-try P Q (failed e s) k h next = tt
WhereDone-try P Q undefined k h next = tt
WhereDone-try P Q out_of_fuel k h next = tt
