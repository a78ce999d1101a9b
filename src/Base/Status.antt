-- ===== src/Base/Status.antt =====
-- What a C function that may fail does to the state: it returns 0, returns a negative errno value,
-- reads a variable or an array slot that has no value, or runs out of the fuel of its loop.

-- The values that the program's functions return as `-errno`.
pub data Errno : Type 0 where
  enomem : Errno
  esrch : Errno
  einval : Errno

pub data Outcome (S : Type 0) : Type 0 where
  done : S → Outcome S
  failed : Errno → S → Outcome S
  undefined : Outcome S
  out_of_fuel : Outcome S

-- `if ((err = f(...)) < 0) return err;` on one state.
abbrev pub try : {S : Type 0} → Outcome S → (S → Outcome S) → Outcome S
try (done s) k = k s
try (failed e s) k = failed e s
try undefined k = undefined
try out_of_fuel k = out_of_fuel

-- What a C function returns that leaves the state alone.
pub data Result (A : Type 0) : Type 0 where
  ok : A → Result A
  err : Errno → Result A
