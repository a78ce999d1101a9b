-- ===== src/Base/BitField.antt =====
-- Bit fields of a packed C struct, on the word that the struct is stored as. A field is given by
-- its lowest bit and its width, and a value that is stored into it is cut to the width.
use Prim.Native.Nat.{ℕ, ◌+◌, ◌-◌, ◌*◌, ◌/◌, ◌%◌, ◌^◌}

pub record Field : Type 0 where
  pub low : ℕ
  pub width : ℕ

abbrev pub field : ℕ → ℕ → Field
field l w = record { low = l; width = w }

abbrev pub get_field : Field → ℕ → ℕ
get_field f word = word / 2 ^ f.low % 2 ^ f.width

abbrev pub set_field : Field → ℕ → ℕ → ℕ
set_field f v word = word - get_field f word * 2 ^ f.low + v % 2 ^ f.width * 2 ^ f.low
