-- ===== src/Transmit/Buffer.antt =====
-- Byte buffers: slices that panic out of range, src/util.rs, and `write_internet_checksum`.
use e1000_emu.Prelude.{
  ℕ, ◌+◌, ◌-◌, ◌%◌, ◌^◌, Option, none, some, List, ◌++◌, length, take, drop, ltb, ◌==◌, ◌||◌,
  if◌then◌else◌, from_be_bytes, to_be_bytes,
}
use e1000_emu.NicContext.{InternetChecksum}

infixl 5 ◌>>=◌
abbrev pub ◌>>=◌ : {A B : Type 0} → Option A → (A → Option B) → Option B
none >>= f = none
some a >>= f = f a

-- `&data[from..to]`; `none` is the panic of a range that is out of order or out of bounds.
abbrev pub slice : List ℕ → ℕ → ℕ → Option (List ℕ)
slice bytes from to =
    if ltb to from || ltb (length bytes) to then none else some (take (to - from) (drop from bytes))

-- `data[offset..offset + bs.len()].copy_from_slice(bs)`.
abbrev pub write_slice : List ℕ → ℕ → List ℕ → Option (List ℕ)
write_slice bytes offset bs =
    if ltb (length bytes) (offset + length bs)
    then none
    else some (take offset bytes ++ (bs ++ drop (offset + length bs) bytes))

unfoldable pub wrapping_add_to_u16_be_bytes : List ℕ → ℕ → List ℕ
wrapping_add_to_u16_be_bytes bs by = to_be_bytes 2 ((from_be_bytes bs + by) % 2 ^ 16)

unfoldable pub wrapping_add_to_u32_be_bytes : List ℕ → ℕ → List ℕ
wrapping_add_to_u32_be_bytes bs by = to_be_bytes 4 ((from_be_bytes bs + by) % 2 ^ 32)

-- An update in place of `&mut data[offset..offset + n]`.
abbrev pub update_slice : List ℕ → ℕ → ℕ → (List ℕ → List ℕ) → Option (List ℕ)
update_slice bytes offset n f = do
  old ← slice bytes offset (offset + n)
  write_slice bytes offset (f old)

unfoldable pub write_internet_checksum :
    ⦃K : InternetChecksum⦄ → List ℕ → ℕ → ℕ → ℕ → Option (List ℕ)
write_internet_checksum ⦃K⦄ bytes offset start inclusive_end = do
  covered ← slice bytes start (if inclusive_end == 0 then length bytes else inclusive_end + 1)
  write_slice bytes offset (K.checksum covered)
