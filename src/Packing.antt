-- ===== src/Packing.antt =====
-- The interface to the crate `packed_struct`: the trait `PackedStruct` and its derive macro.
-- The macro's code is outside the repository. What the repository says of a struct is where each
-- field lies in the packed bits; a `Layout` writes that down, and `Derive` is any function from
-- layouts to implementations that packs and unpacks as the layout says.
pub mod Reference
use e1000_emu.Prelude.{
  ℕ, ◌^◌, ◌<◌, ◌≡◌, Option, some, List, length, IsBytes, from_be_bytes, to_be_bytes,
}

-- The trait: `ByteArray` is a list of bytes, the most significant one first.
pub record PackedStruct (A : Type 0) : Type 0 where
  pub pack : A → Option (List ℕ)
  pub unpack : List ℕ → Option A

-- The attributes of a struct. The packed bytes are read as one number, in which `lsb0` numbering
-- counts the bits from the least significant one.
pub record Layout (A : Type 0) : Type 0 where
  pub size : ℕ
  pub encode : A → ℕ
  pub decode : ℕ → A

-- Each field's value fits the bits that it is given.
pub record Fits {A : Type 0} (L : Layout A) (a : A) : Type 0 where
  pub in_size : L.encode a < 256 ^ L.size
  pub kept : L.decode (L.encode a) ≡ a

pub record Derive : Type 1 where
  pub derive : {A : Type 0} → Layout A → PackedStruct A
  pub pack_lem :
      {A : Type 0} (L : Layout A) (a : A)
      → Fits L a
      → (derive L).pack a ≡ some (to_be_bytes L.size (L.encode a))
  pub unpack_lem :
      {A : Type 0} (L : Layout A) (bs : List ℕ)
      → length bs ≡ L.size
      → IsBytes bs
      → (derive L).unpack bs ≡ some (L.decode (from_be_bytes bs))
