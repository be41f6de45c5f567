-- ===== src/Packing/Reference.antt =====
-- A function in the place of the derive macro: it meets the interface, and tests run with it.
use e1000_emu.Prelude.{
  ℕ, ◌≡◌, refl, Option, none, some, List, length, IsBytes, from_be_bytes, to_be_bytes, ◌==◌, ==_iff,
  if◌then◌else◌,
}
use e1000_emu.Packing.{Layout, Derive}

module _ {A : Type 0} where
  abbrev layout_pack : Layout A → A → Option (List ℕ)
  layout_pack L a = some (to_be_bytes L.size (L.encode a))

  abbrev layout_unpack : Layout A → List ℕ → Option A
  layout_unpack L bs = if length bs == L.size then some (L.decode (from_be_bytes bs)) else none

  pub layout_unpack_lem :
      (L : Layout A) (bs : List ℕ)
      → length bs ≡ L.size
      → IsBytes bs
      → layout_unpack L bs ≡ some (L.decode (from_be_bytes bs))
  layout_unpack_lem L bs e h = rw ((==_iff (length bs) L.size).1 e)

instance abbrev pub reference : Derive
reference = record {
  derive = λ L. record { pack = layout_pack L; unpack = layout_unpack L };
  pack_lem = λ L a h. refl;
  unpack_lem = λ L bs e h. layout_unpack_lem L bs e h;
}
