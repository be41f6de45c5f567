-- ===== src/Descriptors/Ring.antt =====
-- `DescriptorRing` of src/e1000/descriptors.rs: a ring of 16-byte descriptors in guest memory, of
-- which the part from `head` to `tail` is owned by the hardware. `usize` has 64 bits.
pub mod Laws
pub mod Outcomes
use e1000_emu.Prelude.{
  ℕ, ◌+◌, ◌-◌, ◌*◌, ◌%◌, ◌^◌, Bool, Option, none, some, ltb, ◌==◌, if◌then◌else◌,
}
use mathlib.Core.List.{reverse}
use e1000_emu.Outcome.{ok, M, pure, fail, modify, or_fail, or_panic}
use e1000_emu.Outcome.{◌>>=◌, ◌>>◌}
use e1000_emu.Packing.{PackedStruct}
use e1000_emu.NicContext.{NicContext}

abbrev pub descriptor_bytes : ℕ
descriptor_bytes = 16

pub record DescriptorRing : Type 0 where
  pub ring_address : ℕ
  pub length : ℕ
  pub head : ℕ
  pub tail : ℕ

-- `tail - self.head` wraps.
unfoldable pub hardware_owned_descriptors : DescriptorRing → ℕ
hardware_owned_descriptors r =
    let tail = if ltb r.tail r.head then r.tail + r.length else r.tail in
    (tail + 2 ^ 64 - r.head) % 2 ^ 64

unfoldable pub is_empty : DescriptorRing → Bool
is_empty r = r.head == r.tail

-- `none` is the panic of a remainder by zero.
unfoldable pub advance_head : DescriptorRing → Option DescriptorRing
advance_head r = if r.length == 0 then none else some (record r { head = (r.head + 1) % r.length })

unfoldable pub head_check : {S : Type 0} → DescriptorRing → M S (Unit {0})
head_check r = if is_empty r then fail else pure tt

module _ {C A : Type 0} ⦃N : NicContext C⦄ (P : PackedStruct A) where
  unfoldable pub read_descriptor : DescriptorRing → ℕ → M C A
  read_descriptor r index = do
    modify (N.dma_prepare r.ring_address (r.length * descriptor_bytes))
    bytes ← λ c.
        let (bs, c') = N.dma_read r.ring_address descriptor_bytes (index * descriptor_bytes) c in
        ok bs c'
    or_fail (P.unpack (reverse bytes))

  unfoldable pub write_descriptor : DescriptorRing → A → ℕ → M C (Unit {0})
  write_descriptor r desc index = do
    modify (N.dma_prepare r.ring_address (r.length * descriptor_bytes))
    bytes ← or_fail (P.pack desc)
    modify (N.dma_write r.ring_address (reverse bytes) (index * descriptor_bytes))

  unfoldable pub read_head : DescriptorRing → M C A
  read_head r = do head_check r; read_descriptor r r.head

  -- The ring with its head advanced.
  unfoldable pub write_and_advance_head : DescriptorRing → A → M C DescriptorRing
  write_and_advance_head r desc = do
    head_check r
    write_descriptor r desc r.head
    or_panic (advance_head r)
