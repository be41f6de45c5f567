-- ===== src/Descriptors/Formats/Unpack.antt =====
-- `TransmitDescriptor::unpack` of src/e1000/descriptors.rs: what every 16 bytes mean.
use e1000_emu.Prelude.{
  ℕ, ◌≡◌, refl, sym, ap, ◌∙◌, Bool, true, false, some, List, length, bit, bits, digit, digit-bit,
  if◌then◌else◌, IsBytes, from_be_bytes,
}
use e1000_emu.Packing.{Derive}
use e1000_emu.Descriptors.Formats.{
  TransmitDescriptorVariant, legacy, tcp_context, tcp_data, unpack_transmit, unpack_variant,
  transmit_descriptor_common, transmit_descriptor_legacy, transmit_descriptor_tcp_context,
  transmit_descriptor_tcp_data, ◌>>=◌,
}

-- The kind of the descriptor with the packed bits `w`: bit 93 (DEXT) and bit 84 (DTYP) tell.
abbrev pub variant_of : ℕ → TransmitDescriptorVariant
variant_of w =
    if bit 93 w
    then (if bit 84 w
        then tcp_data (transmit_descriptor_tcp_data.decode w)
        else tcp_context (transmit_descriptor_tcp_context.decode w))
    else legacy (transmit_descriptor_legacy.decode w)

dtyp-bit : (w : ℕ) → bits 84 1 w ≡ digit (bit 84 w)
dtyp-bit w = sym (digit-bit 84 w)

module _ ⦃D : Derive⦄ where
  unpack_variant_lem :
      (extended dtyp : Bool) (bs : List ℕ)
      → length bs ≡ 16
      → IsBytes bs
      → let w = from_be_bytes bs in
        unpack_variant extended (digit dtyp) bs
        ≡ some (
            if extended
            then (if dtyp
                then tcp_data (transmit_descriptor_tcp_data.decode w)
                else tcp_context (transmit_descriptor_tcp_context.decode w))
            else legacy (transmit_descriptor_legacy.decode w))
  unfolding unpack_variant
  unpack_variant_lem false dtyp bs l h = rw (D.unpack_lem transmit_descriptor_legacy bs l h) refl
  unpack_variant_lem true true bs l h = rw (D.unpack_lem transmit_descriptor_tcp_data bs l h) refl
  unpack_variant_lem true false bs l h =
      rw (D.unpack_lem transmit_descriptor_tcp_context bs l h) refl

  -- Every 16 bytes unpack: to a legacy descriptor if bit 93 is off, otherwise to a TCP/IP context
  -- descriptor if bit 84 is off and a TCP/IP data descriptor if it is on. The arm for other
  -- descriptor types is never taken.
  pub unpack_transmit_lem :
      (bs : List ℕ)
      → length bs ≡ 16
      → IsBytes bs
      → let w = from_be_bytes bs in
        unpack_transmit bs
        ≡ some (record { common = transmit_descriptor_common.decode w; variant = variant_of w })
  unfolding unpack_transmit
  unpack_transmit_lem bs l h =
      let w = from_be_bytes bs in
      rw (D.unpack_lem transmit_descriptor_common bs l h, ◌>>=◌)
        (rw
          (
            ap (λ n. unpack_variant (bit 93 w) n bs) (dtyp-bit w)
                ∙ unpack_variant_lem (bit 93 w) (bit 84 w) bs l h,
            ◌>>=◌,
          )
          refl)
