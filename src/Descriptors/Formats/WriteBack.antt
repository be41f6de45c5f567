-- ===== src/Descriptors/Formats/WriteBack.antt =====
-- What a transmit descriptor of src/e1000/descriptors.rs keeps when it is unpacked, changed in its
-- status and packed again.
use e1000_emu.Prelude.{
  ℕ, ◌^◌, ◌<◌, ◌≡◌, refl, sym, subst, ap, ap₂, ◌∙◌, inl, inr, Bool, true, false, some, List, length,
  bit, digit_laws, bit_or, bit_or-lt, arith, ◌==◌, Bool-cases, IsBytes, to_be_bytes, to_le_bytes,
  from_be_bytes, from_le_bytes, from_le_bytes-to_le_bytes, length-reverse, length-to_le_bytes,
  to_le_bytes-IsBytes, IsBytes-reverse,
}
use mathlib.Core.List.{reverse-reverse}
use e1000_emu.Packing.{Derive}
use e1000_emu.Descriptors.Formats.{
  TransmitDescriptor, TransmitDescriptorCommon, TransmitDescriptorVariant, legacy, tcp_context,
  tcp_data, pack_transmit, pack_variant, unpack_transmit, transmit_descriptor_common,
  transmit_descriptor_legacy, transmit_descriptor_tcp_context, transmit_descriptor_tcp_data,
}
use e1000_emu.Descriptors.Formats.Unpack.{variant_of, unpack_transmit_lem}
use e1000_emu.Descriptors.Formats.Fits.{common-Fits, legacy-Fits, tcp_context-Fits, tcp_data-Fits}
use e1000_emu.Descriptors.Formats.Bytes.{or_bytes-to_be_bytes}
use e1000_emu.Descriptors.Formats.Combined.{
  common_kept, legacy_kept, tcp_context_kept, tcp_data_kept, legacy-Leaves, tcp_context-Leaves,
  tcp_data-Leaves,
}

-- The descriptor with the common fields `c` and the kind and fields of the packed bits `w`.
abbrev pub with_common : TransmitDescriptorCommon → ℕ → TransmitDescriptor
with_common c w = record { common = c; variant = variant_of w }

-- The descriptor with another bit DD.
abbrev pub with_status : Bool → TransmitDescriptor → TransmitDescriptor
with_status dd d = record d { common = record (d.common) { status_dd = dd } }

-- It is packed to 16 bytes that unpack to it.
abbrev pub IsKept : ⦃D : Derive⦄ → TransmitDescriptor → Type 0
IsKept d =
    (bs : List ℕ) × (pack_transmit d ≡ some bs) × (length bs ≡ 16) × (unpack_transmit bs ≡ some d)

module _ ⦃D : Derive⦄ where
  -- The combined numbers tell what the packed bytes unpack to.
  combined-IsKept :
      (d : TransmitDescriptor) (y : ℕ)
      → d.common.dtyp < 2
      → y < 2 ^ 128
      → pack_variant d.variant ≡ some (to_be_bytes 16 y)
      → transmit_descriptor_common.decode (bit_or (transmit_descriptor_common.encode d.common) y)
        ≡ d.common
      → variant_of (bit_or (transmit_descriptor_common.encode d.common) y) ≡ d.variant
      → IsKept d
  unfolding pack_transmit
  combined-IsKept d y one small packed same_common same_variant = (bs, packs, size, unpacks)
    where
      x : ℕ
      x = transmit_descriptor_common.encode d.common

      n : ℕ
      n = bit_or x y

      bs : List ℕ
      bs = to_be_bytes 16 n

      packs : pack_transmit d ≡ some bs
      packs =
          rw (D.pack_lem transmit_descriptor_common d.common (common-Fits d.common one), packed)
            (ap some (or_bytes-to_be_bytes 16 x y))

      size : length bs ≡ 16
      size = length-reverse (to_le_bytes 16 n) ∙ length-to_le_bytes 16 n

      number : from_be_bytes bs ≡ n
      number =
          ap from_le_bytes (reverse-reverse (to_le_bytes 16 n))
          ∙ from_le_bytes-to_le_bytes 16 n (bit_or-lt 128 x y (omega (digit_laws, one)) small)

      unpacks : unpack_transmit bs ≡ some d
      unpacks =
          unpack_transmit_lem bs size
            (IsBytes-reverse (to_le_bytes 16 n) (to_le_bytes-IsBytes 16 n))
          ∙ ap (λ m. some (with_common (transmit_descriptor_common.decode m) m)) number
          ∙ ap₂ (λ c v. some (record { common = c; variant = v })) same_common same_variant

  -- The common fields of `w` with DD as given.
  abbrev status_common : Bool → ℕ → TransmitDescriptorCommon
  status_common dd w = record (transmit_descriptor_common.decode w) { status_dd = dd }

  legacy-IsKept :
      (dd : Bool) (w : ℕ)
      → bit 93 w ≡ false
      → IsKept (record {
        common = status_common dd w;
        variant = legacy (transmit_descriptor_legacy.decode w);
      })
  unfolding pack_variant
  legacy-IsKept dd w plain =
      let c = status_common dd w in
      let one : c.dtyp < 2 = omega arith in
      let v = transmit_descriptor_legacy.decode w in
      let y = transmit_descriptor_legacy.encode v in
      let n = bit_or (transmit_descriptor_common.encode c) y in
      let common = common_kept c y one (legacy-Leaves c w one refl) in
      let extended : bit 93 n ≡ false = ap (λ c. c.cmd_dext) common ∙ plain in
      combined-IsKept (record { common = c; variant = legacy v }) y one (legacy-Fits w).in_size
        (D.pack_lem transmit_descriptor_legacy v (legacy-Fits w)) common
        (rw extended (ap legacy (legacy_kept c w one refl)))

  tcp_context-IsKept :
      (dd : Bool) (w : ℕ)
      → bit 93 w ≡ true
      → bit 84 w ≡ false
      → IsKept (record {
        common = status_common dd w;
        variant = tcp_context (transmit_descriptor_tcp_context.decode w);
      })
  unfolding pack_variant
  tcp_context-IsKept dd w dext kind =
      let c = status_common dd w in
      let one : c.dtyp < 2 = omega arith in
      let v = transmit_descriptor_tcp_context.decode w in
      let y = transmit_descriptor_tcp_context.encode v in
      let n = bit_or (transmit_descriptor_common.encode c) y in
      let common = common_kept c y one (tcp_context-Leaves c w) in
      let extended : bit 93 n ≡ true = ap (λ c. c.cmd_dext) common ∙ dext in
      let same : bit 84 n ≡ false = ap (λ c. c.dtyp == 1) common ∙ kind in
      combined-IsKept (record { common = c; variant = tcp_context v }) y one
        (tcp_context-Fits w).in_size
        (D.pack_lem transmit_descriptor_tcp_context v (tcp_context-Fits w)) common
        (rw (extended, same) (ap tcp_context (tcp_context_kept c w one)))

  tcp_data-IsKept :
      (dd : Bool) (w : ℕ)
      → bit 93 w ≡ true
      → bit 84 w ≡ true
      → IsKept (record {
        common = status_common dd w;
        variant = tcp_data (transmit_descriptor_tcp_data.decode w);
      })
  unfolding pack_variant
  tcp_data-IsKept dd w dext kind =
      let c = status_common dd w in
      let one : c.dtyp < 2 = omega arith in
      let v = transmit_descriptor_tcp_data.decode w in
      let y = transmit_descriptor_tcp_data.encode v in
      let n = bit_or (transmit_descriptor_common.encode c) y in
      let common = common_kept c y one (tcp_data-Leaves c w) in
      let extended : bit 93 n ≡ true = ap (λ c. c.cmd_dext) common ∙ dext in
      let same : bit 84 n ≡ true = ap (λ c. c.dtyp == 1) common ∙ kind in
      combined-IsKept (record { common = c; variant = tcp_data v }) y one (tcp_data-Fits w).in_size
        (D.pack_lem transmit_descriptor_tcp_data v (tcp_data-Fits w)) common
        (rw (extended, same) (ap tcp_data (tcp_data_kept c w one)))

  status-IsKept : (dd : Bool) (w : ℕ) → IsKept (with_common (status_common dd w) w)
  status-IsKept dd w = elim (Bool-cases (bit 93 w)) [
    | inl extended ↦ elim (Bool-cases (bit 84 w)) [
      | inl p ↦
          of_kind (tcp_data (transmit_descriptor_tcp_data.decode w)) (rw (extended, p) refl)
            (tcp_data-IsKept dd w extended p)
      | inr p ↦
          of_kind (tcp_context (transmit_descriptor_tcp_context.decode w)) (rw (extended, p) refl)
            (tcp_context-IsKept dd w extended p)
    ]
    | inr plain ↦
        of_kind (legacy (transmit_descriptor_legacy.decode w)) (rw plain refl)
          (legacy-IsKept dd w plain)
  ]
    where
      of_kind :
          (v : TransmitDescriptorVariant)
          → variant_of w ≡ v
          → IsKept (record { common = status_common dd w; variant = v })
          → IsKept (with_common (status_common dd w) w)
      of_kind v same k =
          subst (λ v. IsKept (record { common = status_common dd w; variant = v })) (sym same) k

  -- A descriptor is written back as it was read, but for DD: every 16 bytes unpack to a transmit
  -- descriptor, and with DD set or cleared it is packed to 16 bytes that unpack to that descriptor
  -- again, of the same kind and with all other fields the same. So no field of one part of the
  -- descriptor is damaged by the bits of the other.
  pub unpack_transmit-pack_transmit :
      (bs : List ℕ) (dd : Bool)
      → length bs ≡ 16
      → IsBytes bs
      → (d : TransmitDescriptor) × (unpack_transmit bs ≡ some d) × IsKept (with_status dd d)
  unpack_transmit-pack_transmit bs dd l h =
      let w = from_be_bytes bs in
      (
        with_common (transmit_descriptor_common.decode w) w,
        unpack_transmit_lem bs l h,
        status-IsKept dd w,
      )
