-- ===== src/Descriptors/Formats/Combined.antt =====
-- The fields of a transmit descriptor of src/e1000/descriptors.rs in its two parts, combined by `|`:
-- each part keeps its own.
use e1000_emu.Prelude.{
  ℕ, ◌*◌, ◌/◌, ◌%◌, ◌^◌, ◌<◌, ◌≡◌, refl, ap, ◌∙◌, Bool, true, false, ◌||◌, bits, bit, digit,
  digit_laws, bit_or, bit_or-zero_right, bit_or-own, bits-bit_or, bits-bit_or_right, bit-bit_or,
  arith,
}
use e1000_emu.Descriptors.Formats.{
  TransmitDescriptorCommon, transmit_descriptor_common, transmit_descriptor_legacy,
  transmit_descriptor_tcp_context, transmit_descriptor_tcp_data,
}

-- A number whose bits at the places of the common fields are off, but perhaps for that of DTYP.
abbrev pub Leaves : TransmitDescriptorCommon → ℕ → Type 0
Leaves c y =
    (bit_or c.dtyp (bits 84 1 y) ≡ c.dtyp)
    × (y / 2 ^ 91 % 2 ≡ 0)
    × (y / 2 ^ 92 % 2 ≡ 0)
    × (y / 2 ^ 93 % 2 ≡ 0)
    × (y / 2 ^ 96 % 2 ≡ 0)

or-false : (b : Bool) → (b || false) ≡ b
or-false true = refl
or-false false = refl

pub common_kept :
    (c : TransmitDescriptorCommon) (y : ℕ)
    → c.dtyp < 2
    → Leaves c y
    → transmit_descriptor_common.decode (bit_or (transmit_descriptor_common.encode c) y) ≡ c
common_kept c y one (h84, h91, h92, h93, h96) = λ i. record {
  dtyp = same i;
  cmd_rs = flag 91 c.cmd_rs (omega (digit_laws, one)) h91 i;
  cmd_rps = flag 92 c.cmd_rps (omega (digit_laws, one)) h92 i;
  cmd_dext = flag 93 c.cmd_dext (omega (digit_laws, one)) h93 i;
  status_dd = flag 96 c.status_dd (omega (digit_laws, one)) h96 i;
}
  where
    x : ℕ
    x = transmit_descriptor_common.encode c

    flag : (k : ℕ) (b : Bool) → x / 2 ^ k % 2 ≡ digit b → y / 2 ^ k % 2 ≡ 0 → bit k (bit_or x y) ≡ b
    flag k b h l = bit-bit_or k x y b false h l ∙ or-false b

    own : bits 84 1 x ≡ c.dtyp
    own = omega (digit_laws, one)

    same : bits 84 1 (bit_or x y) ≡ c.dtyp
    same = bits-bit_or 84 1 x y ∙ rw own h84

pub legacy_kept :
    (c : TransmitDescriptorCommon) (w : ℕ)
    → c.dtyp < 2
    → w / 2 ^ 84 % 2 ≡ c.dtyp
    → transmit_descriptor_legacy.decode (
        bit_or
          (transmit_descriptor_common.encode c)
          (transmit_descriptor_legacy.encode (transmit_descriptor_legacy.decode w)))
      ≡ transmit_descriptor_legacy.decode w
legacy_kept c w one own = λ i. record {
  buffer = bits-bit_or_right 0 64 x y (bits 0 64 w) (omega (digit_laws, one)) (omega digit_laws) i;
  length =
      bits-bit_or_right 64 16 x y (bits 64 16 w) (omega (digit_laws, one)) (omega digit_laws) i;
  css = bits-bit_or_right 104 8 x y (bits 104 8 w) (omega (digit_laws, one)) (omega digit_laws) i;
  special =
      bits-bit_or_right 112 16 x y (bits 112 16 w) (omega (digit_laws, one)) (omega digit_laws) i;
  cso = same_cso i;
  cmd_eop = bit-bit_or 88 x y false (bit 88 w) (omega (digit_laws, one)) (omega digit_laws) i;
  cmd_ic = bit-bit_or 90 x y false (bit 90 w) (omega (digit_laws, one)) (omega digit_laws) i;
}
  where
    x : ℕ
    x = transmit_descriptor_common.encode c

    y : ℕ
    y = transmit_descriptor_legacy.encode (transmit_descriptor_legacy.decode w)

    common_bits : bits 80 8 x ≡ c.dtyp * 2 ^ 4
    common_bits = omega (digit_laws, one)

    own_bits : bits 80 8 y ≡ bits 80 8 w
    own_bits = omega digit_laws

    -- DTYP lies in the field.
    same_cso : bits 80 8 (bit_or x y) ≡ bits 80 8 w
    same_cso =
        bits-bit_or 80 8 x y
        ∙ rw (common_bits, own_bits) (bit_or-own 4 (bits 80 8 w) c.dtyp (omega (arith, own)))

pub tcp_context_kept :
    (c : TransmitDescriptorCommon) (w : ℕ)
    → c.dtyp < 2
    → transmit_descriptor_tcp_context.decode (
        bit_or
          (transmit_descriptor_common.encode c)
          (transmit_descriptor_tcp_context.encode (transmit_descriptor_tcp_context.decode w)))
      ≡ transmit_descriptor_tcp_context.decode w
tcp_context_kept c w one = λ i. record {
  ip_css = bits-bit_or_right 0 8 x y (bits 0 8 w) (omega (digit_laws, one)) (omega digit_laws) i;
  ip_cso = bits-bit_or_right 8 8 x y (bits 8 8 w) (omega (digit_laws, one)) (omega digit_laws) i;
  ip_cse =
      bits-bit_or_right 16 16 x y (bits 16 16 w) (omega (digit_laws, one)) (omega digit_laws) i;
  tu_css = bits-bit_or_right 32 8 x y (bits 32 8 w) (omega (digit_laws, one)) (omega digit_laws) i;
  tu_cso = bits-bit_or_right 40 8 x y (bits 40 8 w) (omega (digit_laws, one)) (omega digit_laws) i;
  tu_cse =
      bits-bit_or_right 48 16 x y (bits 48 16 w) (omega (digit_laws, one)) (omega digit_laws) i;
  paylen =
      bits-bit_or_right 64 20 x y (bits 64 20 w) (omega (digit_laws, one)) (omega digit_laws) i;
  hdrlen =
      bits-bit_or_right 104 8 x y (bits 104 8 w) (omega (digit_laws, one)) (omega digit_laws) i;
  mss = bits-bit_or_right 112 16 x y (bits 112 16 w) (omega (digit_laws, one)) (omega digit_laws) i;
  tucmd_tcp = bit-bit_or 88 x y false (bit 88 w) (omega (digit_laws, one)) (omega digit_laws) i;
  tucmd_ip = bit-bit_or 89 x y false (bit 89 w) (omega (digit_laws, one)) (omega digit_laws) i;
  tucmd_tse = bit-bit_or 90 x y false (bit 90 w) (omega (digit_laws, one)) (omega digit_laws) i;
}
  where
    x : ℕ
    x = transmit_descriptor_common.encode c

    y : ℕ
    y = transmit_descriptor_tcp_context.encode (transmit_descriptor_tcp_context.decode w)

pub tcp_data_kept :
    (c : TransmitDescriptorCommon) (w : ℕ)
    → c.dtyp < 2
    → transmit_descriptor_tcp_data.decode (
        bit_or
          (transmit_descriptor_common.encode c)
          (transmit_descriptor_tcp_data.encode (transmit_descriptor_tcp_data.decode w)))
      ≡ transmit_descriptor_tcp_data.decode w
tcp_data_kept c w one = λ i. record {
  buffer = bits-bit_or_right 0 64 x y (bits 0 64 w) (omega (digit_laws, one)) (omega digit_laws) i;
  length =
      bits-bit_or_right 64 20 x y (bits 64 20 w) (omega (digit_laws, one)) (omega digit_laws) i;
  special =
      bits-bit_or_right 112 16 x y (bits 112 16 w) (omega (digit_laws, one)) (omega digit_laws) i;
  dcmd_eop = bit-bit_or 88 x y false (bit 88 w) (omega (digit_laws, one)) (omega digit_laws) i;
  popts_ixsm = bit-bit_or 104 x y false (bit 104 w) (omega (digit_laws, one)) (omega digit_laws) i;
  popts_txsm = bit-bit_or 105 x y false (bit 105 w) (omega (digit_laws, one)) (omega digit_laws) i;
}
  where
    x : ℕ
    x = transmit_descriptor_common.encode c

    y : ℕ
    y = transmit_descriptor_tcp_data.encode (transmit_descriptor_tcp_data.decode w)

pub legacy-Leaves :
    (c : TransmitDescriptorCommon) (w : ℕ)
    → c.dtyp < 2
    → w / 2 ^ 84 % 2 ≡ c.dtyp
    → Leaves c (transmit_descriptor_legacy.encode (transmit_descriptor_legacy.decode w))
legacy-Leaves c w one own = (
  rw kind (ap (λ n. bit_or n c.dtyp) once ∙ bit_or-own 0 c.dtyp c.dtyp (omega (arith, one))),
  omega digit_laws,
  omega digit_laws,
  omega digit_laws,
  omega digit_laws,
)
  where
    kind :
        bits 84 1 (transmit_descriptor_legacy.encode (transmit_descriptor_legacy.decode w)) ≡ c.dtyp
    kind = omega (digit_laws, own)

    once : c.dtyp ≡ c.dtyp * 2 ^ 0
    once = omega arith

pub tcp_context-Leaves :
    (c : TransmitDescriptorCommon) (w : ℕ)
    → Leaves c (transmit_descriptor_tcp_context.encode (transmit_descriptor_tcp_context.decode w))
tcp_context-Leaves c w =
    let free : bits 84 1
          (transmit_descriptor_tcp_context.encode (transmit_descriptor_tcp_context.decode w))
        ≡ 0 =
      omega digit_laws in
    (
      rw free (bit_or-zero_right c.dtyp),
      omega digit_laws,
      omega digit_laws,
      omega digit_laws,
      omega digit_laws,
    )

pub tcp_data-Leaves :
    (c : TransmitDescriptorCommon) (w : ℕ)
    → Leaves c (transmit_descriptor_tcp_data.encode (transmit_descriptor_tcp_data.decode w))
tcp_data-Leaves c w =
    let free : bits 84 1
          (transmit_descriptor_tcp_data.encode (transmit_descriptor_tcp_data.decode w))
        ≡ 0 =
      omega digit_laws in
    (
      rw free (bit_or-zero_right c.dtyp),
      omega digit_laws,
      omega digit_laws,
      omega digit_laws,
      omega digit_laws,
    )
