-- ===== src/Descriptors/Formats.antt =====
-- The descriptor formats of src/e1000/descriptors.rs with their bit layouts, and the packing of
-- transmit descriptors, which the source writes by hand.
pub mod Unpack
pub mod Fits
pub mod Bytes
pub mod Combined
pub mod WriteBack
use e1000_emu.Prelude.{
  ℕ, ◌+◌, ◌*◌, ◌^◌, Bool, true, false, ◌||◌, Option, none, some, List, [], ◌∷◌, bit_or, digit, bit,
  bits, ◌==◌, if◌then◌else◌,
}
use mathlib.Core.Option
use e1000_emu.Packing.{Layout, PackedStruct, Derive}

-- `status_ixsm`, bit 98, is always on.
pub record ReceiveDescriptor : Type 0 where
  pub buffer : ℕ
  pub length : ℕ
  pub status_dd : Bool
  pub status_eop : Bool

abbrev pub receive_descriptor : Layout ReceiveDescriptor
receive_descriptor = record {
  size = 16;
  encode = λ d.
      d.buffer
      + d.length * 2 ^ 64
      + digit d.status_dd * 2 ^ 96
      + digit d.status_eop * 2 ^ 97
      + 2 ^ 98;
  decode = λ w. record {
    buffer = bits 0 64 w;
    length = bits 64 16 w;
    status_dd = bit 96 w;
    status_eop = bit 97 w;
  };
}

pub record TransmitDescriptorCommon : Type 0 where
  pub dtyp : ℕ
  pub cmd_rs : Bool
  pub cmd_rps : Bool
  pub cmd_dext : Bool
  pub status_dd : Bool

abbrev pub transmit_descriptor_common : Layout TransmitDescriptorCommon
transmit_descriptor_common = record {
  size = 16;
  encode = λ d.
      d.dtyp * 2 ^ 84
      + digit d.cmd_rs * 2 ^ 91
      + digit d.cmd_rps * 2 ^ 92
      + digit d.cmd_dext * 2 ^ 93
      + digit d.status_dd * 2 ^ 96;
  decode = λ w. record {
    dtyp = bits 84 1 w;
    cmd_rs = bit 91 w;
    cmd_rps = bit 92 w;
    cmd_dext = bit 93 w;
    status_dd = bit 96 w;
  };
}

unfoldable pub report_status : TransmitDescriptorCommon → Bool
report_status d = d.cmd_rs || d.cmd_rps

pub record TransmitDescriptorLegacy : Type 0 where
  pub buffer : ℕ
  pub length : ℕ
  pub cso : ℕ
  pub cmd_eop : Bool
  pub cmd_ic : Bool
  pub css : ℕ
  pub special : ℕ

abbrev pub transmit_descriptor_legacy : Layout TransmitDescriptorLegacy
transmit_descriptor_legacy = record {
  size = 16;
  encode = λ d.
      d.buffer
      + d.length * 2 ^ 64
      + d.cso * 2 ^ 80
      + digit d.cmd_eop * 2 ^ 88
      + digit d.cmd_ic * 2 ^ 90
      + d.css * 2 ^ 104
      + d.special * 2 ^ 112;
  decode = λ w. record {
    buffer = bits 0 64 w;
    length = bits 64 16 w;
    cso = bits 80 8 w;
    cmd_eop = bit 88 w;
    cmd_ic = bit 90 w;
    css = bits 104 8 w;
    special = bits 112 16 w;
  };
}

pub record TransmitDescriptorTcpContext : Type 0 where
  pub ip_css : ℕ
  pub ip_cso : ℕ
  pub ip_cse : ℕ
  pub tu_css : ℕ
  pub tu_cso : ℕ
  pub tu_cse : ℕ
  pub paylen : ℕ
  pub tucmd_tcp : Bool
  pub tucmd_ip : Bool
  pub tucmd_tse : Bool
  pub hdrlen : ℕ
  pub mss : ℕ

abbrev pub transmit_descriptor_tcp_context : Layout TransmitDescriptorTcpContext
transmit_descriptor_tcp_context = record {
  size = 16;
  encode = λ d.
      d.ip_css
      + d.ip_cso * 2 ^ 8
      + d.ip_cse * 2 ^ 16
      + d.tu_css * 2 ^ 32
      + d.tu_cso * 2 ^ 40
      + d.tu_cse * 2 ^ 48
      + d.paylen * 2 ^ 64
      + digit d.tucmd_tcp * 2 ^ 88
      + digit d.tucmd_ip * 2 ^ 89
      + digit d.tucmd_tse * 2 ^ 90
      + d.hdrlen * 2 ^ 104
      + d.mss * 2 ^ 112;
  decode = λ w. record {
    ip_css = bits 0 8 w;
    ip_cso = bits 8 8 w;
    ip_cse = bits 16 16 w;
    tu_css = bits 32 8 w;
    tu_cso = bits 40 8 w;
    tu_cse = bits 48 16 w;
    paylen = bits 64 20 w;
    tucmd_tcp = bit 88 w;
    tucmd_ip = bit 89 w;
    tucmd_tse = bit 90 w;
    hdrlen = bits 104 8 w;
    mss = bits 112 16 w;
  };
}

pub record TransmitDescriptorTcpData : Type 0 where
  pub buffer : ℕ
  pub length : ℕ
  pub dcmd_eop : Bool
  pub popts_ixsm : Bool
  pub popts_txsm : Bool
  pub special : ℕ

abbrev pub transmit_descriptor_tcp_data : Layout TransmitDescriptorTcpData
transmit_descriptor_tcp_data = record {
  size = 16;
  encode = λ d.
      d.buffer
      + d.length * 2 ^ 64
      + digit d.dcmd_eop * 2 ^ 88
      + digit d.popts_ixsm * 2 ^ 104
      + digit d.popts_txsm * 2 ^ 105
      + d.special * 2 ^ 112;
  decode = λ w. record {
    buffer = bits 0 64 w;
    length = bits 64 20 w;
    dcmd_eop = bit 88 w;
    popts_ixsm = bit 104 w;
    popts_txsm = bit 105 w;
    special = bits 112 16 w;
  };
}

pub data TransmitDescriptorVariant : Type 0 where
  legacy : TransmitDescriptorLegacy → TransmitDescriptorVariant
  tcp_context : TransmitDescriptorTcpContext → TransmitDescriptorVariant
  tcp_data : TransmitDescriptorTcpData → TransmitDescriptorVariant

pub record TransmitDescriptor : Type 0 where
  pub common : TransmitDescriptorCommon
  pub variant : TransmitDescriptorVariant

-- `zip` stops at the shorter array.
unfoldable pub or_bytes : List ℕ → List ℕ → List ℕ
or_bytes [] ys = []
or_bytes (x ∷ xs) [] = x ∷ xs
or_bytes (x ∷ xs) (y ∷ ys) = bit_or x y ∷ or_bytes xs ys

infixl 5 ◌>>=◌
abbrev pub ◌>>=◌ : {A B : Type 0} → Option A → (A → Option B) → Option B
none >>= f = none
some a >>= f = f a

module _ ⦃D : Derive⦄ where
  unfoldable pub pack_variant : TransmitDescriptorVariant → Option (List ℕ)
  pack_variant (legacy d) = (D.derive transmit_descriptor_legacy).pack d
  pack_variant (tcp_context d) = (D.derive transmit_descriptor_tcp_context).pack d
  pack_variant (tcp_data d) = (D.derive transmit_descriptor_tcp_data).pack d

  unfoldable pub pack_transmit : TransmitDescriptor → Option (List ℕ)
  pack_transmit d = do
    common_packed ← (D.derive transmit_descriptor_common).pack d.common
    variant_packed ← pack_variant d.variant
    some (or_bytes common_packed variant_packed)

  unfoldable pub unpack_variant : Bool → ℕ → List ℕ → Option TransmitDescriptorVariant
  unpack_variant false dtyp src =
      Option.map legacy ((D.derive transmit_descriptor_legacy).unpack src)
  unpack_variant true dtyp src =
      if dtyp == 0
      then Option.map tcp_context ((D.derive transmit_descriptor_tcp_context).unpack src)
      else if dtyp == 1
      then Option.map tcp_data ((D.derive transmit_descriptor_tcp_data).unpack src)
      else none

  unfoldable pub unpack_transmit : List ℕ → Option TransmitDescriptor
  unpack_transmit src = do
    common ← (D.derive transmit_descriptor_common).unpack src
    variant ← unpack_variant common.cmd_dext common.dtyp src
    some (record { common = common; variant = variant })

  -- `impl PackedStruct for TransmitDescriptor`.
  abbrev pub transmit_descriptor : PackedStruct TransmitDescriptor
  transmit_descriptor = record { pack = pack_transmit; unpack = unpack_transmit }
