-- ===== src/Descriptors/Formats/Fits.antt =====
-- The fields of the transmit descriptors of src/e1000/descriptors.rs fit the bits that they are
-- given.
use e1000_emu.Prelude.{ℕ, ◌<◌, ◌≡◌, bits, bit, digit_laws, bit-eq-of_digit}
use e1000_emu.Packing.{Fits}
use e1000_emu.Descriptors.Formats.{
  TransmitDescriptorCommon, transmit_descriptor_common, transmit_descriptor_legacy,
  transmit_descriptor_tcp_context, transmit_descriptor_tcp_data,
}

pub legacy-Fits : (w : ℕ) → Fits transmit_descriptor_legacy (transmit_descriptor_legacy.decode w)
legacy-Fits w = record {
  in_size = omega digit_laws;
  kept = λ i. record {
    buffer = same_buffer i;
    length = same_length i;
    cso = same_cso i;
    cmd_eop = bit-eq-of_digit 88 e (bit 88 w) (omega digit_laws) i;
    cmd_ic = bit-eq-of_digit 90 e (bit 90 w) (omega digit_laws) i;
    css = same_css i;
    special = same_special i;
  };
}
  where
    e : ℕ
    e = transmit_descriptor_legacy.encode (transmit_descriptor_legacy.decode w)

    same_buffer : bits 0 64 e ≡ bits 0 64 w
    same_buffer = omega digit_laws

    same_length : bits 64 16 e ≡ bits 64 16 w
    same_length = omega digit_laws

    same_cso : bits 80 8 e ≡ bits 80 8 w
    same_cso = omega digit_laws

    same_css : bits 104 8 e ≡ bits 104 8 w
    same_css = omega digit_laws

    same_special : bits 112 16 e ≡ bits 112 16 w
    same_special = omega digit_laws

pub common-Fits : (d : TransmitDescriptorCommon) → d.dtyp < 2 → Fits transmit_descriptor_common d
common-Fits d one = record {
  in_size = omega (digit_laws, one);
  kept = λ i. record {
    dtyp = same i;
    cmd_rs = bit-eq-of_digit 91 e d.cmd_rs (omega (digit_laws, one)) i;
    cmd_rps = bit-eq-of_digit 92 e d.cmd_rps (omega (digit_laws, one)) i;
    cmd_dext = bit-eq-of_digit 93 e d.cmd_dext (omega (digit_laws, one)) i;
    status_dd = bit-eq-of_digit 96 e d.status_dd (omega (digit_laws, one)) i;
  };
}
  where
    e : ℕ
    e = transmit_descriptor_common.encode d

    same : bits 84 1 e ≡ d.dtyp
    same = omega (digit_laws, one)

pub tcp_context-Fits :
    (w : ℕ) → Fits transmit_descriptor_tcp_context (transmit_descriptor_tcp_context.decode w)
tcp_context-Fits w = record {
  in_size = omega digit_laws;
  kept = λ i. record {
    ip_css = same_ip_css i;
    ip_cso = same_ip_cso i;
    ip_cse = same_ip_cse i;
    tu_css = same_tu_css i;
    tu_cso = same_tu_cso i;
    tu_cse = same_tu_cse i;
    paylen = same_paylen i;
    hdrlen = same_hdrlen i;
    mss = same_mss i;
    tucmd_tcp = bit-eq-of_digit 88 e (bit 88 w) (omega digit_laws) i;
    tucmd_ip = bit-eq-of_digit 89 e (bit 89 w) (omega digit_laws) i;
    tucmd_tse = bit-eq-of_digit 90 e (bit 90 w) (omega digit_laws) i;
  };
}
  where
    e : ℕ
    e = transmit_descriptor_tcp_context.encode (transmit_descriptor_tcp_context.decode w)

    same_ip_css : bits 0 8 e ≡ bits 0 8 w
    same_ip_css = omega digit_laws

    same_ip_cso : bits 8 8 e ≡ bits 8 8 w
    same_ip_cso = omega digit_laws

    same_ip_cse : bits 16 16 e ≡ bits 16 16 w
    same_ip_cse = omega digit_laws

    same_tu_css : bits 32 8 e ≡ bits 32 8 w
    same_tu_css = omega digit_laws

    same_tu_cso : bits 40 8 e ≡ bits 40 8 w
    same_tu_cso = omega digit_laws

    same_tu_cse : bits 48 16 e ≡ bits 48 16 w
    same_tu_cse = omega digit_laws

    same_paylen : bits 64 20 e ≡ bits 64 20 w
    same_paylen = omega digit_laws

    same_hdrlen : bits 104 8 e ≡ bits 104 8 w
    same_hdrlen = omega digit_laws

    same_mss : bits 112 16 e ≡ bits 112 16 w
    same_mss = omega digit_laws

pub tcp_data-Fits :
    (w : ℕ) → Fits transmit_descriptor_tcp_data (transmit_descriptor_tcp_data.decode w)
tcp_data-Fits w = record {
  in_size = omega digit_laws;
  kept = λ i. record {
    buffer = same_buffer i;
    length = same_length i;
    special = same_special i;
    dcmd_eop = bit-eq-of_digit 88 e (bit 88 w) (omega digit_laws) i;
    popts_ixsm = bit-eq-of_digit 104 e (bit 104 w) (omega digit_laws) i;
    popts_txsm = bit-eq-of_digit 105 e (bit 105 w) (omega digit_laws) i;
  };
}
  where
    e : ℕ
    e = transmit_descriptor_tcp_data.encode (transmit_descriptor_tcp_data.decode w)

    same_buffer : bits 0 64 e ≡ bits 0 64 w
    same_buffer = omega digit_laws

    same_length : bits 64 20 e ≡ bits 64 20 w
    same_length = omega digit_laws

    same_special : bits 112 16 e ≡ bits 112 16 w
    same_special = omega digit_laws
