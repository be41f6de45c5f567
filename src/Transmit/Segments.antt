-- ===== src/Transmit/Segments.antt =====
-- `TransmitDescriptorSequence::finalize` and `update_prototype_headers` of src/e1000/transmit.rs:
-- the packets that a sequence stands for. `none` is a panic. `usize` arithmetic wraps.
pub mod Edits
pub mod Headers
pub mod Packets
pub mod Laws
use e1000_emu.Prelude.{
  ℕ, zero, suc, ◌+◌, ◌-◌, ◌*◌, ◌%◌, ◌^◌, Bool, true, false, Option, none, some, List, [], ◌∷◌, ◌++◌,
  length, take, drop, get_elem?, set, bit_and, ◌==◌, if◌then◌else◌, to_be_bytes,
}
use e1000_emu.Outcome
use e1000_emu.Outcome.{M}
use e1000_emu.NicContext.{InternetChecksum}
use e1000_emu.Descriptors.Formats.{TransmitDescriptorTcpContext}
use e1000_emu.Transmit.Buffer.{
  slice, write_slice, update_slice, wrapping_add_to_u16_be_bytes, wrapping_add_to_u32_be_bytes,
  write_internet_checksum, ◌>>=◌,
}
use e1000_emu.Transmit.Sequence.{TransmitDescriptorSequence}

abbrev pub tcp_flags_mask : ℕ
tcp_flags_mask = 9

-- `MSS + HDRLEN - IPCSS` as a `u16`.
unfoldable pub ip_total_length : TransmitDescriptorTcpContext → ℕ
ip_total_length ctx = (ctx.mss + ctx.hdrlen + 2 ^ 64 - ctx.ip_css) % 2 ^ 64 % 2 ^ 16

-- 1. and 2.: length, and identification of IPv4.
unfoldable pub update_ip : List ℕ → TransmitDescriptorTcpContext → ℕ → Option (List ℕ)
update_ip bytes ctx index =
    if ctx.tucmd_ip
    then (do
      bytes' ← write_slice bytes (ctx.ip_css + 2) (to_be_bytes 2 (ip_total_length ctx))
      update_slice bytes' (ctx.ip_css + 4) 2 λ bs. wrapping_add_to_u16_be_bytes bs (index % 2 ^ 16))
    else write_slice bytes (ctx.ip_css + 4) (to_be_bytes 2 (ip_total_length ctx))

-- `(data.len() - tcp_udp_offset) as u16`.
unfoldable pub length_after_ip : List ℕ → TransmitDescriptorTcpContext → ℕ
length_after_ip bytes ctx = (length bytes + 2 ^ 64 - ctx.tu_css) % 2 ^ 64 % 2 ^ 16

-- The partial TCP checksum takes the length in.
unfoldable pub update_partial_checksum :
    ⦃K : InternetChecksum⦄ → List ℕ → TransmitDescriptorTcpContext → Bool → Option (List ℕ)
update_partial_checksum ⦃K⦄ bytes ctx false = some bytes
update_partial_checksum ⦃K⦄ bytes ctx true = do
  a ← get_elem? bytes ctx.tu_cso
  b ← get_elem? bytes (ctx.tu_cso + 1)
  write_slice bytes ctx.tu_cso
      (K.update (a ∷ b ∷ []) (to_be_bytes 2 (length_after_ip bytes ctx)) (0 ∷ 0 ∷ []))

-- 4.: FIN and PSH are cleared unless the frame is the last.
unfoldable pub clear_flags : List ℕ → ℕ → Bool → Option (List ℕ)
clear_flags bytes offset true = some bytes
clear_flags bytes offset false = do
  flags ← get_elem? bytes offset
  some (set bytes offset (bit_and flags (2 ^ 8 - 1 - tcp_flags_mask)))

-- 3. to 5.: sequence number and flags of TCP, length of UDP.
unfoldable pub update_transport : List ℕ → TransmitDescriptorTcpContext → ℕ → Bool → Option (List ℕ)
update_transport bytes ctx index last_frame =
    if ctx.tucmd_tcp
    then (do
      bytes' ←
          update_slice bytes (ctx.tu_css + 4) 4
            λ bs. wrapping_add_to_u32_be_bytes bs (ctx.mss * index % 2 ^ 32)
      clear_flags bytes' (ctx.tu_css + 13) last_frame)
    else write_slice bytes (ctx.tu_css + 4) (to_be_bytes 2 (length_after_ip bytes ctx))

-- `chunks(size)`, which panics at size 0; the fuel is the length.
unfoldable pub chunks_fuel : ℕ → ℕ → List ℕ → List (List ℕ)
chunks_fuel zero size bytes = []
chunks_fuel (suc fuel) size [] = []
chunks_fuel (suc fuel) size (b ∷ bs) =
    take size (b ∷ bs) ∷ chunks_fuel fuel size (drop size (b ∷ bs))

unfoldable pub chunks : ℕ → List ℕ → Option (List (List ℕ))
chunks size bytes = if size == 0 then none else some (chunks_fuel (length bytes) size bytes)

-- `iter_mut().for_each`, stopping at the first panic.
unfoldable pub each : (List ℕ → Option (List ℕ)) → List (List ℕ) → Option (List (List ℕ))
each f [] = some []
each f (p ∷ ps) = do p' ← f p; ps' ← each f ps; some (p' ∷ ps')

module _ ⦃K : InternetChecksum⦄ where
  unfoldable pub update_prototype_headers :
      List ℕ → TransmitDescriptorTcpContext → ℕ → Bool → Bool → Option (List ℕ)
  update_prototype_headers bytes ctx index last_frame offloaded = do
    with_ip ← update_ip bytes ctx index
    with_checksum ← update_partial_checksum with_ip ctx offloaded
    update_transport with_checksum ctx index last_frame

  -- The packets for the segments from index `i` on, of `count` in all.
  unfoldable pub segment_packets :
      TransmitDescriptorTcpContext → List ℕ → Bool → ℕ → ℕ → List (List ℕ) → Option (List (List ℕ))
  segment_packets ctx header offloaded count i [] = some []
  segment_packets ctx header offloaded count i (segment ∷ rest) = do
    packet ← update_prototype_headers (header ++ segment) ctx i (i == count - 1) offloaded
    packets ← segment_packets ctx header offloaded count (i + 1) rest
    some (packet ∷ packets)

  unfoldable pub fill_ip_checksum : TransmitDescriptorTcpContext → Bool → List ℕ → Option (List ℕ)
  fill_ip_checksum ctx true p = write_internet_checksum p ctx.ip_cso ctx.ip_css ctx.ip_cse
  fill_ip_checksum ctx false p = some p

  unfoldable pub fill_tcp_checksum : TransmitDescriptorTcpContext → Bool → List ℕ → Option (List ℕ)
  fill_tcp_checksum ctx true p = write_internet_checksum p ctx.tu_cso ctx.tu_css ctx.tu_cse
  fill_tcp_checksum ctx false p = some p

  unfoldable pub fill_checksums :
      TransmitDescriptorTcpContext → TransmitDescriptorSequence → List ℕ → Option (List ℕ)
  fill_checksums ctx s p = do
    p' ← fill_ip_checksum ctx s.insert_ip_checksum p
    fill_tcp_checksum ctx s.insert_tcp_checksum p'

  -- A split at HDRLEN, the check of PAYLEN, and a packet for each segment.
  unfoldable pub segment :
      {S : Type 0} → TransmitDescriptorSequence → TransmitDescriptorTcpContext → M S (List (List ℕ))
  segment s ctx = Outcome.◌>>=◌ (Outcome.or_panic (slice s.bytes 0 ctx.hdrlen)) λ header.
      let payload = drop ctx.hdrlen s.bytes in
      Outcome.◌>>◌ (Outcome.ensure (length payload == ctx.paylen)) (
        Outcome.or_panic do
          segments ← chunks ctx.mss payload
          segment_packets ctx header s.insert_tcp_checksum (length segments) 0 segments)

  unfoldable pub finalize_tcp :
      {S : Type 0} → TransmitDescriptorSequence → TransmitDescriptorTcpContext → M S (List (List ℕ))
  finalize_tcp s ctx =
      Outcome.◌>>=◌ (if ctx.tucmd_tse then segment s ctx else Outcome.pure (s.bytes ∷ []))
        λ packets. Outcome.or_panic (each (fill_checksums ctx s) packets)

  unfoldable pub finalize :
      {S : Type 0}
      → TransmitDescriptorSequence
      → Option TransmitDescriptorTcpContext
      → M S (List (List ℕ))
  finalize s tcp_context = Outcome.◌>>◌ (Outcome.assert s.done) (
      if s.tcp
      then Outcome.◌>>=◌ (Outcome.or_fail tcp_context) (finalize_tcp s)
      else Outcome.pure (s.bytes ∷ []))
