-- ===== src/Tests/Segments.antt =====
-- TCP segmentation of a packet of 31 bytes: 24 bytes of headers and 7 of data, 3 to a segment.
use e1000_emu.Prelude.{
  ℕ, ◌≡◌, refl, true, false, List, [], ◌∷◌, ◌++◌, length, drop, replicate, arith, ◌==◌,
  if◌then◌else◌,
}
use e1000_emu.Outcome.{Outcome, ok, err, panic, out_of_fuel}
use e1000_emu.NicContext.Machine.{Machine, no_checksum}
use e1000_emu.Descriptors.Formats.{TransmitDescriptorTcpContext}
use e1000_emu.Transmit.Buffer.{wrapping_add_to_u16_be_bytes, wrapping_add_to_u32_be_bytes}
use e1000_emu.Transmit.Sequence.{TransmitDescriptorSequence}
use e1000_emu.Transmit.Segments.{
  segment, segment_packets, update_prototype_headers, update_ip, update_partial_checksum,
  update_transport, clear_flags, ip_total_length, length_after_ip, chunks, chunks_fuel,
}
use e1000_emu.Transmit.Segments.Laws.{IsSegmented, segment-IsSegmented}
use e1000_emu.Transmit.Segments.Headers.{IsTcpHeader}
use e1000_emu.Tests.Data.{running}

abbrev context : TransmitDescriptorTcpContext
context = record {
  ip_css = 0;
  ip_cso = 0;
  ip_cse = 0;
  tu_css = 8;
  tu_cso = 22;
  tu_cse = 0;
  paylen = 7;
  tucmd_tcp = true;
  tucmd_ip = true;
  tucmd_tse = true;
  hdrlen = 24;
  mss = 3;
}

abbrev packet : TransmitDescriptorSequence
packet = record {
  bytes = replicate 20 0 ++ (255 ∷ 255 ∷ 0 ∷ 0 ∷ 1 ∷ 2 ∷ 3 ∷ 4 ∷ 5 ∷ 6 ∷ 7 ∷ []);
  done = true;
  tcp = true;
  insert_ip_checksum = false;
  insert_tcp_checksum = true;
}

headers : IsTcpHeader context
headers = record {
  ipv4 = refl;
  tcp = refl;
  ip_first = omega arith;
  checksum_after_flags = omega arith;
  inside = omega arith;
}

segment-IsSegmented_example :
    (ps : List (List ℕ)) × (segment packet context running ≡ (
      if length (drop context.hdrlen packet.bytes) == context.paylen
      then ok ps running
      else err running))
    × IsSegmented packet context ps
segment-IsSegmented_example =
    segment-IsSegmented packet context running (λ old from to h. h) headers (omega arith)
      (omega arith)

abbrev packets_of : Outcome Machine (List (List ℕ)) → List (List ℕ)
packets_of (ok ps c) = ps
packets_of (err c) = []
packets_of panic = []
packets_of out_of_fuel = []

-- Total length 27, identification and sequence number counted up, FIN and PSH only at the end.
three_segments :
    packets_of (segment packet context running)
    ≡ (0 ∷ 0 ∷ 0 ∷ 27 ∷ (replicate 16 0 ++ (255 ∷ 246 ∷ 0 ∷ 0 ∷ 1 ∷ 2 ∷ 3 ∷ [])))
      ∷ (0
          ∷ 0
          ∷ 0
          ∷ 27
          ∷ 0
          ∷ 1
          ∷ (replicate 9 0 ++ (3 ∷ 0 ∷ 0 ∷ 0 ∷ 0 ∷ 255 ∷ 246 ∷ 0 ∷ 0 ∷ 4 ∷ 5 ∷ 6 ∷ [])))
      ∷ (0
          ∷ 0
          ∷ 0
          ∷ 27
          ∷ 0
          ∷ 2
          ∷ (replicate 9 0 ++ (6 ∷ 0 ∷ 0 ∷ 0 ∷ 0 ∷ 255 ∷ 255 ∷ 0 ∷ 0 ∷ 7 ∷ [])))
      ∷ []
unfolding segment segment_packets update_prototype_headers update_ip update_partial_checksum
    update_transport clear_flags ip_total_length length_after_ip chunks chunks_fuel
    wrapping_add_to_u16_be_bytes wrapping_add_to_u32_be_bytes
three_segments = refl
