-- ===== src/Transmit/Segments/Laws.antt =====
-- TCP segmentation of src/e1000/transmit.rs: the pieces of the payload, and the packets of TCP over
-- IPv4 that carry them.
use e1000_emu.Prelude.{
  ℕ, zero, suc, ◌+◌, ◌-◌, ◌≤◌, ◌<◌, ◌≡◌, refl, sym, ap, ◌∙◌, inl, inr, Bool, true, false, some,
  List, [], ◌∷◌, ◌++◌, length, take, drop, arith, length-take, length-drop, length-append,
  take-append-drop, Bool-cases, ◌==◌, if◌then◌else◌,
}
use e1000_emu.Outcome.{ok, err}
use e1000_emu.NicContext.{InternetChecksum}
use e1000_emu.Descriptors.Formats.{TransmitDescriptorTcpContext}
use e1000_emu.Transmit.Buffer.{slice}
use e1000_emu.Transmit.Sequence.{TransmitDescriptorSequence}
use e1000_emu.Transmit.Segments.{
  chunks_fuel, chunks, update_prototype_headers, segment_packets, segment,
}
use e1000_emu.Transmit.Segments.Edits.{field, field-take, field-after, slice-field}
use e1000_emu.Transmit.Segments.Headers.{IsTcpHeader, UpdatesTwoBytes, IsHeader, some-then}
use e1000_emu.Transmit.Segments.Packets.{updated_headers, IsHeader-from}

abbrev pub joined : List (List ℕ) → List ℕ
joined [] = []
joined (c ∷ cs) = c ++ joined cs

-- Between one and `size` bytes each, and `size` bytes as long as bytes follow.
abbrev pub Sized : ℕ → List (List ℕ) → Type 0
Sized size [] = Unit {0}
Sized size (c ∷ cs) =
    (0 < length c) × (length c ≤ size) × (0 < length (joined cs) → length c ≡ size) × Sized size cs

joined-chunks :
    (fuel size : ℕ) (bs : List ℕ)
    → 0 < size
    → length bs ≤ fuel
    → (joined (chunks_fuel fuel size bs) ≡ bs) × Sized size (chunks_fuel fuel size bs)
unfolding chunks_fuel
joined-chunks zero size [] h l = (refl, tt)
joined-chunks zero size (b ∷ bs) h l = absurd (omega arith)
joined-chunks (suc fuel) size [] h l = (refl, tt)
joined-chunks (suc fuel) zero (b ∷ bs) h l = absurd (omega arith)
joined-chunks (suc fuel) (suc n) (b ∷ bs) h l =
    let rest = drop n bs in
    let (j, s) = joined-chunks fuel (suc n) rest h (omega (arith, length-drop n bs)) in
    (
      ap (λ (t : List ℕ). take (suc n) (b ∷ bs) ++ t) j ∙ take-append-drop (suc n) (b ∷ bs),
      (
        omega (arith),
        omega (arith, length-take (suc n) (b ∷ bs)),
        (λ more. omega (arith, more, ap length j, length-drop n bs, length-take (suc n) (b ∷ bs))),
        s,
      ),
    )

-- A packet: the header of the prototype with its fields brought up to date, and the piece.
pub record IsPacket ⦃K : InternetChecksum⦄ (ctx : TransmitDescriptorTcpContext) (i : ℕ)
    (last offloaded : Bool) (bytes piece packet : List ℕ) : Type 0 where
  pub size : length packet ≡ ctx.hdrlen + length piece
  pub header : IsHeader ctx i last offloaded bytes packet
  pub body : field packet ctx.hdrlen (length piece) ≡ piece

abbrev pub is_last : List (List ℕ) → Bool
is_last [] = true
is_last (c ∷ cs) = false

-- A packet for each piece, counted from `i` on.
abbrev pub Packets :
    ⦃K : InternetChecksum⦄
    → TransmitDescriptorTcpContext
    → Bool
    → List ℕ
    → ℕ
    → List (List ℕ)
    → List (List ℕ)
    → Type 0
Packets ctx offloaded bytes i [] [] = Unit {0}
Packets ctx offloaded bytes i [] (p ∷ ps) = ⊥
Packets ctx offloaded bytes i (c ∷ cs) [] = ⊥
Packets ctx offloaded bytes i (c ∷ cs) (p ∷ ps) =
    IsPacket ctx i (is_last cs) offloaded bytes c p × Packets ctx offloaded bytes (i + 1) cs ps

-- What segmentation gives: pieces of the payload in order, of MSS bytes but for the last, each in a
-- packet of its own.
pub record IsSegmented ⦃K : InternetChecksum⦄ (s : TransmitDescriptorSequence)
    (ctx : TransmitDescriptorTcpContext) (ps : List (List ℕ)) : Type 0 where
  pub pieces : List (List ℕ)
  pub in_order : joined pieces ≡ drop ctx.hdrlen s.bytes
  pub sized : Sized ctx.mss pieces
  pub packets : Packets ctx s.insert_tcp_checksum s.bytes 0 pieces ps

is_last-index :
    (i count : ℕ) (cs : List (List ℕ)) → i + suc (length cs) ≡ count → (i == count - 1) ≡ is_last cs
is_last-index i count [] h = ground (arith, h)
is_last-index i count (c ∷ cs) h = ground (arith, h)

module _ ⦃K : InternetChecksum⦄ (two : UpdatesTwoBytes K) (ctx : TransmitDescriptorTcpContext)
    (h : IsTcpHeader ctx) (bytes : List ℕ) (l : ctx.hdrlen ≤ length bytes) (offloaded : Bool) where
  update_prototype_headers-IsPacket :
      (i : ℕ) (last : Bool) (c : List ℕ)
      → (p : List ℕ) × (update_prototype_headers (take ctx.hdrlen bytes ++ c) ctx i last offloaded
          ≡ some p)
        × IsPacket ctx i last offloaded bytes c p
  update_prototype_headers-IsPacket i last c =
      let header = take ctx.hdrlen bytes in
      let at_end : length header ≡ ctx.hdrlen = omega (arith, l, length-take ctx.hdrlen bytes) in
      let whole : length (header ++ c) ≡ ctx.hdrlen + length c =
        omega (arith, at_end, length-append header c) in
      let (p, r, same, is_header, body) =
        updated_headers ctx h i last offloaded two (header ++ c) (omega (arith, whole)) in
      (
        p,
        r,
        record {
          size = same ∙ whole;
          header =
              IsHeader-from ctx h i last offloaded (header ++ c) bytes p
                (λ o n b. field-take ctx.hdrlen bytes c o n l b) is_header;
          body =
              body (length c)
              ∙ (ap (λ k. field (header ++ c) k (length c)) (sym at_end) ∙ field-after header c);
        },
      )

  segment_packets-Packets :
      (count i : ℕ) (cs : List (List ℕ))
      → i + length cs ≡ count
      → (ps : List (List ℕ)) × (segment_packets ctx (take ctx.hdrlen bytes) offloaded count i cs
          ≡ some ps)
        × Packets ctx offloaded bytes i cs ps
  unfolding segment_packets
  segment_packets-Packets count i [] e = ([], refl, tt)
  segment_packets-Packets count i (c ∷ cs) e =
      let (p, r, is_packet) = update_prototype_headers-IsPacket i (is_last cs) c in
      let (ps, r', are_packets) = segment_packets-Packets count (i + 1) cs (omega (arith, e)) in
      let last = is_last-index i count cs e in
      (
        p ∷ ps,
        simp last (some-then _ _ p (some (p ∷ ps)) r (some-then _ _ ps (some (p ∷ ps)) r' refl)),
        (is_packet, are_packets),
      )

module _ ⦃K : InternetChecksum⦄ where
  -- Segmentation of TCP over IPv4, where the data has HDRLEN bytes or more, MSS is not 0, and the
  -- headers lie inside HDRLEN in the usual order, the field of the checksum behind the flags: it
  -- fails if the payload is not of PAYLEN bytes, and else it gives a packet for each of the pieces
  -- into which the payload is cut in order, of MSS bytes but for the last, which has one to MSS
  -- bytes. A packet is a header of HDRLEN bytes and the piece. In the header the total length of IP
  -- is MSS + HDRLEN - IPCSS, the identification is counted up by one and the sequence number by MSS
  -- for each packet before, all three modulo their widths; FIN and PSH are cleared in all packets
  -- but the last; the field of the checksum, if it is offloaded, is the crate's update by the
  -- length of the packet behind TUCSS, modulo 2^16; and every other byte is as in the prototype.
  -- The crate's update is taken to keep two bytes two.
  pub segment-IsSegmented :
      {S : Type 0} (s : TransmitDescriptorSequence) (ctx : TransmitDescriptorTcpContext) (c : S)
      → UpdatesTwoBytes K
      → IsTcpHeader ctx
      → ctx.hdrlen ≤ length s.bytes
      → 0 < ctx.mss
      → (ps : List (List ℕ)) × (segment s ctx c
          ≡ (if length (drop ctx.hdrlen s.bytes) == ctx.paylen then ok ps c else err c))
        × IsSegmented s ctx ps
  unfolding segment chunks
  segment-IsSegmented s ctx c two h l m =
      let payload = drop ctx.hdrlen s.bytes in
      let pieces = chunks_fuel (length payload) ctx.mss payload in
      let (in_order, sized) = joined-chunks (length payload) ctx.mss payload m (omega arith) in
      let (ps, r, packets) =
        segment_packets-Packets two ctx h s.bytes l s.insert_tcp_checksum (length pieces) 0 pieces
          (omega arith) in
      let zero_from : ctx.hdrlen ≡ 0 + ctx.hdrlen = omega (arith) in
      let prefix : slice s.bytes 0 ctx.hdrlen ≡ some (take ctx.hdrlen s.bytes) =
        ap (slice s.bytes 0) zero_from ∙ slice-field s.bytes 0 ctx.hdrlen (omega (arith, l)) in
      let not_zero : (ctx.mss == 0) ≡ false = ground (arith, m) in
      (
        ps,
        (elim (Bool-cases (length payload == ctx.paylen)) [
          | inl p ↦ simp (prefix, p, not_zero, r) refl
          | inr p ↦ simp (prefix, p) refl
        ]),
        record { pieces = pieces; in_order = in_order; sized = sized; packets = packets },
      )
