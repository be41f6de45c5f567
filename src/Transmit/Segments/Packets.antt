-- ===== src/Transmit/Segments/Packets.antt =====
-- `update_prototype_headers` of src/e1000/transmit.rs as a whole, on a packet of TCP over IPv4: the
-- header and the data behind it.
use e1000_emu.Prelude.{
  ℕ, ◌+◌, ◌-◌, ◌*◌, ◌%◌, ◌^◌, ◌≤◌, ◌≡◌, ap, ap₂, ◌∙◌, inl, inr, Bool, some, List, length, arith,
  to_be_bytes, from_be_bytes,
}
use e1000_emu.NicContext.{InternetChecksum}
use e1000_emu.Descriptors.Formats.{TransmitDescriptorTcpContext}
use e1000_emu.Transmit.Segments.{update_prototype_headers, length_after_ip, ip_total_length}
use e1000_emu.Transmit.Segments.Edits.{field, Edited}
use e1000_emu.Transmit.Segments.Headers.{
  IsTcpHeader, UpdatesTwoBytes, IsHeader, IsUntouched, cleared, partial_checksum, update_ip-Edits,
  partial_checksum-Edits, update_transport-Edits, some-then,
}

-- Neither difference wraps.
ip_total_length_lem :
    (ctx : TransmitDescriptorTcpContext)
    → IsTcpHeader ctx
    → ip_total_length ctx ≡ (ctx.mss + ctx.hdrlen - ctx.ip_css) % 2 ^ 16
unfolding ip_total_length
ip_total_length_lem ctx h = omega (arith, h.ip_first, h.checksum_after_flags, h.inside)

length_after_ip_lem :
    (p q : List ℕ) (ctx : TransmitDescriptorTcpContext)
    → length q ≡ length p
    → ctx.tu_css ≤ length p
    → length_after_ip p ctx ≡ (length q - ctx.tu_css) % 2 ^ 16
unfolding length_after_ip
length_after_ip_lem p q ctx h l = omega (arith, h, l)

-- The five edits, one after the other.
record Edited5 ⦃K : InternetChecksum⦄ (ctx : TransmitDescriptorTcpContext) (i : ℕ)
    (last offloaded : Bool) (p q1 q2 q3 q4 q5 : List ℕ) : Type 0 where
  length_edit : Edited p (ctx.ip_css + 2) 2 (to_be_bytes 2 (ip_total_length ctx)) q1
  identification_edit :
      Edited q1
        (ctx.ip_css + 4)
        2
        (to_be_bytes 2 ((from_be_bytes (field q1 (ctx.ip_css + 4) 2) + i) % 2 ^ 16))
        q2
  checksum_edit :
      Edited q2 ctx.tu_cso 2
        (partial_checksum offloaded (field q2 ctx.tu_cso 2) (length_after_ip q2 ctx))
        q3
  sequence_edit :
      Edited q3
        (ctx.tu_css + 4)
        4
        (to_be_bytes 4 ((from_be_bytes (field q3 (ctx.tu_css + 4) 4) + ctx.mss * i) % 2 ^ 32))
        q4
  flags_edit : Edited q4 (ctx.tu_css + 13) 1 (cleared last (field q4 (ctx.tu_css + 13) 1)) q5

module _ ⦃K : InternetChecksum⦄ (ctx : TransmitDescriptorTcpContext) (h : IsTcpHeader ctx) (i : ℕ)
    (last offloaded : Bool) where
  module _ (p q1 q2 q3 q4 q5 : List ℕ) (e : Edited5 ctx i last offloaded p q1 q2 q3 q4 q5) where
    edited-same_length : length q5 ≡ length p
    edited-same_length =
        e.flags_edit.same_length ∙ e.sequence_edit.same_length ∙ e.checksum_edit.same_length
        ∙ e.identification_edit.same_length ∙ e.length_edit.same_length

    edited-rest : (o n : ℕ) → IsUntouched ctx o n → field q5 o n ≡ field p o n
    edited-rest o n (a, b, c, d, f) =
        e.flags_edit.elsewhere o n f
        ∙ e.sequence_edit.elsewhere o n d
        ∙ e.checksum_edit.elsewhere o n c
        ∙ e.identification_edit.elsewhere o n b
        ∙ e.length_edit.elsewhere o n a

    -- The edits of TCP leave the header of IP alone.
    edited-ip : (o n : ℕ) → o + n ≤ ctx.ip_css + 6 → field q5 o n ≡ field q2 o n
    edited-ip o n l =
        e.flags_edit.elsewhere o n (inr (omega (arith, l, h.ip_first)))
        ∙ e.sequence_edit.elsewhere o n (inr (omega (arith, l, h.ip_first)))
        ∙ e.checksum_edit.elsewhere o n (inr (omega (arith, l, h.ip_first, h.checksum_after_flags)))

    -- The edits of IP leave what follows it alone.
    edited-after_ip : (o n : ℕ) → ctx.ip_css + 6 ≤ o → field q2 o n ≡ field p o n
    edited-after_ip o n l =
        e.identification_edit.elsewhere o n (inl (omega (arith, l)))
        ∙ e.length_edit.elsewhere o n (inl (omega (arith, l)))

    edited-total_length :
        field q5 (ctx.ip_css + 2) 2 ≡ to_be_bytes 2 ((ctx.mss + ctx.hdrlen - ctx.ip_css) % 2 ^ 16)
    edited-total_length =
        edited-ip (ctx.ip_css + 2) 2 (omega (arith))
        ∙ e.identification_edit.elsewhere (ctx.ip_css + 2) 2 (inr (omega (arith)))
        ∙ e.length_edit.here
        ∙ ap (to_be_bytes 2) (ip_total_length_lem ctx h)

    edited-identification :
        field q5 (ctx.ip_css + 4) 2
        ≡ to_be_bytes 2 ((from_be_bytes (field p (ctx.ip_css + 4) 2) + i) % 2 ^ 16)
    edited-identification =
        edited-ip (ctx.ip_css + 4) 2 (omega (arith))
        ∙ e.identification_edit.here
        ∙ ap (λ (bs : List ℕ). to_be_bytes 2 ((from_be_bytes bs + i) % 2 ^ 16))
            (e.length_edit.elsewhere (ctx.ip_css + 4) 2 (inl (omega (arith))))

    edited-checksum :
        ctx.hdrlen ≤ length p
        → field q5 ctx.tu_cso 2
          ≡ partial_checksum offloaded (field p ctx.tu_cso 2) ((length q5 - ctx.tu_css) % 2 ^ 16)
    edited-checksum l =
        e.flags_edit.elsewhere ctx.tu_cso 2 (inl (omega (arith, h.checksum_after_flags)))
        ∙ e.sequence_edit.elsewhere ctx.tu_cso 2 (inl (omega (arith, h.checksum_after_flags)))
        ∙ e.checksum_edit.here
        ∙ ap₂ (partial_checksum offloaded)
            (edited-after_ip ctx.tu_cso 2 (omega (arith, h.ip_first, h.checksum_after_flags)))
            (length_after_ip_lem q2 q5 ctx
              (e.flags_edit.same_length ∙ e.sequence_edit.same_length ∙ e.checksum_edit.same_length)
              (omega (
                arith, l, h.checksum_after_flags, h.inside, e.identification_edit.same_length,
                e.length_edit.same_length,
              )))

    -- The checksum lies behind the fields of TCP that are counted up and cleared.
    edited-tcp :
        (o n : ℕ) → ctx.ip_css + 6 ≤ o → o + n ≤ ctx.tu_css + 14 → field q3 o n ≡ field p o n
    edited-tcp o n l k =
        e.checksum_edit.elsewhere o n (inr (omega (arith, k, h.checksum_after_flags)))
        ∙ edited-after_ip o n l

    edited-sequence_number :
        field q5 (ctx.tu_css + 4) 4
        ≡ to_be_bytes 4 ((from_be_bytes (field p (ctx.tu_css + 4) 4) + ctx.mss * i) % 2 ^ 32)
    edited-sequence_number =
        e.flags_edit.elsewhere (ctx.tu_css + 4) 4 (inr (omega (arith)))
        ∙ e.sequence_edit.here
        ∙ ap (λ (bs : List ℕ). to_be_bytes 4 ((from_be_bytes bs + ctx.mss * i) % 2 ^ 32))
            (edited-tcp (ctx.tu_css + 4) 4 (omega (arith, h.ip_first)) (omega (arith)))

    edited-flags : field q5 (ctx.tu_css + 13) 1 ≡ cleared last (field p (ctx.tu_css + 13) 1)
    edited-flags =
        e.flags_edit.here
        ∙ ap (cleared last) (
            e.sequence_edit.elsewhere (ctx.tu_css + 13) 1 (inl (omega (arith)))
            ∙ edited-tcp (ctx.tu_css + 13) 1 (omega (arith, h.ip_first)) (omega (arith)))

    edited-IsHeader : ctx.hdrlen ≤ length p → IsHeader ctx i last offloaded p q5
    edited-IsHeader l = record {
      total_length = edited-total_length;
      identification = edited-identification;
      checksum = edited-checksum l;
      sequence_number = edited-sequence_number;
      flags = edited-flags;
      rest = λ o n u b. edited-rest o n u;
    }

    edited-data : (n : ℕ) → field q5 ctx.hdrlen n ≡ field p ctx.hdrlen n
    edited-data n =
        let ip = h.ip_first in
        let tcp = h.checksum_after_flags in
        let inside = h.inside in
        edited-rest ctx.hdrlen n (
          inl (omega (arith, ip, tcp, inside)),
          inl (omega (arith, ip, tcp, inside)),
          inl (omega (arith, inside)),
          inl (omega (arith, tcp, inside)),
          inl (omega (arith, tcp, inside)),
        )

  pub updated_headers :
      UpdatesTwoBytes K
      → (p : List ℕ) → ctx.hdrlen ≤ length p
      → (q : List ℕ) × (update_prototype_headers p ctx i last offloaded ≡ some q)
        × (length q ≡ length p)
        × IsHeader ctx i last offloaded p q
        × ((n : ℕ) → field q ctx.hdrlen n ≡ field p ctx.hdrlen n)
  unfolding update_prototype_headers
  updated_headers two p l =
      let (q1, q2, r2, e1, e2) = update_ip-Edits p ctx i h l in
      let l2 : ctx.hdrlen ≤ length q2 = omega (arith, l, e1.same_length, e2.same_length) in
      let (q3, r3, e3) =
        partial_checksum-Edits q2 ctx offloaded two (omega (arith, l2, h.inside)) in
      let l3 : ctx.hdrlen ≤ length q3 = omega (arith, l2, e3.same_length) in
      let (q4, q5, r5, e4, e5) = update_transport-Edits q3 ctx i last h l3 in
      let e : Edited5 ctx i last offloaded p q1 q2 q3 q4 q5 = record {
        length_edit = e1;
        identification_edit = e2;
        checksum_edit = e3;
        sequence_edit = e4;
        flags_edit = e5;
      } in
      (
        q5,
        some-then _ _ q2 (some q5) r2 (some-then _ _ q3 (some q5) r3 r5),
        edited-same_length p q1 q2 q3 q4 q5 e,
        edited-IsHeader p q1 q2 q3 q4 q5 e l,
        edited-data p q1 q2 q3 q4 q5 e,
      )

-- The header may come from any bytes that agree in it.
pub IsHeader-from :
    ⦃K : InternetChecksum⦄ (ctx : TransmitDescriptorTcpContext)
    → IsTcpHeader ctx
    → (i : ℕ) (last offloaded : Bool) (p p' q : List ℕ)
    → ((o n : ℕ) → o + n ≤ ctx.hdrlen → field p o n ≡ field p' o n)
    → IsHeader ctx i last offloaded p q
    → IsHeader ctx i last offloaded p' q
IsHeader-from ctx h i last offloaded p p' q agree k =
    let ip = h.ip_first in
    let tcp = h.checksum_after_flags in
    let inside = h.inside in
    record {
      total_length = k.total_length;
      identification =
          k.identification
          ∙ ap (λ (bs : List ℕ). to_be_bytes 2 ((from_be_bytes bs + i) % 2 ^ 16))
              (agree (ctx.ip_css + 4) 2 (omega (arith, ip, tcp, inside)));
      checksum =
          k.checksum
          ∙ ap (λ (bs : List ℕ). partial_checksum offloaded bs ((length q - ctx.tu_css) % 2 ^ 16))
              (agree ctx.tu_cso 2 inside);
      sequence_number =
          k.sequence_number
          ∙ ap (λ (bs : List ℕ). to_be_bytes 4 ((from_be_bytes bs + ctx.mss * i) % 2 ^ 32))
              (agree (ctx.tu_css + 4) 4 (omega (arith, tcp, inside)));
      flags = k.flags ∙ ap (cleared last) (agree (ctx.tu_css + 13) 1 (omega (arith, tcp, inside)));
      rest = λ o n u b. k.rest o n u b ∙ agree o n b;
    }
