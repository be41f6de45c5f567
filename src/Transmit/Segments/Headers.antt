-- ===== src/Transmit/Segments/Headers.antt =====
-- `update_prototype_headers` of src/e1000/transmit.rs for TCP over IPv4: the header of a packet,
-- field by field.
use e1000_emu.Prelude.{
  ℕ, ◌+◌, ◌-◌, ◌*◌, ◌%◌, ◌^◌, ◌≤◌, ◌<◌, ◌≡◌, refl, sym, ap, subst, ◌∙◌, Bool, true, false, Option,
  some, List, [], ◌∷◌, length, set, arith, bit_and, to_be_bytes, from_be_bytes, length-reverse,
  to_le_bytes, length-to_le_bytes,
}
use e1000_emu.NicContext.{InternetChecksum}
use e1000_emu.Descriptors.Formats.{TransmitDescriptorTcpContext}
use e1000_emu.Transmit.Buffer.{wrapping_add_to_u16_be_bytes, wrapping_add_to_u32_be_bytes, ◌>>=◌}
use e1000_emu.Transmit.Segments.{
  update_ip, update_partial_checksum, clear_flags, update_transport, ip_total_length,
  length_after_ip,
}
use e1000_emu.Transmit.Segments.Edits.{
  field, Apart, Edited, Edits, Edited-refl, write_slice-Edits, update_slice-Edits, get-field,
  set-Edited, get-field_two,
}

-- Headers of TCP over IPv4, in this order, with the checksum at the end of HDRLEN at the latest.
pub record IsTcpHeader (ctx : TransmitDescriptorTcpContext) : Type 0 where
  pub ipv4 : ctx.tucmd_ip ≡ true
  pub tcp : ctx.tucmd_tcp ≡ true
  pub ip_first : ctx.ip_css + 6 ≤ ctx.tu_css
  pub checksum_after_flags : ctx.tu_css + 14 ≤ ctx.tu_cso
  pub inside : ctx.tu_cso + 2 ≤ ctx.hdrlen

-- The byte of flags without FIN and PSH, unless the packet is the last.
abbrev pub cleared : Bool → List ℕ → List ℕ
cleared true bs = bs
cleared false [] = []
cleared false (b ∷ bs) = bit_and b 246 ∷ cleared false bs

-- A range outside the fields that are updated.
abbrev pub IsUntouched : TransmitDescriptorTcpContext → ℕ → ℕ → Type 0
IsUntouched ctx o n =
    Apart (ctx.ip_css + 2) 2 o n
    × Apart (ctx.ip_css + 4) 2 o n
    × Apart ctx.tu_cso 2 o n
    × Apart (ctx.tu_css + 4) 4 o n
    × Apart (ctx.tu_css + 13) 1 o n

length-to_be_bytes : (n w : ℕ) → length (to_be_bytes n w) ≡ n
length-to_be_bytes n w = length-reverse (to_le_bytes n w) ∙ length-to_le_bytes n w

-- The checksum is two bytes, as its type says.
abbrev pub UpdatesTwoBytes : InternetChecksum → Type 0
UpdatesTwoBytes K = (old from to : List ℕ) → length old ≡ 2 → length (K.update old from to) ≡ 2

-- The value of the checksum field before the checksums are filled in: with an offloaded checksum,
-- the partial checksum with the length taken in.
abbrev pub partial_checksum : ⦃K : InternetChecksum⦄ → Bool → List ℕ → ℕ → List ℕ
partial_checksum ⦃K⦄ true old size = K.update old (to_be_bytes 2 size) (0 ∷ 0 ∷ [])
partial_checksum ⦃K⦄ false old size = old

-- The header of packet `i` in `q`, from the prototype in `p`.
pub record IsHeader ⦃K : InternetChecksum⦄ (ctx : TransmitDescriptorTcpContext) (i : ℕ)
    (last offloaded : Bool) (p q : List ℕ) : Type 0 where
  pub total_length :
      field q (ctx.ip_css + 2) 2 ≡ to_be_bytes 2 ((ctx.mss + ctx.hdrlen - ctx.ip_css) % 2 ^ 16)
  pub identification :
      field q (ctx.ip_css + 4) 2
      ≡ to_be_bytes 2 ((from_be_bytes (field p (ctx.ip_css + 4) 2) + i) % 2 ^ 16)
  pub checksum :
      field q ctx.tu_cso 2
      ≡ partial_checksum offloaded (field p ctx.tu_cso 2) ((length q - ctx.tu_css) % 2 ^ 16)
  pub sequence_number :
      field q (ctx.tu_css + 4) 4
      ≡ to_be_bytes 4 ((from_be_bytes (field p (ctx.tu_css + 4) 4) + ctx.mss * i) % 2 ^ 32)
  pub flags : field q (ctx.tu_css + 13) 1 ≡ cleared last (field p (ctx.tu_css + 13) 1)
  pub rest : (o n : ℕ) → IsUntouched ctx o n → o + n ≤ ctx.hdrlen → field q o n ≡ field p o n

clear_flags-Edits :
    (p : List ℕ) (o : ℕ) (last : Bool)
    → o < length p
    → Edits p o 1 (cleared last (field p o 1)) (clear_flags p o last)
unfolding clear_flags
clear_flags-Edits p o true h = (p, refl, Edited-refl p o 1)
clear_flags-Edits p o false h =
    let (b, x, f) = get-field p o h in
    (
      set p o (bit_and b 246),
      rw x refl,
      subst (λ bs. Edited p o 1 (cleared false bs) (set p o (bit_and b 246))) (sym f)
          (set-Edited p o (bit_and b 246) h),
    )

pub partial_checksum-Edits :
    ⦃K : InternetChecksum⦄ (p : List ℕ) (ctx : TransmitDescriptorTcpContext) (offloaded : Bool)
    → UpdatesTwoBytes K
    → ctx.tu_cso + 2 ≤ length p
    → Edits p ctx.tu_cso 2
        (partial_checksum offloaded (field p ctx.tu_cso 2) (length_after_ip p ctx))
        (update_partial_checksum p ctx offloaded)
unfolding update_partial_checksum
partial_checksum-Edits p ctx false two h = (p, refl, Edited-refl p ctx.tu_cso 2)
partial_checksum-Edits ⦃K⦄ p ctx true two h =
    let (a, b, x, y, f) = get-field_two p ctx.tu_cso h in
    let new = K.update (a ∷ b ∷ []) (to_be_bytes 2 (length_after_ip p ctx)) (0 ∷ 0 ∷ []) in
    let (q, r, e) = write_slice-Edits p ctx.tu_cso 2 new (two _ _ _ refl) h in
    (q, rw (x, y) r, rw f e)

add16 :
    (bs : List ℕ) (i : ℕ)
    → wrapping_add_to_u16_be_bytes bs (i % 2 ^ 16) ≡ to_be_bytes 2 ((from_be_bytes bs + i) % 2 ^ 16)
unfolding wrapping_add_to_u16_be_bytes
add16 bs i = ap (to_be_bytes 2) (omega (arith))

add32 :
    (bs : List ℕ) (i : ℕ)
    → wrapping_add_to_u32_be_bytes bs (i % 2 ^ 32) ≡ to_be_bytes 4 ((from_be_bytes bs + i) % 2 ^ 32)
unfolding wrapping_add_to_u32_be_bytes
add32 bs i = ap (to_be_bytes 4) (omega (arith))

length-add16 : (bs : List ℕ) (k : ℕ) → length (wrapping_add_to_u16_be_bytes bs k) ≡ 2
unfolding wrapping_add_to_u16_be_bytes
length-add16 bs k = length-to_be_bytes 2 ((from_be_bytes bs + k) % 2 ^ 16)

length-add32 : (bs : List ℕ) (k : ℕ) → length (wrapping_add_to_u32_be_bytes bs k) ≡ 4
unfolding wrapping_add_to_u32_be_bytes
length-add32 bs k = length-to_be_bytes 4 ((from_be_bytes bs + k) % 2 ^ 32)

-- A chain of results, the first of which is there.
pub some-then :
    {A B : Type 0} (o : Option A) (f : A → Option B) (a : A) (r : Option B)
    → o ≡ some a
    → f a ≡ r
    → (o >>= f) ≡ r
some-then o f a r h k = rw h k

pub update_ip-Edits :
    (p : List ℕ) (ctx : TransmitDescriptorTcpContext) (i : ℕ)
    → IsTcpHeader ctx
    → ctx.hdrlen ≤ length p
    → (q q' : List ℕ) × (update_ip p ctx i ≡ some q')
      × Edited p (ctx.ip_css + 2) 2 (to_be_bytes 2 (ip_total_length ctx)) q
      × Edited q
          (ctx.ip_css + 4)
          2
          (to_be_bytes 2 ((from_be_bytes (field q (ctx.ip_css + 4) 2) + i) % 2 ^ 16))
          q'
unfolding update_ip
update_ip-Edits p ctx i h l =
    let total = to_be_bytes 2 (ip_total_length ctx) in
    let (q, r, e) =
      write_slice-Edits p (ctx.ip_css + 2) 2 total (length-to_be_bytes 2 (ip_total_length ctx))
        (omega (arith, l, h.ip_first, h.checksum_after_flags, h.inside)) in
    let (q', r', e') =
      update_slice-Edits q (ctx.ip_css + 4) 2 (λ bs. wrapping_add_to_u16_be_bytes bs (i % 2 ^ 16))
        (length-add16 (field q (ctx.ip_css + 4) 2) (i % 2 ^ 16))
        (omega (arith, l, e.same_length, h.ip_first, h.checksum_after_flags, h.inside)) in
    (
      q,
      q',
      simp h.ipv4 (some-then _ _ q (some q') r r'),
      e,
      rw (sym (add16 (field q (ctx.ip_css + 4) 2) i)) e',
    )

pub update_transport-Edits :
    (p : List ℕ) (ctx : TransmitDescriptorTcpContext) (i : ℕ) (last : Bool)
    → IsTcpHeader ctx
    → ctx.hdrlen ≤ length p
    → (q q' : List ℕ) × (update_transport p ctx i last ≡ some q')
      × Edited p
          (ctx.tu_css + 4)
          4
          (to_be_bytes 4 ((from_be_bytes (field p (ctx.tu_css + 4) 4) + ctx.mss * i) % 2 ^ 32))
          q
      × Edited q (ctx.tu_css + 13) 1 (cleared last (field q (ctx.tu_css + 13) 1)) q'
unfolding update_transport
update_transport-Edits p ctx i last h l =
    let (q, r, e) =
      update_slice-Edits p (ctx.tu_css + 4) 4
        (λ bs. wrapping_add_to_u32_be_bytes bs (ctx.mss * i % 2 ^ 32))
        (length-add32 (field p (ctx.tu_css + 4) 4) (ctx.mss * i % 2 ^ 32))
        (omega (arith, l, h.checksum_after_flags, h.inside)) in
    let (q', r', e') =
      clear_flags-Edits q (ctx.tu_css + 13) last
        (omega (arith, l, e.same_length, h.checksum_after_flags, h.inside)) in
    (
      q,
      q',
      simp h.tcp (some-then _ _ q (some q') r r'),
      rw (sym (add32 (field p (ctx.tu_css + 4) 4) (ctx.mss * i))) e,
      e',
    )
