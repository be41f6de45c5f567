-- ===== src/Device/Interrupts/Words.antt =====
-- The packed words of `InterruptCauses`, and what `&`, `|` and `!` of them mean cause by cause.
use e1000_emu.Prelude.{
  ℕ, ◌+◌, ◌-◌, ◌*◌, ◌^◌, ◌≡◌, refl, ap, ◌∙◌, from_be_bytes, bit_and-digit-not, Bool, true, false,
  not, ◌&&◌, ◌||◌, digit, to_le_bytes-IsBytes, if◌then◌else◌, ◌==◌, arith, digit_laws,
  bit-eq-of_digit, bit_and, bit_or, bit_and-join, bit_or-join, bit_and-digit, bit_or-digit, join,
  some, to_le_bytes,
}
use e1000_emu.Outcome.{ok, or_panic, ◌>>=◌}
use e1000_emu.Packing.{Derive, Fits}
use e1000_emu.Registers.General.{InterruptCauses, interrupt_causes}
use e1000_emu.Device.Interrupts.{packed_word, modify_causes}

pub interrupt_causes-Fits : (r : InterruptCauses) → Fits interrupt_causes r
interrupt_causes-Fits r = record {
  in_size = omega digit_laws;
  kept = λ i. record {
    txdw = bit-eq-of_digit 0 (interrupt_causes.encode r) r.txdw (omega digit_laws) i;
    txqe = bit-eq-of_digit 1 (interrupt_causes.encode r) r.txqe (omega digit_laws) i;
    lsc = bit-eq-of_digit 2 (interrupt_causes.encode r) r.lsc (omega digit_laws) i;
    rxdmt0 = bit-eq-of_digit 4 (interrupt_causes.encode r) r.rxdmt0 (omega digit_laws) i;
    rxt0 = bit-eq-of_digit 7 (interrupt_causes.encode r) r.rxt0 (omega digit_laws) i;
    mdac = bit-eq-of_digit 9 (interrupt_causes.encode r) r.mdac (omega digit_laws) i;
  };
}

-- The word in which the packed bytes, the most significant first, are read as little endian.
abbrev pub word : InterruptCauses → ℕ
word r =
    join 17
      (join 7
        (join 1
          (join 1 (join 2 (join 3 (digit r.rxt0) (digit r.rxdmt0)) (digit r.lsc)) (digit r.txqe))
          (digit r.txdw))
        (digit r.mdac))
      0

pub packed_word_lem :
    {S : Type 0} ⦃D : Derive⦄ (r : InterruptCauses) (s : S) → packed_word r s ≡ ok (word r) s
unfolding packed_word
packed_word_lem ⦃D⦄ r s =
    rw (D.pack_lem interrupt_causes r (interrupt_causes-Fits r))
      (ap (λ (n : ℕ). ok n s) (omega digit_laws))

-- Cause by cause.
abbrev pub both : InterruptCauses → InterruptCauses → InterruptCauses
both r m = record {
  txdw = r.txdw && m.txdw;
  txqe = r.txqe && m.txqe;
  lsc = r.lsc && m.lsc;
  rxdmt0 = r.rxdmt0 && m.rxdmt0;
  rxt0 = r.rxt0 && m.rxt0;
  mdac = r.mdac && m.mdac;
}

abbrev pub either : InterruptCauses → InterruptCauses → InterruptCauses
either r m = record {
  txdw = r.txdw || m.txdw;
  txqe = r.txqe || m.txqe;
  lsc = r.lsc || m.lsc;
  rxdmt0 = r.rxdmt0 || m.rxdmt0;
  rxt0 = r.rxt0 || m.rxt0;
  mdac = r.mdac || m.mdac;
}

abbrev pub complement : InterruptCauses → InterruptCauses
complement m = record {
  txdw = not m.txdw;
  txqe = not m.txqe;
  lsc = not m.lsc;
  rxdmt0 = not m.rxdmt0;
  rxt0 = not m.rxt0;
  mdac = not m.mdac;
}

pub bit_and-word : (r m : InterruptCauses) → bit_and (word r) (word m) ≡ word (both r m)
bit_and-word r m =
    rw
      (
        bit_and-join 17 _ _ 0 0 (omega arith) (omega arith),
        bit_and-join 7 _ _ (digit r.mdac) (digit m.mdac) (omega digit_laws) (omega digit_laws),
        bit_and-join 1 _ _ (digit r.txdw) (digit m.txdw) (omega digit_laws) (omega digit_laws),
        bit_and-join 1 _ _ (digit r.txqe) (digit m.txqe) (omega digit_laws) (omega digit_laws),
        bit_and-join 2 _ _ (digit r.lsc) (digit m.lsc) (omega digit_laws) (omega digit_laws),
        bit_and-join 3 _ _ (digit r.rxdmt0) (digit m.rxdmt0) (omega digit_laws) (omega digit_laws),
      )
      (simp bit_and-digit)

pub bit_or-word : (r m : InterruptCauses) → bit_or (word r) (word m) ≡ word (either r m)
bit_or-word r m =
    rw
      (
        bit_or-join 17 _ _ 0 0 (omega arith) (omega arith),
        bit_or-join 7 _ _ (digit r.mdac) (digit m.mdac) (omega digit_laws) (omega digit_laws),
        bit_or-join 1 _ _ (digit r.txdw) (digit m.txdw) (omega digit_laws) (omega digit_laws),
        bit_or-join 1 _ _ (digit r.txqe) (digit m.txqe) (omega digit_laws) (omega digit_laws),
        bit_or-join 2 _ _ (digit r.lsc) (digit m.lsc) (omega digit_laws) (omega digit_laws),
        bit_or-join 3 _ _ (digit r.rxdmt0) (digit m.rxdmt0) (omega digit_laws) (omega digit_laws),
      )
      (simp bit_or-digit)

-- `!word`: the digits negated, between runs of ones.
not-word :
    (m : InterruptCauses)
    → 2 ^ 32 - 1 - word m
      ≡ join 17
          (join 7
            (join 1
              (join 1
                (join 2
                  (join 3 (2 * 0 + 1 - digit m.rxt0) (2 * 3 + 1 - digit m.rxdmt0))
                  (2 * 1 + 1 - digit m.lsc))
                (2 * 0 + 1 - digit m.txqe))
              (2 * 0 + 1 - digit m.txdw))
            (2 * 63 + 1 - digit m.mdac))
          (2 ^ 17 - 1)
not-word m = omega digit_laws

pub bit_and-not_word :
    (r m : InterruptCauses) → bit_and (word r) (2 ^ 32 - 1 - word m) ≡ word (both r (complement m))
bit_and-not_word r m =
    rw
      (
        not-word m,
        bit_and-join 17 _ _ 0 (2 ^ 17 - 1) (omega arith) (omega arith),
        bit_and-join 7 _ _ (digit r.mdac) (2 * 63 + 1 - digit m.mdac) (omega digit_laws)
            (omega digit_laws),
        bit_and-join 1 _ _ (digit r.txdw) (2 * 0 + 1 - digit m.txdw) (omega digit_laws)
            (omega digit_laws),
        bit_and-join 1 _ _ (digit r.txqe) (2 * 0 + 1 - digit m.txqe) (omega digit_laws)
            (omega digit_laws),
        bit_and-join 2 _ _ (digit r.lsc) (2 * 1 + 1 - digit m.lsc) (omega digit_laws)
            (omega digit_laws),
        bit_and-join 3 _ _ (digit r.rxdmt0) (2 * 3 + 1 - digit m.rxdmt0) (omega digit_laws)
            (omega digit_laws),
      )
      (simp bit_and-digit-not)

-- Some cause is set.
abbrev pub any_cause : InterruptCauses → Bool
any_cause r = r.txdw || (r.txqe || (r.lsc || (r.rxdmt0 || (r.rxt0 || r.mdac))))

pub word-test : (r : InterruptCauses) → (word r == 0) ≡ not (any_cause r)
word-test r = ground arith

pub unpack-word :
    (r : InterruptCauses) → interrupt_causes.decode (from_be_bytes (to_le_bytes 4 (word r))) ≡ r
unpack-word r = ap interrupt_causes.decode (omega digit_laws) ∙ (interrupt_causes-Fits r).kept

-- What `modify` means for each cause.
abbrev pub modified : InterruptCauses → InterruptCauses → Bool → InterruptCauses
modified r mask clear = if clear then both r (complement mask) else either r mask

unpack-packed :
    ⦃D : Derive⦄ (r : InterruptCauses)
    → (D.derive interrupt_causes).unpack (to_le_bytes 4 (word r)) ≡ some r
unpack-packed ⦃D⦄ r =
    D.unpack_lem interrupt_causes (to_le_bytes 4 (word r)) refl (to_le_bytes-IsBytes 4 (word r))
    ∙ ap some (unpack-word r)

-- `modify` does not panic, for every two sets of causes, and either adds the causes of the mask or,
-- where it clears, takes them away, cause by cause.
pub modify_causes_lem :
    {S : Type 0} ⦃D : Derive⦄ (r mask : InterruptCauses) (clear : Bool) (s : S)
    → modify_causes r mask clear s ≡ ok (modified r mask clear) s
unfolding modify_causes
modify_causes_lem ⦃D⦄ r mask true s =
    rw (packed_word_lem r s, ◌>>=◌)
      (rw (packed_word_lem mask s, ◌>>=◌)
        (rw (bit_and-not_word r mask, unpack-packed (both r (complement mask)), or_panic) refl))
modify_causes_lem ⦃D⦄ r mask false s =
    rw (packed_word_lem r s, ◌>>=◌)
      (rw (packed_word_lem mask s, ◌>>=◌)
        (rw (bit_or-word r mask, unpack-packed (either r mask), or_panic) refl))
