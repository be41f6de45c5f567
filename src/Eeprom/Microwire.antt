-- ===== src/Eeprom/Microwire.antt =====
-- The Microwire protocol against `process_wires` of src/e1000/eeprom.rs: what a driver reads that
-- clocks an opcode and an address in and data out.
use e1000_emu.Prelude.{
  ℕ, zero, suc, ◌+◌, ◌-◌, ◌*◌, ◌/◌, ◌%◌, ◌^◌, ◌<◌, ◌≡◌, refl, ap, ◌∙◌, Bool, true, false, not, List,
  [], ◌∷◌, length, get_or, arith, digit, digit-bit, digit_laws, bit, bit_and, bit_or, bit_or_shift,
  every_below, every_below_lem, ==_iff, bit_and-pow, ◌==◌,
}
use native.Mathlib.Nat.{one-le-pow}
use e1000_emu.Outcome.{M, ok, pure, ◌>>=◌, ◌>>◌}
use e1000_emu.Eeprom.{
  EepromInterface, EepromWires, EepromOperationStage, waiting_opcode, waiting_address, reading,
  process_wires, select, clock_selected, clock_edge, rising, falling, output_bit,
}

-- The driver's side. The wires with the chip selected.
abbrev pub wires : Bool → Bool → EepromWires
wires clock d = record {
  clock_input = clock;
  chip_select = true;
  data_input = d;
  data_output = false;
}

abbrev pub deselected : EepromWires
deselected = record (wires false false) { chip_select = false }

-- The six bits of an address, the most significant first.
abbrev pub address_bits_of : ℕ → List Bool
address_bits_of a = bit 5 a ∷ bit 4 a ∷ bit 3 a ∷ bit 2 a ∷ bit 1 a ∷ bit 0 a ∷ []

-- `wire` sets the wires and gives the chip's output.
module _ {S : Type 0} (wire : EepromWires → M S Bool) where
  -- A clock pulse with a data bit; the bit that the chip gives out while the clock is high.
  abbrev pub pulse : Bool → M S Bool
  pulse d = do high ← wire (wires true d); wire (wires false d); pure high

  abbrev pub send_bits : List Bool → M S (Unit {0})
  send_bits [] = pure tt
  send_bits (d ∷ ds) = pulse d >> send_bits ds

  abbrev pub receive_bits : ℕ → M S (List Bool)
  receive_bits zero = pure []
  receive_bits (suc n) = do d ← pulse false; ds ← receive_bits n; pure (d ∷ ds)

  -- Chip select off and on, the opcode 110, the address, and `n` bits.
  abbrev pub read_bits : ℕ → ℕ → M S (List Bool)
  read_bits a n = do
    wire deselected
    wire (wires false false)
    send_bits (true ∷ true ∷ false ∷ [])
    send_bits (address_bits_of a)
    receive_bits n

-- The chip itself.
abbrev pub process_output : EepromWires → M EepromInterface Bool
process_output w = do w' ← process_wires w; pure w'.data_output

-- Bit `j` from word `a` on, the most significant bit of a word first, round the end of the data.
abbrev pub stream_bit : List ℕ → ℕ → ℕ → Bool
stream_bit words a j = bit (15 - j % 16) (get_or words ((a + j / 16) % 64) 0)

abbrev pub stream : List ℕ → ℕ → ℕ → ℕ → List Bool
stream words a j zero = []
stream words a j (suc n) = stream_bit words a j ∷ stream words a (j + 1) n

-- `written <<= 1; written |= d`, on a `u16`.
abbrev shift : ℕ → Bool → ℕ
shift x b = bit_or (x * 2 % 2 ^ 16) (digit b)

shift_lem : {x y : ℕ} (b : Bool) → x ≡ y → y < 2 ^ 15 → shift x b ≡ 2 * y + digit b
shift_lem {x} {y} b e h = rw e (ap (λ z. bit_or z (digit b)) (omega arith) ∙ bit_or_shift y b)

-- The chip waits for an address.
abbrev addressed : EepromInterface → EepromOperationStage → ℕ → EepromInterface
addressed e s i = record e {
  previous_chip_select = true;
  previous_clock = false;
  stage = s;
  bit_index = i;
}

deselect :
    (e : EepromInterface)
    → process_output deselected e ≡ ok false (record e { previous_chip_select = false })
unfolding process_wires
deselect e = refl

select_lem :
    (e : EepromInterface)
    → e.previous_clock ≡ false
    → process_output (wires false false) (record e { previous_chip_select = false })
      ≡ ok false (addressed e (waiting_opcode 0) 0)
unfolding process_wires select clock_selected
select_lem e c = ground (arith, c)

send_opcode :
    (e : EepromInterface)
    → send_bits process_output (true ∷ true ∷ false ∷ []) (addressed e (waiting_opcode 0) 0)
      ≡ ok tt (addressed e (waiting_address 0) 0)
unfolding process_wires select clock_selected clock_edge rising falling
send_opcode e = refl

-- Six digits shifted in.
shifted-eq :
    (a : ℕ)
    → a < 64
    → shift
        (shift (shift (shift (shift (shift 0 (bit 5 a)) (bit 4 a)) (bit 3 a)) (bit 2 a)) (bit 1 a))
        (bit 0 a)
      ≡ a
shifted-eq a h =
    shift_lem (bit 0 a)
      (shift_lem (bit 1 a)
        (shift_lem (bit 2 a)
          (shift_lem (bit 3 a)
            (shift_lem (bit 4 a) (shift_lem {x = 0} (bit 5 a) refl (omega arith))
              (omega digit_laws))
            (omega digit_laws))
          (omega digit_laws))
        (omega digit_laws))
      (omega digit_laws)
    ∙ omega (
      arith,
      digit-bit 0 a,
      digit-bit 1 a,
      digit-bit 2 a,
      digit-bit 3 a,
      digit-bit 4 a,
      digit-bit 5 a,
    )

send_address :
    (e : EepromInterface) (a : ℕ)
    → a < 64
    → send_bits process_output (address_bits_of a) (addressed e (waiting_address 0) 0)
      ≡ ok tt (addressed e (reading a) 0)
unfolding process_wires select clock_selected clock_edge rising falling
send_address e a h = ap (λ x. ok tt (addressed e (reading x) 0)) (shifted-eq a h)

mask_table : every_below (λ k. 0x8000 / 2 ^ k == 2 ^ (15 - k)) 16 ≡ true
unfolding every_below
mask_table = refl

-- `0x8000 >> k`.
mask_lem : (k : ℕ) → k < 16 → 0x8000 / 2 ^ k ≡ 2 ^ (15 - k)
mask_lem k h = (==_iff _ _).0 (every_below_lem _ 16 k mask_table h)

test_digit : (b : Bool) (p : ℕ) → 0 < p → not (digit b * p == 0) ≡ b
test_digit true p h = ground arith
test_digit false p h = ground arith

test_bit : (k w : ℕ) → not (bit_and w (2 ^ k) == 0) ≡ bit k w
test_bit k w = rw (bit_and-pow k w) (test_digit (bit k w) (2 ^ k) (one-le-pow k 2 (omega arith)))

output_bit_lem :
    (words : List ℕ) (a i : ℕ)
    → length words ≡ 64
    → output_bit words a (i % 2 ^ 16) ≡ stream_bit words a i
unfolding output_bit
output_bit_lem words a i h =
    let word_at : (a * 16 + i % 2 ^ 16) % 2 ^ 16 / 16 % 64 ≡ (a + i / 16) % 64 = omega arith in
    let bit_at : (a * 16 + i % 2 ^ 16) % 2 ^ 16 % 16 ≡ i % 16 = omega arith in
    rw (h, word_at, bit_at, mask_lem (i % 16) (omega arith)) (test_bit (15 - i % 16) _)

receive_lem :
    (n : ℕ) (e : EepromInterface) (a j : ℕ)
    → length e.words ≡ 64
    → receive_bits process_output n (addressed e (reading a) (j % 2 ^ 16))
      ≡ ok (stream e.words a j n) (addressed e (reading a) ((j + n) % 2 ^ 16))
unfolding process_wires select clock_selected clock_edge rising falling
receive_lem zero e a j h = ap (λ x. ok [] (addressed e (reading a) x)) (omega arith)
receive_lem (suc n) e a j h =
    let next : (j % 2 ^ 16 + 1) % 2 ^ 16 ≡ (j + 1) % 2 ^ 16 = omega arith in
    let last : j + 1 + n ≡ j + suc n = omega arith in
    rw (next, output_bit_lem e.words a j h) (rw (receive_lem n e a (j + 1) h, ◌>>=◌) (rw last refl))

-- The device after a read of `n` bits.
abbrev pub after_read : ℕ → ℕ → EepromInterface → EepromInterface
after_read a n e = addressed e (reading a) (n % 2 ^ 16)

-- If the clock was left low and the EEPROM holds 64 words, the driver's read of `n` bits from the
-- word `a` below 64 on returns, for every `n`, these bits in order, round the end of the data,
-- and changes no word. The `u16` bit counter may wrap.
pub read_bits_lem :
    (e : EepromInterface) (a n : ℕ)
    → length e.words ≡ 64
    → e.previous_clock ≡ false
    → a < 64
    → read_bits process_output a n e ≡ ok (stream e.words a 0 n) (after_read a n e)
read_bits_lem e a n h c lt =
    let all_read : 0 + n ≡ n = omega arith in
    rw (deselect e, ◌>>=◌)
      (rw (select_lem e c, ◌>>=◌)
        (rw (send_opcode e, ◌>>=◌)
          (rw (send_address e a lt, ◌>>=◌) (rw all_read at (receive_lem n e a 0 h)))))
