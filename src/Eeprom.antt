-- ===== src/Eeprom.antt =====
-- src/e1000/eeprom.rs: the Microwire EEPROM. `u8` and `u16` arithmetic wraps, as in a release build.
pub mod Microwire
pub mod Checksum
use e1000_emu.Prelude.{
  ℕ, ◌+◌, ◌-◌, ◌*◌, ◌/◌, ◌%◌, ◌^◌, Bool, true, false, not, List, [], ◌∷◌, length, get_or, set, take,
  replicate, bit_and, bit_or, digit, eqb, ◌==◌, if◌then◌else◌, from_le_bytes, from_be_bytes,
  to_be_bytes,
}
use mathlib.Core.List.{reverse}
use e1000_emu.Outcome.{M, pure, fail, gets, modify, or_panic, ◌>>=◌, ◌>>◌}
use e1000_emu.Packing.{Layout, Derive}

pub record Eeprom : Type 0 where
  pub ethernet_address : List ℕ

-- Bytes 0 to 5 are the least significant ones, and `endian` leaves arrays of bytes as they are.
abbrev pub eeprom : Layout Eeprom
eeprom = record {
  size = 128;
  encode = λ e. from_be_bytes e.ethernet_address;
  decode = λ w. record { ethernet_address = to_be_bytes 6 w };
}

unfoldable pub ethernet_address : Eeprom → List ℕ
ethernet_address e = reverse e.ethernet_address

unfoldable pub set_ethernet_address : List ℕ → Eeprom → Eeprom
set_ethernet_address address e = record e { ethernet_address = reverse address }

abbrev pub microwire_opcode_read : ℕ
microwire_opcode_read = 0x6

abbrev pub opcode_bits : ℕ
opcode_bits = 3

abbrev pub address_bits : ℕ
address_bits = 6

abbrev pub desired_checksum : ℕ
desired_checksum = 0xBABA

pub record EepromWires : Type 0 where
  pub clock_input : Bool
  pub chip_select : Bool
  pub data_input : Bool
  pub data_output : Bool

pub data EepromOperationStage : Type 0 where
  waiting_opcode : ℕ → EepromOperationStage
  waiting_address : ℕ → EepromOperationStage
  reading : ℕ → EepromOperationStage

-- `words` is the array `data` of 64 words.
pub record EepromInterface : Type 0 where
  pub initial_eeprom : Eeprom
  pub words : List ℕ
  pub previous_chip_select : Bool
  pub previous_clock : Bool
  pub stage : EepromOperationStage
  pub bit_index : ℕ

abbrev pub default_eeprom : EepromInterface
default_eeprom = record {
  initial_eeprom = record { ethernet_address = replicate 6 0 };
  words = replicate 64 0;
  previous_chip_select = false;
  previous_clock = false;
  stage = waiting_opcode 0;
  bit_index = 0;
}

-- The chip select was just activated.
unfoldable pub select : EepromInterface → EepromInterface
select e =
    if e.previous_chip_select
    then e
    else record e { stage = waiting_opcode 0; bit_index = 0; previous_chip_select = true }

-- Bit `bit_index` of the word at `address`, round the end of the data.
unfoldable pub output_bit : List ℕ → ℕ → ℕ → Bool
output_bit words address bit_index =
    let total_bit_offset = (address * 16 + bit_index) % 2 ^ 16 in
    let word_index = total_bit_offset / 16 % length words in
    let mask = 0x8000 / 2 ^ (total_bit_offset % 16) in
    not (bit_and (get_or words word_index 0) mask == 0)

-- Low to high: takes a bit in or gives one out.
unfoldable pub rising : EepromOperationStage → EepromWires → M EepromInterface EepromWires
rising (waiting_opcode written) w = do
  modify
      λ e. record e { stage = waiting_opcode (bit_or (written * 2 % 2 ^ 8) (digit w.data_input)) }
  pure w
rising (waiting_address written) w = do
  modify
      λ e. record e { stage = waiting_address (bit_or (written * 2 % 2 ^ 16) (digit w.data_input)) }
  pure w
rising (reading address) w =
    gets λ e. record w { data_output = output_bit e.words address e.bit_index }

-- High to low, after the index went up: the next stage.
unfoldable pub falling : EepromOperationStage → EepromInterface → M EepromInterface (Unit {0})
falling (waiting_opcode written) e =
    if e.bit_index == opcode_bits
    then if written == microwire_opcode_read
      then modify (λ e. record e { stage = waiting_address 0; bit_index = 0 })
      else fail
    else pure tt
falling (waiting_address written) e =
    if e.bit_index == address_bits
    then modify (λ e. record e { stage = reading written; bit_index = 0 })
    else pure tt
falling (reading address) e = pure tt

-- A change of the clock.
unfoldable pub clock_edge : EepromWires → M EepromInterface EepromWires
clock_edge w e =
    if w.clock_input
    then rising e.stage w e
    else let counted = record e { bit_index = (e.bit_index + 1) % 2 ^ 16 } in
      (falling counted.stage counted >> pure w) counted

-- The clock input of a chip that is selected.
unfoldable pub clock_selected : EepromWires → M EepromInterface EepromWires
clock_selected w e =
    if eqb w.clock_input e.previous_clock
    then pure w e
    else clock_edge w (record e { previous_clock = w.clock_input })

unfoldable pub process_wires : EepromWires → M EepromInterface EepromWires
process_wires w e =
    if w.chip_select
    then clock_selected w (select e)
    else pure w (record e { previous_chip_select = false })

-- `chunks_exact(2)`, each chunk read as a little endian `u16`.
unfoldable pub chunk_words : List ℕ → List ℕ
chunk_words [] = []
chunk_words (b ∷ []) = []
chunk_words (a ∷ b ∷ bs) = from_le_bytes (a ∷ b ∷ []) ∷ chunk_words bs

-- The loop from index `i` on: the words stored so far and their wrapping sum.
unfoldable pub store_words : ℕ → List ℕ → List ℕ → ℕ → List ℕ × ℕ
store_words i [] words sum = (words, sum)
store_words i (word ∷ rest) words sum =
    store_words (i + 1) rest (set words i word) ((sum + word) % 2 ^ 16)

-- The words of the reversed bytes without the last word, which is set to the checksum.
unfoldable pub checksummed : List ℕ → EepromInterface → EepromInterface
checksummed pack e =
    let (words, sum) = store_words 0 (chunk_words (take (length pack - 2) pack)) e.words 0 in
    let checksum = (desired_checksum + 2 ^ 16 - sum) % 2 ^ 16 in
    record e { words = set words (length words - 1) checksum }

unfoldable pub pack_initial_eeprom : ⦃D : Derive⦄ → M EepromInterface (Unit {0})
pack_initial_eeprom ⦃D⦄ = do
  initial ← gets (λ e. e.initial_eeprom)
  packed ← or_panic ((D.derive eeprom).pack initial)
  modify (checksummed (reverse packed))
