-- ===== src/Tests/Stores.antt =====
-- The theorems on the EEPROM, the ring addresses and the regions at concrete inputs.
use e1000_emu.Prelude.{
  ℕ, ◌+◌, ◌*◌, ◌/◌, ◌%◌, ◌^◌, ◌≡◌, refl, true, false, List, [], ◌∷◌, ◌++◌, arith, replicate,
  IsBytes, from_le_bytes, from_be_bytes, some,
}
use e1000_emu.Outcome.{ok}
use e1000_emu.Packing.Reference.{reference}
use e1000_emu.NicContext.Machine.{Machine, machine, machine_clock, no_checksum}
use e1000_emu.Registers.Rings.{descriptor_base_address_low, descriptor_base_address_high}
use e1000_emu.Registers.File.{base_address}
use e1000_emu.Registers.Addresses.{base_address_lem}
use e1000_emu.Descriptors.Formats.{unpack_transmit, transmit_descriptor_common}
use e1000_emu.Descriptors.Formats.Unpack.{variant_of, unpack_transmit_lem}
use e1000_emu.Eeprom.{EepromInterface, default_eeprom, pack_initial_eeprom, desired_checksum}
use e1000_emu.Eeprom.Microwire.{read_bits, stream, after_read}
use e1000_emu.Eeprom.Checksum.{mac_bytes, with_mac, image, sum, pack_initial_eeprom_lem}
use e1000_emu.Device.State.{E1000}
use e1000_emu.Device.Regions.{region_access_bar0, region_access_bar1}
use e1000_emu.Device.Regions.Laws.{region_access_bar1-bar0}
use e1000_emu.Outcome.{modify, ◌>>◌}
use e1000_emu.Phy.{mdi_read, mdi_write}
use e1000_emu.Descriptors.Formats.{TransmitDescriptor}
use e1000_emu.Descriptors.Formats.WriteBack.{IsKept, with_status, unpack_transmit-pack_transmit}
use e1000_emu.Device.Access.Plain.{ReadsBack, rdlen, access_register-ReadsBack}
use e1000_emu.Device.Eecd.{eecd_output, with_eeprom}
use e1000_emu.Device.Eecd.Read.{read_bits-eecd}
use e1000_emu.Registers.General.{EepromControlAndData}
use e1000_emu.Device.Management.{mdic_write}
use e1000_emu.Device.Mdi.{with_mdic, command, kept_by, mdic_write-reads_back}
use e1000_emu.Tests.Data.{fresh}

-- Sixty-four words of data.
abbrev stored : EepromInterface
stored = record default_eeprom { words = 0x5452 ∷ 0x1200 ∷ 0x5634 ∷ replicate 61 0 }

read_bits-eecd_example :
    (k : EepromControlAndData) × (read_bits eecd_output 1 16 (record fresh { eeprom = stored })
      ≡ ok
          (stream stored.words 1 0 16)
          (with_eeprom (after_read 1 16 stored) k (record fresh { eeprom = stored })))
read_bits-eecd_example =
    read_bits-eecd (record fresh { eeprom = stored }) 1 16 refl refl (omega arith)

mac-IsBytes : IsBytes (mac_bytes 0x52 0x54 0 0x12 0x34 0x56)
mac-IsBytes =
    (omega arith, (omega arith, (omega arith, (omega arith, (omega arith, (omega arith, tt))))))

pack_initial_eeprom_lem_example :
    (c : ℕ) × (pack_initial_eeprom (with_mac 0x52 0x54 0 0x12 0x34 0x56 mac-IsBytes default_eeprom)
      ≡ ok tt (record (with_mac 0x52 0x54 0 0x12 0x34 0x56 mac-IsBytes default_eeprom) {
        words = image 0x52 0x54 0 0x12 0x34 0x56 ++ (c ∷ []);
      }))
    × (sum (image 0x52 0x54 0 0x12 0x34 0x56 ++ (c ∷ [])) % 2 ^ 16 ≡ desired_checksum)
pack_initial_eeprom_lem_example =
    pack_initial_eeprom_lem 0x52 0x54 0 0x12 0x34 0x56 mac-IsBytes default_eeprom refl

base_address_lem_example :
    base_address
      (descriptor_base_address_low.decode 0x12345670)
      (descriptor_base_address_high.decode 0x1)
    ≡ 0x1 * 2 ^ 32 + 0x12345670 / 16 * 16
base_address_lem_example = base_address_lem 0x12345670 0x1 (omega arith) (omega arith)

abbrev ims : List ℕ
ims = 0xD0 ∷ 0 ∷ 0 ∷ 0 ∷ []

ims-IsBytes : IsBytes ims
ims-IsBytes = (omega arith, (omega arith, (omega arith, (omega arith, tt))))

abbrev link : List ℕ
link = 4 ∷ 0 ∷ 0 ∷ 0 ∷ []

abbrev addressed : E1000 Machine
addressed = record fresh { io_addr = from_le_bytes ims }

region_access_bar1-bar0_example :
    (region_access_bar1 0 ims true fresh ≡ ok (4, ims) addressed)
    × (region_access_bar1 4 link true addressed
        ≡ region_access_bar0 (from_le_bytes ims) link true addressed)
    × (region_access_bar1 0 link false addressed ≡ ok (4, ims) addressed)
region_access_bar1-bar0_example =
    region_access_bar1-bar0 ims link link true fresh refl refl refl ims-IsBytes

-- A data descriptor: DEXT, DTYP 1, EOP.
abbrev data_bytes : List ℕ
data_bytes = 0 ∷ 0x20 ∷ 0 ∷ 0 ∷ 0 ∷ 0 ∷ 0 ∷ 0 ∷ 3 ∷ 0 ∷ 0x10 ∷ 0x21 ∷ 0 ∷ 0 ∷ 0 ∷ 0 ∷ []

data_bytes-IsBytes : IsBytes data_bytes
data_bytes-IsBytes = ground arith

unpack_transmit_lem_example :
    unpack_transmit data_bytes
    ≡ some (record {
      common = transmit_descriptor_common.decode (from_be_bytes data_bytes);
      variant = variant_of (from_be_bytes data_bytes);
    })
unpack_transmit_lem_example = unpack_transmit_lem data_bytes refl data_bytes-IsBytes

unpack_transmit-pack_transmit_example :
    (d : TransmitDescriptor) × (unpack_transmit data_bytes ≡ some d) × IsKept (with_status true d)
unpack_transmit-pack_transmit_example =
    unpack_transmit-pack_transmit data_bytes true refl data_bytes-IsBytes

-- The length of the receive ring: of the word 0xFFF12345 it keeps 0x12300.
access_register-ReadsBack_example : ReadsBack rdlen 0x45 0x23 0xF1 0xFF fresh
access_register-ReadsBack_example =
    access_register-ReadsBack 0x45 0x23 0xF1 0xFF fresh
      (omega arith, (omega arith, (omega arith, (omega arith, tt)))) rdlen

-- PHY identifier, and a read that finds 7 in the register's data.
mdic_write-reads_back_example :
    (e' : E1000 Machine) × ((modify (with_mdic (command mdi_write 2 0x1234))
          >> mdic_write
          >> modify (with_mdic (command mdi_read 2 7))
          >> mdic_write)
        fresh
      ≡ ok tt e')
    × (e'.regs.mdic.value ≡ kept_by 2 0x1234)
    × (e'.regs.mdic.ready ≡ true)
mdic_write-reads_back_example =
    mdic_write-reads_back fresh 2 0x1234 7 (omega arith) (omega arith) (omega arith)
