-- ===== src/Registers/Addresses.antt =====
-- The descriptor base addresses of src/e1000/registers.rs.
use e1000_emu.Prelude.{ℕ, ◌+◌, ◌*◌, ◌%◌, ◌/◌, ◌^◌, ◌<◌, ◌≡◌, arith, bits, bit_or-join_low}
use e1000_emu.Registers.Rings.{descriptor_base_address_low, descriptor_base_address_high}
use e1000_emu.Registers.File.{base_address}

-- From the two words below 2^32 that the driver wrote, the ring's address is the high word times
-- 2^32 plus the low word without its lowest four bits.
pub base_address_lem :
    (low high : ℕ)
    → low < 2 ^ 32
    → high < 2 ^ 32
    → base_address
        (descriptor_base_address_low.decode low)
        (descriptor_base_address_high.decode high)
      ≡ high * 2 ^ 32 + low / 16 * 16
unfolding base_address
base_address_lem low high h k =
    let l : bits 4 28 low * 2 ^ 4 % 2 ^ 64 ≡ low / 16 * 16 = omega arith in
    let u : bits 0 32 high * 2 ^ 32 % 2 ^ 64 ≡ high * 2 ^ 32 = omega arith in
    rw (l, u) (bit_or-join_low 32 high (low / 16 * 16) (omega arith))
