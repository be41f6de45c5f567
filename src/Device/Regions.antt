-- ===== src/Device/Regions.antt =====
-- `region_access_bar0` and `region_access_bar1` of src/e1000.rs: the result is the number of bytes,
-- beside the buffer after the access.
pub mod Laws
use e1000_emu.Prelude.{
  ℕ, ◌%◌, ◌^◌, Bool, true, false, Option, none, some, List, length, ◌==◌, if◌then◌else◌,
  from_le_bytes, to_le_bytes,
}
use e1000_emu.Outcome.{M, pure, fail, gets, modify, ensure, unwrap, ◌>>=◌, ◌>>◌}
use e1000_emu.Packing.{Derive}
use e1000_emu.NicContext.{NicContext, Clock, InternetChecksum}
use e1000_emu.Device.State.{E1000}
use e1000_emu.Device.Access.{access_register}

-- `None` of `access_register` leaves the buffer alone.
abbrev pub buffer_after : List ℕ → Option (List ℕ) → List ℕ
buffer_after bytes none = bytes
buffer_after bytes (some bytes') = bytes'

module _ {C : Type 0} where
  -- IOADDR.
  unfoldable pub access_address : List ℕ → Bool → M (E1000 C) (ℕ × List ℕ)
  access_address bytes true = do
    modify (λ e. record e { io_addr = from_le_bytes bytes })
    pure (4, bytes)
  access_address bytes false = gets λ e. (4, to_le_bytes 4 e.io_addr)

module _ {C : Type 0} ⦃D : Derive⦄ ⦃K : InternetChecksum⦄ ⦃N : NicContext C⦄ ⦃T : Clock C⦄ where
  unfoldable pub region_access_bar0 : ℕ → List ℕ → Bool → M (E1000 C) (ℕ × List ℕ)
  region_access_bar0 offset bytes write = do
    ensure (length bytes == 4)
    ensure (offset % 4 == 0)
    result ← unwrap (access_register (offset % 2 ^ 32) bytes write)
    pure (length bytes, buffer_after bytes result)

  unfoldable pub region_access_bar1 : ℕ → List ℕ → Bool → M (E1000 C) (ℕ × List ℕ)
  region_access_bar1 offset bytes write = do
    ensure (length bytes == 4)
    if offset == 0
        then access_address bytes write
        else if offset == 4
        then (λ e. region_access_bar0 e.io_addr bytes write e)
        else fail
