-- ===== src/Device/Regions/Laws.antt =====
-- The two memory regions of src/e1000.rs against each other.
use e1000_emu.Prelude.{
  ℕ, ◌≡◌, refl, subst, Bool, true, false, List, length, IsBytes, from_le_bytes, to_le_bytes,
  to_le_bytes-from_le_bytes,
}
use e1000_emu.Outcome.{ok}
use e1000_emu.Packing.{Derive}
use e1000_emu.NicContext.{NicContext, Clock, InternetChecksum}
use e1000_emu.Device.State.{E1000}
use e1000_emu.Device.Regions.{region_access_bar0, region_access_bar1, access_address}

restored : (bs : List ℕ) → length bs ≡ 4 → IsBytes bs → to_le_bytes 4 (from_le_bytes bs) ≡ bs
restored bs h b =
    subst (λ n. to_le_bytes n (from_le_bytes bs) ≡ bs) h (to_le_bytes-from_le_bytes bs b)

module _ {C : Type 0} ⦃D : Derive⦄ ⦃K : InternetChecksum⦄ ⦃N : NicContext C⦄ ⦃T : Clock C⦄ where
  -- Writing an address of four bytes to IOADDR and then accessing IODATA is the access to region 0
  -- at that address, in the device that has the address noted; and IOADDR reads back as written.
  pub region_access_bar1-bar0 :
      (address bytes buffer : List ℕ) (write : Bool) (e : E1000 C)
      → length address ≡ 4
      → length bytes ≡ 4
      → length buffer ≡ 4
      → IsBytes address
      → let noted = record e { io_addr = from_le_bytes address } in
        (region_access_bar1 0 address true e ≡ ok (4, address) noted)
        × (region_access_bar1 4 bytes write noted
            ≡ region_access_bar0 (from_le_bytes address) bytes write noted)
        × (region_access_bar1 0 buffer false noted ≡ ok (4, address) noted)
  unfolding region_access_bar1 access_address
  region_access_bar1-bar0 address bytes buffer write e h k l b =
      (rw h refl, rw k refl, rw (l, restored address h b) refl)
