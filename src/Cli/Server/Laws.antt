-- ===== src/Cli/Server/Laws.antt =====
-- What libvfio-user gets from the region accesses of src/bin/nic-emu-cli/e1000.rs.
use e1000_emu.Prelude.{ℕ, ◌≡◌, ◌≢◌, refl, Bool, true, false, List}
use e1000_emu.Outcome.{Outcome, ok, err, panic, out_of_fuel}
use e1000_emu.Packing.{Derive}
use e1000_emu.NicContext.{InternetChecksum}
use e1000_emu.Device.State.{E1000}
use e1000_emu.Ffi.{answered}
use e1000_emu.Ffi.Answers.{
  Answers, is_valid_access, region_access_bar0-Answers, region_access_bar1-Answers,
}
use e1000_emu.Cli.{Libraries}
use e1000_emu.Cli.Context.{Host, host_context, host_clock}
use e1000_emu.Cli.Server.{Reply, done, errno, or_einval, region_access_bar0, region_access_bar1}

-- An access that is taken is done, unless it panics or does not return; one that is refused gets
-- EINVAL and changes nothing.
abbrev pub Replies : {S : Type 0} → S → Bool → Outcome S Reply → Type 0
Replies s true (ok (done n bytes) s') = Unit {0}
Replies s true (ok (errno n) s') = ⊥
Replies s true (err s') = ⊥
Replies s true panic = Unit {0}
Replies s true out_of_fuel = Unit {0}
Replies s false (ok (done n bytes) s') = ⊥
Replies s false (ok (errno n) s') = (n ≡ 22) × (s' ≡ s)
Replies s false (err s') = ⊥
Replies s false panic = ⊥
Replies s false out_of_fuel = ⊥

true≢false : true ≢ false
true≢false = cc

false≢true : false ≢ true
false≢true = cc

Replies-or_einval :
    {S : Type 0} (bytes : List ℕ) (s : S) (b : Bool) (o : Outcome S (ℕ × List ℕ))
    → Answers bytes s b (answered bytes o)
    → Replies s b (or_einval o)
Replies-or_einval bytes s true (ok (n, bs) s') h = tt
Replies-or_einval bytes s true (err s') h = false≢true h
Replies-or_einval bytes s true panic h = tt
Replies-or_einval bytes s true out_of_fuel h = tt
Replies-or_einval bytes s false (ok (n, bs) s') h = true≢false h.0
Replies-or_einval bytes s false (err s') h = (refl, h.2)
Replies-or_einval bytes s false panic h = h
Replies-or_einval bytes s false out_of_fuel h = h

module _ {W Mapping Iface : Type 0} (libraries : Libraries W Mapping Iface) ⦃D : Derive⦄
    ⦃K : InternetChecksum⦄ where
  -- A region access through libvfio-user is done for four bytes at a multiple of four in bar 0, at 0
  -- in bar 1, or at 4 in bar 1 with a multiple of four in IOADDR, unless it panics or does not
  -- return; every other access gets EINVAL and leaves the device as it was.
  pub region_access-Replies :
      (offset : ℕ) (bytes : List ℕ) (write : Bool) (e : E1000 (Host W Mapping Iface))
      → Replies e
          (is_valid_access 0 offset bytes e.io_addr)
          (region_access_bar0 libraries offset bytes write e)
        × Replies e
            (is_valid_access 1 offset bytes e.io_addr)
            (region_access_bar1 libraries offset bytes write e)
  unfolding region_access_bar0 region_access_bar1
  region_access-Replies offset bytes write e = (
    Replies-or_einval bytes e (is_valid_access 0 offset bytes e.io_addr) _ (
        region_access_bar0-Answers ⦃N = host_context libraries⦄ ⦃T = host_clock libraries⦄ offset
          bytes write e),
    Replies-or_einval bytes e (is_valid_access 1 offset bytes e.io_addr) _ (
        region_access_bar1-Answers ⦃N = host_context libraries⦄ ⦃T = host_clock libraries⦄ offset
          bytes write e),
  )
