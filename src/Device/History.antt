-- ===== src/Device/History.antt =====
-- Everything that the host may ask of the device, one call after the other.
use e1000_emu.Prelude.{ℕ, Bool, Option, List, [], ◌∷◌}
use e1000_emu.Outcome.{Outcome, ok, err, panic, out_of_fuel, M, pure, modify, ◌>>◌}
use e1000_emu.Outcome.Always.{Always, Kept, Always-bind}
use e1000_emu.Packing.{Derive}
use e1000_emu.NicContext.{NicContext, Clock, InternetChecksum}
use e1000_emu.Device.State.{E1000, InterruptMitigation}
use e1000_emu.Device.Interrupts.{timer_elapsed}
use e1000_emu.Device.Receive.{receive}
use e1000_emu.Device.Control.{reset_e1000}
use e1000_emu.Device.Regions.{region_access_bar0, region_access_bar1}
use e1000_emu.Device.Invariant.{IsStable}
use e1000_emu.Device.Invariant.Sound.{IsSound, timer_elapsed-Kept}
use e1000_emu.Device.Invariant.Parts.{receive-Kept, reset_e1000-Sound}
use e1000_emu.Device.Invariant.Access.{region_access_bar0-Kept, region_access_bar1-Kept}

-- The public functions of the device that change it.
pub data Call : Type 0 where
  accesses_bar0 : ℕ → List ℕ → Bool → Call
  accesses_bar1 : ℕ → List ℕ → Bool → Call
  receives : List ℕ → Call
  elapses : Call
  resets : Call

-- The host reports an error and goes on; a panic ends the process.
abbrev pub reported : {S : Type 0} → Outcome S (Unit {0}) → Outcome S (Unit {0})
reported (ok a e) = ok tt e
reported (err e) = ok tt e
reported panic = panic
reported out_of_fuel = out_of_fuel

pub Always-reported :
    {S : Type 0} (P : S → Type 0) (o : Outcome S (Unit {0})) → Always P o → Always P (reported o)
Always-reported P (ok a e) s = s
Always-reported P (err e) s = s
Always-reported P panic s = tt
Always-reported P out_of_fuel s = tt

module _ {C : Type 0} ⦃N : NicContext C⦄ ⦃T : Clock C⦄ ⦃D : Derive⦄ ⦃K : InternetChecksum⦄ where
  unfoldable pub perform : Call → M (E1000 C) (Unit {0})
  perform (accesses_bar0 offset bytes write) = region_access_bar0 offset bytes write >> pure tt
  perform (accesses_bar1 offset bytes write) = region_access_bar1 offset bytes write >> pure tt
  perform (receives frame) = receive frame
  perform elapses = timer_elapsed
  perform resets = modify reset_e1000

  unfoldable pub perform_all : List Call → M (E1000 C) (Unit {0})
  perform_all [] e = ok tt e
  perform_all (call ∷ calls) e = ((λ e. reported (perform call e)) >> perform_all calls) e

  module _ (J : Bool → Option InterruptMitigation → C → Type 0) (stable : IsStable N T J) where
    perform-Kept : (call : Call) → Kept (IsSound J) (perform call)
    unfolding perform
    perform-Kept (accesses_bar0 offset bytes write) e s =
        Always-bind (IsSound J) (region_access_bar0 offset bytes write) _ e
          (region_access_bar0-Kept J stable offset bytes write e s) (λ a e s. s)
    perform-Kept (accesses_bar1 offset bytes write) e s =
        Always-bind (IsSound J) (region_access_bar1 offset bytes write) _ e
          (region_access_bar1-Kept J stable offset bytes write e s) (λ a e s. s)
    perform-Kept (receives frame) e s = receive-Kept J stable frame e s
    perform-Kept elapses e s = timer_elapsed-Kept J stable e s
    perform-Kept resets e s = reset_e1000-Sound J stable e s

    -- Whatever calls the host makes, as long as none of them panics, the device has afterwards the
    -- receive state that belongs to its ring, and every relation of its mitigation with its
    -- surroundings holds that held before and that is stable: the calls for packets and memory, the
    -- clock, an interrupt raised or put off, the end of a mitigation and a reset keep it.
    pub perform_all-Kept : (calls : List Call) → Kept (IsSound J) (perform_all calls)
    unfolding perform_all
    perform_all-Kept [] e s = s
    perform_all-Kept (call ∷ calls) e s =
        Always-bind (IsSound J) (λ e. reported (perform call e)) (λ x. perform_all calls) e
          (Always-reported (IsSound J) (perform call e) (perform-Kept call e s))
          (λ a e s. perform_all-Kept calls e s)
