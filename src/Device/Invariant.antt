-- ===== src/Device/Invariant.antt =====
-- Invariants of the device over everything that the host may do: what is asked of the surroundings,
-- and the children that carry it through each part.
pub mod Inner
pub mod Sound
pub mod Timed
pub mod Parts
pub mod Access
use e1000_emu.Prelude.{ℕ, Bool, Option, none, List}
use e1000_emu.NicContext.{NicContext, Clock}
use e1000_emu.Device.State.{InterruptMitigation}
use e1000_emu.Device.Interrupts.Laws.{notified}

-- A predicate on the surroundings that the calls for packets and memory keep. Memory is read and
-- written only right after the address was prepared.
pub record IsServed {C : Type 0} (N : NicContext C) (Q : C → Type 0) : Type 0 where
  pub send : (bytes : List ℕ) (c : C) → Q c → Q (N.send bytes c).1
  pub prepare : (address length : ℕ) (c : C) → Q c → Q (N.dma_prepare address length c)
  pub prepared_read :
      (address prepared length offset : ℕ) (c : C)
      → Q c
      → Q (N.dma_read address length offset (N.dma_prepare address prepared c)).1
  pub prepared_write :
      (address prepared : ℕ) (bytes : List ℕ) (offset : ℕ) (c : C)
      → Q c
      → Q (N.dma_write address bytes offset (N.dma_prepare address prepared c))

-- A relation of the mitigation, whether it is enabled and what it is, with the surroundings, that
-- the calls of the device keep.
pub record IsStable {C : Type 0} (N : NicContext C) (T : Clock C)
    (J : Bool → Option InterruptMitigation → C → Type 0) : Type 0 where
  pub served : (b : Bool) (o : Option InterruptMitigation) → IsServed N (J b o)
  -- An interrupt is raised or put off.
  pub notifies :
      (b : Bool) (duration : Option ℕ) (o : Option InterruptMitigation) (c : C)
      → J b o c
      → (let (c', o') = notified ⦃N = N⦄ ⦃T = T⦄ b duration o c in J b o' c')
  pub now : (b : Bool) (o : Option InterruptMitigation) (c : C) → J b o c → J b o (T.now c).1
  -- The mitigation ends.
  pub ends : (b : Bool) (o : Option InterruptMitigation) (c : C) → J b o c → J b none c
  pub resets :
      (b : Bool) (o : Option InterruptMitigation) (c : C) → J b o c → J b none (N.delete_timer c)

-- A predicate on the surroundings alone that their calls keep. `Timed` says when timers may be set.
pub record IsClosed {C : Type 0} (N : NicContext C) (T : Clock C) (Timed : Type 0) (Q : C → Type 0)
    : Type 0 where
  pub served : IsServed N Q
  pub trigger_interrupt : (c : C) → Q c → Q (N.trigger_interrupt c)
  pub delete_timer : (c : C) → Q c → Q (N.delete_timer c)
  pub set_timer : (duration : ℕ) (c : C) → Timed → Q c → Q (N.set_timer duration c)
  pub now : (c : C) → Q c → Q (T.now c).1
