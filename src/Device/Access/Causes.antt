-- ===== src/Device/Access/Causes.antt =====
-- The interrupt cause and mask registers (ICR, ICS, IMS, IMC) as the driver sees them.
use e1000_emu.Prelude.{
  ℕ, ◌≡◌, refl, ◌∙◌, Bool, true, false, some, List, [], ◌∷◌, IsBytes, from_be_bytes, to_le_bytes,
  if◌then◌else◌,
}
use e1000_emu.Outcome.{M, ok, pure, modify, ◌>>=◌, ◌>>◌}
use e1000_emu.Packing.{Derive}
use e1000_emu.NicContext.{NicContext, Clock, InternetChecksum}
use e1000_emu.Registers.General.{InterruptCauses, interrupt_causes}
use e1000_emu.Registers.File.{Registers, no_causes}
use e1000_emu.Device.State.{E1000}
use e1000_emu.Device.Interrupts.{interrupt}
use e1000_emu.Device.Interrupts.Words.{modify_causes_lem, modified, interrupt_causes-Fits}
use e1000_emu.Device.Interrupts.Laws.{interrupt_lem, interrupted}
use e1000_emu.Device.Access.Arms.{four, arm-action, arm-read}
use e1000_emu.Device.Access.{
  access_register, access_causes, access_mask, arm, on_write, with_regs, no_action,
  modify_interrupt_cause, modify_interrupt_mask,
}

-- The causes in a word of four bytes that the driver writes.
abbrev pub causes_of : ℕ → ℕ → ℕ → ℕ → InterruptCauses
causes_of b0 b1 b2 b3 = interrupt_causes.decode (from_be_bytes (b3 ∷ b2 ∷ b1 ∷ b0 ∷ []))

module _ {C : Type 0} ⦃D : Derive⦄ where
  arm-causes :
      (b0 b1 b2 b3 : ℕ) (get : Registers → InterruptCauses)
      (put : InterruptCauses → Registers → Registers) (action : M (E1000 C) (Unit {0}))
      (e : E1000 C)
      → IsBytes (four b0 b1 b2 b3)
      → arm interrupt_causes get put action (four b0 b1 b2 b3) true e
        ≡ (action >> pure (some (four b0 b1 b2 b3)))
            (record e { regs = put (causes_of b0 b1 b2 b3) e.regs })
  arm-causes b0 b1 b2 b3 get put = arm-action b0 b1 b2 b3 interrupt_causes refl get put

  arm-causes_read :
      (b0 b1 b2 b3 : ℕ) (get : Registers → InterruptCauses)
      (put : InterruptCauses → Registers → Registers) (action : M (E1000 C) (Unit {0}))
      (e : E1000 C)
      → arm interrupt_causes get put action (four b0 b1 b2 b3) false e
        ≡ (action >> pure (some (to_le_bytes 4 (interrupt_causes.encode (get e.regs)))))
            (record e { regs = put (get e.regs) e.regs })
  arm-causes_read b0 b1 b2 b3 get put action e =
      arm-read b0 b1 b2 b3 interrupt_causes refl get put action e
        (interrupt_causes-Fits (get e.regs))

abbrev put_cause : InterruptCauses → Registers → Registers
put_cause r g = record g { interrupt_cause = r }

abbrev put_temp : InterruptCauses → Registers → Registers
put_temp r g = record g { interrupt_temp = r }

module _ {C : Type 0} ⦃D : Derive⦄ ⦃N : NicContext C⦄ ⦃T : Clock C⦄ ⦃K : InternetChecksum⦄ where
  -- The device with the written causes noted.
  abbrev pub with_temp : InterruptCauses → E1000 C → E1000 C
  with_temp r e = record e { regs = record (e.regs) { interrupt_temp = r } }

  mask-modified :
      (r : InterruptCauses) (bytes : List ℕ) (clear : Bool) (e : E1000 C)
      → (modify_interrupt_mask clear >> pure (some bytes)) (with_temp r e)
        ≡ ok (some bytes) (record e {
          regs = record (e.regs) {
            interrupt_temp = r;
            interrupt_mask = modified e.regs.interrupt_mask r clear;
          };
        })
  unfolding modify_interrupt_mask
  mask-modified r bytes clear e =
      rw (modify_causes_lem e.regs.interrupt_mask r clear (with_temp r e), ◌>>=◌) refl

  -- A write of four bytes to IMS adds the written causes to those that may interrupt, one to IMC
  -- removes them; both leave all else but the noted word as it was, and raise nothing.
  pub write_mask_lem :
      (b0 b1 b2 b3 : ℕ) (clear : Bool) (e : E1000 C)
      → IsBytes (four b0 b1 b2 b3)
      → let r = causes_of b0 b1 b2 b3 in
        access_register (if clear then 0xD8 else 0xD0) (four b0 b1 b2 b3) true e
        ≡ ok (some (four b0 b1 b2 b3)) (record e {
          regs = record (e.regs) {
            interrupt_temp = r;
            interrupt_mask = modified e.regs.interrupt_mask r clear;
          };
        })
  unfolding access_register access_mask
  write_mask_lem b0 b1 b2 b3 true e h =
      arm-causes b0 b1 b2 b3 (λ g. g.interrupt_temp) put_temp (modify_interrupt_mask true) e h
      ∙ mask-modified (causes_of b0 b1 b2 b3) (four b0 b1 b2 b3) true e
  write_mask_lem b0 b1 b2 b3 false e h =
      arm-causes b0 b1 b2 b3 (λ g. g.interrupt_temp) put_temp (modify_interrupt_mask false) e h
      ∙ mask-modified (causes_of b0 b1 b2 b3) (four b0 b1 b2 b3) false e

  -- The device with causes changed as a write says, before it interrupts.
  abbrev pub with_written : InterruptCauses → Bool → E1000 C → E1000 C
  with_written r clear e = record e {
    regs = record (e.regs) {
      interrupt_temp = r;
      interrupt_cause = modified e.regs.interrupt_cause r clear;
    };
  }

  cause-modified :
      (r : InterruptCauses) (bytes : List ℕ) (clear : Bool) (e : E1000 C)
      → ((modify_interrupt_cause clear >> on_write true interrupt) >> pure (some bytes))
          (with_temp r e)
        ≡ ok (some bytes) (interrupted (with_written r clear e))
  unfolding modify_interrupt_cause
  cause-modified r bytes clear e =
      rw (modify_causes_lem e.regs.interrupt_cause r clear (with_temp r e), ◌>>=◌)
        (rw (interrupt_lem (with_written r clear e), ◌>>=◌) refl)

  -- A write of four bytes to ICS sets the written causes, one to ICR clears them; then an
  -- interrupt is raised, put off or left out by what is pending then.
  pub write_cause_lem :
      (b0 b1 b2 b3 : ℕ) (clear : Bool) (e : E1000 C)
      → IsBytes (four b0 b1 b2 b3)
      → access_register (if clear then 0xC0 else 0xC8) (four b0 b1 b2 b3) true e
        ≡ ok (some (four b0 b1 b2 b3)) (interrupted (with_written (causes_of b0 b1 b2 b3) clear e))
  unfolding access_register access_causes
  write_cause_lem b0 b1 b2 b3 true e h =
      arm-causes b0 b1 b2 b3 (λ g. g.interrupt_temp) put_temp
        (modify_interrupt_cause true >> on_write true interrupt) e h
      ∙ cause-modified (causes_of b0 b1 b2 b3) (four b0 b1 b2 b3) true e
  write_cause_lem b0 b1 b2 b3 false e h =
      arm-causes b0 b1 b2 b3 (λ g. g.interrupt_temp) put_temp
        (modify_interrupt_cause false >> on_write true interrupt) e h
      ∙ cause-modified (causes_of b0 b1 b2 b3) (four b0 b1 b2 b3) false e

  -- Reading ICR into a buffer of four bytes gives the causes, packed with the lowest byte first,
  -- and clears them; reading ICS gives the same and clears nothing.
  pub read_cause_lem :
      (b0 b1 b2 b3 : ℕ) (clear : Bool) (e : E1000 C)
      → access_register (if clear then 0xC0 else 0xC8) (four b0 b1 b2 b3) false e
        ≡ ok (some (to_le_bytes 4 (interrupt_causes.encode e.regs.interrupt_cause))) (record e {
          regs = record (e.regs) {
            interrupt_cause = if clear then no_causes else e.regs.interrupt_cause;
          };
        })
  unfolding access_register access_causes
  read_cause_lem b0 b1 b2 b3 true e =
      arm-causes_read b0 b1 b2 b3 (λ g. g.interrupt_cause) put_cause
        (modify (with_regs λ g. record g { interrupt_cause = no_causes })) e
  read_cause_lem b0 b1 b2 b3 false e =
      arm-causes_read b0 b1 b2 b3 (λ g. g.interrupt_cause) put_cause no_action e
