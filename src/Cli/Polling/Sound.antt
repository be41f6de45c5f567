-- ===== src/Cli/Polling/Sound.antt =====
-- The invariant of the device in the emulator, and the reads of its context under it.
use e1000_emu.Prelude.{some, ◌≡◌, refl}
use e1000_emu.Outcome.{ok, err, M, ◌>>=◌}
use e1000_emu.Outcome.Always.{Kept, Always}
use e1000_emu.Device.State.{E1000}
use e1000_emu.Device.Invariant.Sound.{IsSound}
use e1000_emu.Cli.{Libraries}
use e1000_emu.Cli.Context.{Interface, LibvfioUserContext, Host, running, panicked}
use e1000_emu.Cli.Context.Planned.{Plan, Planned}
use e1000_emu.Cli.Polling.{set_context, set_interface, context}

module _ {W Mapping Iface : Type 0} (libraries : Libraries W Mapping Iface) (R : W → Type 0) where
  abbrev pub Sound : E1000 (Host W Mapping Iface) → Type 0
  Sound = IsSound (Planned libraries R)

  -- What holds of the timer and the world.
  abbrev pub Planning : E1000 (Host W Mapping Iface) → LibvfioUserContext W Mapping Iface → Type 0
  Planning e c = Plan libraries R e.interrupt_mitigation c.timer c.world

  -- A step that goes on with the context.
  pub with_context :
      {A : Type 0} (f : LibvfioUserContext W Mapping Iface → M (E1000 (Host W Mapping Iface)) A)
      (e : E1000 (Host W Mapping Iface))
      → Sound e
      → ((c : LibvfioUserContext W Mapping Iface)
          → e.nic_ctx ≡ running c
          → Planning e c
          → Always Sound (f c e))
      → Always Sound ((context >>= f) e)
  with_context {A} f e s k = go e.nic_ctx refl s.1
    where
      go :
          (h : Host W Mapping Iface)
          → e.nic_ctx ≡ h
          → Planned libraries R e.enable_interrupt_mitigation e.interrupt_mitigation h
          → Always Sound (((λ e. elim h [ running c ↦ ok c e | panicked p ↦ err e ]) >>= f) e)
      go (running c) h r = k c h r
      go (panicked p) h r = s

  pub set_interface-Kept : (i : Interface Iface) → Kept Sound (set_interface i)
  unfolding set_interface
  set_interface-Kept i e s =
      with_context (λ c. set_context (record c { interface = some i })) e s (λ c h r. (s.0, r))
