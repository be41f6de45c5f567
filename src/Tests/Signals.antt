-- ===== src/Tests/Signals.antt =====
-- The theorems on interrupts and their registers at concrete inputs.
use e1000_emu.Prelude.{
  ℕ, ◌+◌, ◌≤◌, ◌≡◌, ◌⊎◌, refl, true, false, some, arith, if◌then◌else◌, IsBytes, to_le_bytes,
}
use e1000_emu.Outcome.{ok}
use e1000_emu.Packing.Reference.{reference}
use e1000_emu.NicContext.{NicContext, Clock}
use e1000_emu.NicContext.Machine.{Machine, machine, machine_clock, no_checksum}
use e1000_emu.Registers.General.{interrupt_causes}
use e1000_emu.Registers.File.{no_causes}
use e1000_emu.Device.State.{E1000, InterruptMitigation, new}
use e1000_emu.Device.Interrupts.{interrupt, timer_elapsed, modify_causes}
use e1000_emu.Device.Interrupts.Words.{modified, modify_causes_lem}
use e1000_emu.Device.Interrupts.Laws.{pending, interrupted}
use e1000_emu.Device.Interrupts.Delivery.{
  interrupt-not_lost, timer_elapsed-raises, interrupts_mitigated, interrupt_unmitigated, deferred,
  interrupts, IsBefore, InterruptCount,
}
use e1000_emu.Device.Access.{access_register}
use e1000_emu.Device.Access.Arms.{four}
use e1000_emu.Device.Access.Causes.{
  causes_of, with_written, write_mask_lem, write_cause_lem, read_cause_lem,
}
use e1000_emu.Tests.Data.{signalling, mitigated, mitigation, woken, interrupt_count, link_changed}

abbrev raised_by : E1000 Machine → ℕ
raised_by e = e.nic_ctx.interrupts

interrupt-not_lost_example :
    (e' : E1000 Machine) × (interrupt mitigated ≡ ok tt e')
    × ((raised_by e' ≡ raised_by mitigated + 1)
        ⊎ ((raised_by e' ≡ raised_by mitigated) × (deferred e'.interrupt_mitigation ≡ true)))
interrupt-not_lost_example = interrupt-not_lost interrupt_count mitigated refl

timer_elapsed-raises_example :
    (e' : E1000 Machine) × (timer_elapsed woken ≡ ok tt e') × (raised_by e' ≡ raised_by woken + 1)
timer_elapsed-raises_example =
    timer_elapsed-raises interrupt_count woken mitigation refl refl (omega arith) refl

-- A clock that each reading and each setting of the timer takes a unit of time.
abbrev ticking : Clock Machine
ticking = record { now = λ c. (c.time, record c { time = c.time + 1 }) }

abbrev slow_timer : NicContext Machine
slow_timer = record machine {
  set_timer = λ d c. record c { timer = some (c.time + d); time = c.time + 1 };
}

ticking_count : InterruptCount Machine slow_timer ticking
ticking_count = record {
  count = λ c. c.interrupts;
  count-trigger = λ c. refl;
  count-set_timer = λ d c. refl;
  count-delete_timer = λ c. refl;
  count-now = λ c. refl;
}

before_end : IsBefore slow_timer ticking mitigation.expiration (λ k c. c.time + k ≤ 100)
before_end = record {
  reads = λ k c h. omega (arith, h);
  after_now = λ k c h. omega (arith, h);
  after_set_timer = λ k d c h. omega (arith, h);
  weaken = λ k c h. omega (arith, h);
}

-- The first call sets the timer and the other two find it set.
abbrev not_yet : E1000 Machine
not_yet = record signalling {
  interrupt_mitigation = some (record mitigation { interrupt_after = false });
}

interrupts_mitigated_example :
    (e' : E1000 Machine) × (interrupts ⦃N = slow_timer⦄ ⦃T = ticking⦄ 3 not_yet ≡ ok tt e')
    × (ticking_count.count e'.nic_ctx ≡ ticking_count.count not_yet.nic_ctx)
    × ((m' : InterruptMitigation) × (e'.interrupt_mitigation ≡ some m')
        × (m'.expiration ≡ mitigation.expiration))
unfolding new
interrupts_mitigated_example =
    interrupts_mitigated ⦃N = slow_timer⦄ ⦃T = ticking⦄ ticking_count 3 not_yet
      (record mitigation { interrupt_after = false }) (λ k c. c.time + k ≤ 100) refl before_end
      (omega arith)

abbrev unmitigated : E1000 Machine
unmitigated = record signalling { enable_interrupt_mitigation = false }

interrupt_unmitigated_example :
    interrupt unmitigated
    ≡ ok tt (
        if pending unmitigated
        then record unmitigated { nic_ctx = machine.trigger_interrupt unmitigated.nic_ctx }
        else unmitigated)
unfolding new
interrupt_unmitigated_example = interrupt_unmitigated unmitigated refl refl

modify_causes_lem_example :
    modify_causes link_changed (record no_causes { txdw = true }) false signalling
    ≡ ok (modified link_changed (record no_causes { txdw = true }) false) signalling
modify_causes_lem_example =
    modify_causes_lem link_changed (record no_causes { txdw = true }) false signalling

four-IsBytes : IsBytes (four 4 0 0 0)
four-IsBytes = (omega arith, (omega arith, (omega arith, (omega arith, tt))))

write_mask_lem_example :
    access_register (if true then 0xD8 else 0xD0) (four 4 0 0 0) true signalling
    ≡ ok (some (four 4 0 0 0)) (record signalling {
      regs = record (signalling.regs) {
        interrupt_temp = causes_of 4 0 0 0;
        interrupt_mask = modified signalling.regs.interrupt_mask (causes_of 4 0 0 0) true;
      };
    })
write_mask_lem_example = write_mask_lem 4 0 0 0 true signalling four-IsBytes

write_cause_lem_example :
    access_register (if false then 0xC0 else 0xC8) (four 4 0 0 0) true signalling
    ≡ ok (some (four 4 0 0 0)) (interrupted (with_written (causes_of 4 0 0 0) false signalling))
write_cause_lem_example = write_cause_lem 4 0 0 0 false signalling four-IsBytes

read_cause_lem_example :
    access_register (if true then 0xC0 else 0xC8) (four 0 0 0 0) false signalling
    ≡ ok
        (some (to_le_bytes 4 (interrupt_causes.encode signalling.regs.interrupt_cause)))
        (record signalling {
          regs = record (signalling.regs) {
            interrupt_cause = if true then no_causes else signalling.regs.interrupt_cause;
          };
        })
read_cause_lem_example = read_cause_lem 0 0 0 0 true signalling
