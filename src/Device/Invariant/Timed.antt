-- ===== src/Device/Invariant/Timed.antt =====
-- Predicates on the surroundings alone under the invariant, with timers that may not always be set.
use e1000_emu.Prelude.{
  ℕ, ◌-◌, ◌≡◌, ◌≢◌, refl, ◌⊎◌, inl, inr, Bool, true, false, Option, none, some, ltb, if◌then◌else◌,
  Bool-cases,
}
use e1000_emu.NicContext.{NicContext, Clock}
use e1000_emu.Device.State.{InterruptMitigation}
use e1000_emu.Device.Interrupts.Laws.{raised, put_off, notified}
use e1000_emu.Device.Invariant.{IsClosed, IsStable}

-- Timers may be set, or mitigation is disabled and none is active.
abbrev pub MayTime : Type 0 → Bool → Option InterruptMitigation → Type 0
MayTime Timed enabled mitigation = Timed ⊎ ((enabled ≡ false) × (mitigation ≡ none))

-- Such a predicate beside the mitigation.
abbrev pub TimedBy :
    {C : Type 0} → Type 0 → (C → Type 0) → Bool → Option InterruptMitigation → C → Type 0
TimedBy Timed Q enabled mitigation c = Q c × MayTime Timed enabled mitigation

none≢some : {A : Type 0} (a : A) (o : Option A) → o ≡ some a → o ≢ none
none≢some a o h = cc

module _ {C : Type 0} ⦃N : NicContext C⦄ ⦃T : Clock C⦄ {Timed : Type 0} (Q : C → Type 0)
    (closed : IsClosed N T Timed Q) where
  raised-Sound :
      (enabled : Bool) (d : Option ℕ) (o : Option InterruptMitigation) (c : C)
      → Q c
      → MayTime Timed enabled o
      → Q (raised enabled d c).0 × MayTime Timed enabled (raised enabled d c).1
  unfolding raised
  raised-Sound false d o c q (inl t) = (closed.trigger_interrupt c q, inl t)
  raised-Sound false d o c q (inr u) = (closed.trigger_interrupt c q, inr (refl, refl))
  raised-Sound true none o c q (inl t) = (closed.trigger_interrupt c q, inl t)
  raised-Sound true none o c q (inr u) = (closed.trigger_interrupt c q, inr (u.0, refl))
  raised-Sound true (some k) o c q (inl t) = (closed.now _ (closed.trigger_interrupt c q), inl t)
  raised-Sound true (some k) o c q (inr u) = absurd (true≢false u.0)
    where
      true≢false : true ≢ false
      true≢false = cc

  put_off-Sound :
      (m : InterruptMitigation) (time : ℕ) (c : C) → Timed → Q c → Q (put_off m time c).0
  unfolding put_off
  put_off-Sound m time c t q = elim (Bool-cases m.interrupt_after) [
    | inl p ↦ simp p q
    | inr p ↦ simp p (closed.set_timer (m.expiration - time) c t q)
  ]

  deleted-Sound : (b : Bool) (c : C) → Q c → Q (if b then N.delete_timer c else c)
  deleted-Sound true c q = closed.delete_timer c q
  deleted-Sound false c q = q

  notified-Sound :
      (enabled : Bool) (d : Option ℕ) (o : Option InterruptMitigation) (c : C)
      → Q c
      → MayTime Timed enabled o
      → Q (notified enabled d o c).0 × MayTime Timed enabled (notified enabled d o c).1
  unfolding notified
  notified-Sound enabled d none c q m = raised-Sound enabled d none c q m
  notified-Sound enabled d (some k) c q (inr u) = absurd (none≢some k (some k) refl u.1)
  notified-Sound enabled d (some k) c q (inl t) =
      let time = (T.now c).0 in
      let c' = (T.now c).1 in
      elim (Bool-cases (ltb time k.expiration)) [
        | inl p ↦ simp p (put_off-Sound k time c' t (closed.now c q), inl t)
        | inr p ↦ simp p (
            raised-Sound enabled d none (if k.interrupt_after then N.delete_timer c' else c')
              (deleted-Sound k.interrupt_after c' (closed.now c q)) (inl t))
      ]

  ended-TimedBy :
      (b : Bool) (o : Option InterruptMitigation) (c : C)
      → TimedBy Timed Q b o c
      → TimedBy Timed Q b none c
  ended-TimedBy b o c (q, inl t) = (q, inl t)
  ended-TimedBy b o c (q, inr u) = (q, inr (u.0, refl))

  pub TimedBy-IsStable : IsStable N T (TimedBy Timed Q)
  TimedBy-IsStable = record {
    served = λ b o. record {
      send = λ bytes c h. (closed.served.send bytes c h.0, h.1);
      prepare = λ address length c h. (closed.served.prepare address length c h.0, h.1);
      prepared_read = λ address prepared length offset c h.
          (closed.served.prepared_read address prepared length offset c h.0, h.1);
      prepared_write = λ address prepared bytes offset c h.
          (closed.served.prepared_write address prepared bytes offset c h.0, h.1);
    };
    notifies = λ b d o c h. notified-Sound b d o c h.0 h.1;
    now = λ b o c h. (closed.now c h.0, h.1);
    ends = ended-TimedBy;
    resets = λ b o c h. ended-TimedBy b o (N.delete_timer c) (closed.delete_timer c h.0, h.1);
  }
