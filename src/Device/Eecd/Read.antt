-- ===== src/Device/Eecd/Read.antt =====
-- A read of the EEPROM of src/e1000/eeprom.rs through the register EECD, step by step.
use e1000_emu.Prelude.{
  ℕ, zero, suc, ◌<◌, ◌≡◌, ◌≢◌, refl, ap, ◌∙◌, Bool, true, false, List, [], ◌∷◌, length,
}
use e1000_emu.Outcome.{Outcome, M, ok, err, panic, out_of_fuel, pure, bind-ok, ◌>>=◌}
use e1000_emu.Packing.{Derive}
use e1000_emu.NicContext.{NicContext, Clock, InternetChecksum}
use e1000_emu.Registers.General.{EepromControlAndData}
use e1000_emu.Eeprom.{EepromInterface}
use e1000_emu.Eeprom.Microwire.{
  wires, deselected, process_output, pulse, send_bits, receive_bits, read_bits, address_bits_of,
  stream, after_read, read_bits_lem,
}
use e1000_emu.Device.State.{E1000}
use e1000_emu.Device.Eecd.{
  wires_of, held, eecd_output, with_eeprom, write_lem, read_lem, read_output,
}

module _ {C : Type 0} ⦃D : Derive⦄ ⦃K : InternetChecksum⦄ ⦃N : NicContext C⦄ ⦃T : Clock C⦄ where
  -- What the chip alone does, the device does with it.
  abbrev Carries : {A : Type 0} → M EepromInterface A → M (E1000 C) A → Type 0
  Carries {A} m m' =
      (e : E1000 C) (a : A) (r : EepromInterface)
      → m e.eeprom ≡ ok a r
      → (k : EepromControlAndData) × (m' e ≡ ok a (with_eeprom r k e))

  output-Carries :
      (c s d : Bool) → Carries (process_output (wires_of c s d)) (eecd_output (wires_of c s d))
  output-Carries c s d e o r h = (
    held c s d o,
    rw (write_lem c s d e o r h, ◌>>=◌)
        (rw (read_lem (with_eeprom r (held c s d o) e), ◌>>=◌)
          (rw (read_output (held c s d o)) refl)),
  )

  pure-Carries : {A : Type 0} (a : A) → Carries (pure a) (pure a)
  pure-Carries {A} a e b r h = (e.regs.eecd, ap noted h)
    where
      noted : Outcome EepromInterface A → Outcome (E1000 C) A
      noted p = elim p [
        | ok a r ↦ ok a (with_eeprom r e.regs.eecd e)
        | err r ↦ panic
        | panic ↦ panic
        | out_of_fuel ↦ out_of_fuel
      ]

  bind-Carries :
      {A B : Type 0} (m : M EepromInterface A) (m' : M (E1000 C) A) (f : A → M EepromInterface B)
      (f' : A → M (E1000 C) B)
      → Carries m m'
      → ((a : A) → Carries (f a) (f' a))
      → Carries (m >>= f) (m' >>= f')
  bind-Carries {A} {B} m m' f f' first after e b r h = go (m e.eeprom) refl h
    where
      go :
          (p : Outcome EepromInterface A)
          → m e.eeprom ≡ p
          → (elim p as (λ x. Outcome EepromInterface B) [
            | ok a s' ↦ f a s'
            | err s' ↦ err s'
            | panic ↦ panic
            | out_of_fuel ↦ out_of_fuel
          ])
            ≡ ok b r
          → (k : EepromControlAndData) × ((m' >>= f') e ≡ ok b (with_eeprom r k e))
      go (ok a s) p h =
          let (k, q) = first e a s p in
          let (l, t) = after a (with_eeprom s k e) b r h in (l, bind-ok m' f' q ∙ t)
      go (err s) p h = absurd (err≢ok h)
        where
          err≢ok : err s ≢ ok b r
          err≢ok = cc
      go panic p h = absurd (panic≢ok h)
        where
          panic≢ok : panic ≢ ok b r
          panic≢ok = cc
      go out_of_fuel p h = absurd (out_of_fuel≢ok h)
        where
          out_of_fuel≢ok : out_of_fuel ≢ ok b r
          out_of_fuel≢ok = cc

  pulse-Carries : (d : Bool) → Carries (pulse process_output d) (pulse eecd_output d)
  pulse-Carries d =
      bind-Carries (process_output (wires true d)) _ _ _ (output-Carries true true d) λ high.
        bind-Carries (process_output (wires false d)) _ _ _ (output-Carries false true d)
          (λ low. pure-Carries high)

  send_bits-Carries :
      (ds : List Bool) → Carries (send_bits process_output ds) (send_bits eecd_output ds)
  send_bits-Carries [] = pure-Carries tt
  send_bits-Carries (d ∷ ds) =
      bind-Carries (pulse process_output d) _ _ _ (pulse-Carries d) (λ a. send_bits-Carries ds)

  receive_bits-Carries :
      (n : ℕ) → Carries (receive_bits process_output n) (receive_bits eecd_output n)
  receive_bits-Carries zero = pure-Carries []
  receive_bits-Carries (suc n) =
      bind-Carries (pulse process_output false) _ _ _ (pulse-Carries false) λ d.
        bind-Carries (receive_bits process_output n) _ _ _ (receive_bits-Carries n)
          (λ ds. pure-Carries (d ∷ ds))

  read_bits-Carries : (a n : ℕ) → Carries (read_bits process_output a n) (read_bits eecd_output a n)
  read_bits-Carries a n =
      bind-Carries (process_output deselected) _ _ _ (output-Carries false false false) λ x.
        bind-Carries (process_output (wires false false)) _ _ _ (output-Carries false true false)
          λ x.
            bind-Carries (send_bits process_output (true ∷ true ∷ false ∷ [])) _ _ _
              (send_bits-Carries (true ∷ true ∷ false ∷ []))
              λ x.
                bind-Carries (send_bits process_output (address_bits_of a)) _ _ _
                  (send_bits-Carries (address_bits_of a)) (λ x. receive_bits-Carries n)

  -- A driver that reads the EEPROM through the register EECD, with writes of SK, CS and DI and reads
  -- of DO in region 0, gets what is stored: if the clock was left low and the EEPROM holds 64
  -- words, reading `n` bits from the word `a` below 64 on neither fails nor panics and gives the
  -- bits in order, the most significant of a word first and round the end of the data, and of the
  -- device nothing has changed but EECD and the progress of the protocol.
  pub read_bits-eecd :
      (e : E1000 C) (a n : ℕ)
      → length e.eeprom.words ≡ 64
      → e.eeprom.previous_clock ≡ false
      → a < 64
      → (k : EepromControlAndData) × (read_bits eecd_output a n e
          ≡ ok (stream e.eeprom.words a 0 n) (with_eeprom (after_read a n e.eeprom) k e))
  read_bits-eecd e a n words low lt =
      read_bits-Carries a n e (stream e.eeprom.words a 0 n) (after_read a n e.eeprom)
        (read_bits_lem e.eeprom a n words low lt)
