-- ===== src/Device/Eecd.antt =====
-- The EEPROM as a driver reaches it: through the register EECD in region 0, whose writes set the
-- wires (`eecd_write` of src/e1000/eeprom.rs).
pub mod Read
use e1000_emu.Prelude.{
  ℕ, zero, suc, ◌+◌, ◌*◌, ◌<◌, ◌≡◌, ◌≢◌, refl, ap, ◌∙◌, Bool, true, false, some, List, [], ◌∷◌,
  length, arith, bit, digit, digit_laws, bit-eq-of_digit, IsBytes, from_le_bytes, to_le_bytes,
  from_le_bytes-to_le_bytes,
}
use e1000_emu.Outcome.{
  Outcome, M, ok, err, panic, out_of_fuel, pure, modify, zoom, unwrap, bind-ok, ◌>>=◌, ◌>>◌,
}
use e1000_emu.Packing.{Derive, Fits}
use e1000_emu.NicContext.{NicContext, Clock, InternetChecksum}
use e1000_emu.Registers.General.{EepromControlAndData, eeprom_control_and_data}
use e1000_emu.Eeprom.{EepromInterface, EepromWires, process_wires}
use e1000_emu.Eeprom.Microwire.{
  wires, deselected, process_output, pulse, send_bits, receive_bits, read_bits, address_bits_of,
  stream, after_read, read_bits_lem,
}
use e1000_emu.Device.State.{E1000}
use e1000_emu.Device.Management.{eecd_write}
use e1000_emu.Device.Access.{access_register, no_action}
use e1000_emu.Device.Access.Arms.{four, arm-action, arm-read}
use e1000_emu.Device.Access.Plain.{through_bar0}
use e1000_emu.Device.Regions.{region_access_bar0}

abbrev pub wires_of : Bool → Bool → Bool → EepromWires
wires_of c s d = record { clock_input = c; chip_select = s; data_input = d; data_output = false }

-- SK, CS and DI.
abbrev word_of : EepromWires → ℕ
word_of w = digit w.clock_input + digit w.chip_select * 2 + digit w.data_input * 4

abbrev pub held : Bool → Bool → Bool → Bool → EepromControlAndData
held c s d o = record { sk = c; cs = s; di = d; do_ = o; ee_req = false }

decode-word_of :
    (c s d : Bool)
    → eeprom_control_and_data.decode (from_le_bytes (four (word_of (wires_of c s d)) 0 0 0))
      ≡ held c s d false
decode-word_of true true true = refl
decode-word_of true true false = refl
decode-word_of true false true = refl
decode-word_of true false false = refl
decode-word_of false true true = refl
decode-word_of false true false = refl
decode-word_of false false true = refl
decode-word_of false false false = refl

word_of-IsBytes : (c s d : Bool) → IsBytes (four (word_of (wires_of c s d)) 0 0 0)
word_of-IsBytes c s d = (omega digit_laws, (omega arith, (omega arith, (omega arith, tt))))

eecd-Fits : (r : EepromControlAndData) → Fits eeprom_control_and_data r
eecd-Fits r = record {
  in_size = omega digit_laws;
  kept = λ i. record {
    sk = bit-eq-of_digit 0 e r.sk (omega digit_laws) i;
    cs = bit-eq-of_digit 1 e r.cs (omega digit_laws) i;
    di = bit-eq-of_digit 2 e r.di (omega digit_laws) i;
    do_ = bit-eq-of_digit 3 e r.do_ (omega digit_laws) i;
    ee_req = bit-eq-of_digit 6 e r.ee_req (omega digit_laws) i;
  };
}
  where
    e : ℕ
    e = eeprom_control_and_data.encode r

-- DO in the bytes that are read.
pub read_output :
    (r : EepromControlAndData)
    → bit 3 (from_le_bytes (to_le_bytes 4 (eeprom_control_and_data.encode r))) ≡ r.do_
read_output r =
    let n = eeprom_control_and_data.encode r in
    ap (bit 3) (from_le_bytes-to_le_bytes 4 n (eecd-Fits r).in_size)
    ∙ bit-eq-of_digit 3 n r.do_ (omega digit_laws)

module _ {C : Type 0} ⦃D : Derive⦄ ⦃K : InternetChecksum⦄ ⦃N : NicContext C⦄ ⦃T : Clock C⦄ where
  -- The driver writes SK, CS and DI to EECD, and reads DO from it.
  abbrev pub eecd_output : EepromWires → M (E1000 C) Bool
  eecd_output w = do
    region_access_bar0 0x10 (four (word_of w) 0 0 0) true
    (n, bytes) ← region_access_bar0 0x10 (four 0 0 0 0) false
    pure (bit 3 (from_le_bytes bytes))

  -- The device with another EEPROM and another EECD.
  abbrev pub with_eeprom : EepromInterface → EepromControlAndData → E1000 C → E1000 C
  with_eeprom r k e = record e { eeprom = r; regs = record (e.regs) { eecd = k } }

  eecd_write_lem :
      (c s d : Bool) (e : E1000 C) (o : Bool) (r : EepromInterface)
      → process_output (wires_of c s d) e.eeprom ≡ ok o r
      → eecd_write (with_eeprom e.eeprom (held c s d false) e)
        ≡ ok tt (with_eeprom r (held c s d o) e)
  unfolding eecd_write
  eecd_write_lem c s d e o r h = go (process_wires (wires_of c s d) e.eeprom) h
    where
      noted : Outcome EepromInterface Bool → Outcome (E1000 C) (Unit {0})
      noted p = elim p [
        | ok o r ↦ ok tt (with_eeprom r (held c s d o) e)
        | err r ↦ panic
        | panic ↦ panic
        | out_of_fuel ↦ out_of_fuel
      ]

      go :
          (p : Outcome EepromInterface EepromWires)
          → ((λ e. p) >>= λ w. pure w.data_output) e.eeprom ≡ ok o r
          → (zoom (λ e. e.eeprom) (λ p e. record e { eeprom = p }) (unwrap (λ e. p)) >>= λ w.
                modify λ e. record e {
                  regs = record (e.regs) { eecd = record (e.regs.eecd) { do_ = w.data_output } };
                })
              (with_eeprom e.eeprom (held c s d false) e)
            ≡ ok tt (with_eeprom r (held c s d o) e)
      go (ok w r') h = ap noted h
      go (err r') h = ap noted h
      go panic h = ap noted h
      go out_of_fuel h = ap noted h

  -- A write of the wires through region 0.
  pub write_lem :
      (c s d : Bool) (e : E1000 C) (o : Bool) (r : EepromInterface)
      → process_output (wires_of c s d) e.eeprom ≡ ok o r
      → let bytes = four (word_of (wires_of c s d)) 0 0 0 in
        region_access_bar0 0x10 bytes true e ≡ ok (4, bytes) (with_eeprom r (held c s d o) e)
  unfolding access_register
  write_lem c s d e o r h =
      let b = word_of (wires_of c s d) in
      through_bar0 0x10 b 0 0 0 true _ e _ refl refl (
        arm-action b 0 0 0 eeprom_control_and_data refl (λ g. g.eecd) (λ r g. record g { eecd = r })
          eecd_write e (word_of-IsBytes c s d)
        ∙ ap (λ k. (eecd_write >> pure (some (four b 0 0 0))) (with_eeprom e.eeprom k e))
            (decode-word_of c s d)
        ∙ bind-ok eecd_write (λ a. pure (some (four b 0 0 0))) (eecd_write_lem c s d e o r h))

  pub read_lem :
      (e : E1000 C)
      → region_access_bar0 0x10 (four 0 0 0 0) false e
        ≡ ok (4, to_le_bytes 4 (eeprom_control_and_data.encode e.regs.eecd)) e
  unfolding access_register
  read_lem e = through_bar0 0x10 0 0 0 0 false _ e e refl refl (
      arm-read 0 0 0 0 eeprom_control_and_data refl (λ g. g.eecd) (λ r g. record g { eecd = r })
        no_action e (eecd-Fits e.regs.eecd))
