-- ===== src/Registers/File.antt =====
-- `struct Registers` of src/e1000/registers.rs, its methods, and the trait `Register`.
use e1000_emu.Prelude.{
  ℕ, ◌*◌, ◌%◌, ◌^◌, Bool, true, false, List, [], ◌∷◌, ◌++◌, length, take, drop, get_or, bit_or, ltb,
  if◌then◌else◌, from_le_bytes,
}
use mathlib.Core.List.{reverse}
use e1000_emu.Outcome.{M, pure, or_fail, panics, ◌>>=◌}
use e1000_emu.Packing.{Layout, Derive}
use e1000_emu.Registers.General.{
  Control, Status, EepromControlAndData, MdiControl, InterruptCauses, InterruptDelay,
  ReceiveControl, TransmitControl,
}
use e1000_emu.Registers.Rings.{
  DescriptorBaseAddressLow, DescriptorBaseAddressHigh, DescriptorLength, DescriptorHead,
  DescriptorTail, ReceiveAddressLow, ReceiveAddressHigh,
}

pub record Registers : Type 0 where
  pub ctrl : Control
  pub status : Status
  pub eecd : EepromControlAndData
  pub mdic : MdiControl
  pub interrupt_throttling : InterruptDelay
  pub interrupt_cause : InterruptCauses
  pub interrupt_mask : InterruptCauses
  pub interrupt_temp : InterruptCauses
  pub rctl : ReceiveControl
  pub tctl : TransmitControl
  pub rd_ba_l : DescriptorBaseAddressLow
  pub rd_ba_h : DescriptorBaseAddressHigh
  pub rd_len : DescriptorLength
  pub rd_h : DescriptorHead
  pub rd_t : DescriptorTail
  pub td_ba_l : DescriptorBaseAddressLow
  pub td_ba_h : DescriptorBaseAddressHigh
  pub td_len : DescriptorLength
  pub td_h : DescriptorHead
  pub td_t : DescriptorTail
  pub ral0 : ReceiveAddressLow
  pub rah0 : ReceiveAddressHigh

abbrev pub no_causes : InterruptCauses
no_causes = record {
  txdw = false;
  txqe = false;
  lsc = false;
  rxdmt0 = false;
  rxt0 = false;
  mdac = false;
}

-- `Default::default()`.
abbrev pub default_registers : Registers
default_registers = record {
  ctrl = record { slu = false; rst = false };
  status = record { lu = false };
  eecd = record { sk = false; cs = false; di = false; do_ = false; ee_req = false };
  mdic = record {
    value = 0;
    register_address = 0;
    opcode = 0;
    ready = false;
    interrupt_enable = false;
  };
  interrupt_throttling = record { interval = 0 };
  interrupt_cause = no_causes;
  interrupt_mask = no_causes;
  interrupt_temp = no_causes;
  rctl = record { en = false; bsize = 0; bsex = false; secrc = false };
  tctl = record { en = false };
  rd_ba_l = record { base_address_low = 0 };
  rd_ba_h = record { base_address_high = 0 };
  rd_len = record { length = 0 };
  rd_h = record { head = 0 };
  rd_t = record { tail = 0 };
  td_ba_l = record { base_address_low = 0 };
  td_ba_h = record { base_address_high = 0 };
  td_len = record { length = 0 };
  td_h = record { head = 0 };
  td_t = record { tail = 0 };
  ral0 = record { receive_address_low = 0 };
  rah0 = record { receive_address_high = 0 };
}

-- The MAC address is an array of six bytes.
unfoldable pub set_mac : List ℕ → Registers → Registers
set_mac mac r = record r {
  ral0 = record {
    receive_address_low =
        from_le_bytes (get_or mac 0 0 ∷ get_or mac 1 0 ∷ get_or mac 2 0 ∷ get_or mac 3 0 ∷ []);
  };
  rah0 = record { receive_address_high = from_le_bytes (get_or mac 4 0 ∷ get_or mac 5 0 ∷ []) };
}

-- `(low as u64) << 4 | (high as u64) << 32`.
unfoldable pub base_address : DescriptorBaseAddressLow → DescriptorBaseAddressHigh → ℕ
base_address l h =
    bit_or (l.base_address_low * 2 ^ 4 % 2 ^ 64) (h.base_address_high * 2 ^ 32 % 2 ^ 64)

unfoldable pub get_receive_descriptor_base_address : Registers → ℕ
get_receive_descriptor_base_address r = base_address r.rd_ba_l r.rd_ba_h

unfoldable pub get_transmit_descriptor_base_address : Registers → ℕ
get_transmit_descriptor_base_address r = base_address r.td_ba_l r.td_ba_h

-- The trait `Register`, for every struct that packs into four bytes. Reversing the packed bytes
-- makes them little endian.
module _ {A : Type 0} ⦃D : Derive⦄ where
  unfoldable pub register_read : {S : Type 0} → Layout A → A → M S (List ℕ)
  register_read L r = do reg ← or_fail ((D.derive L).pack r); pure (reverse reg)

  unfoldable pub register_write : {S : Type 0} → Layout A → List ℕ → M S A
  register_write L buffer = or_fail ((D.derive L).unpack (reverse buffer))

  -- The register and the buffer after the access. A buffer shorter than four bytes is a failed
  -- index.
  unfoldable pub access : {S : Type 0} → Layout A → A → List ℕ → Bool → M S (A × List ℕ)
  access L r bytes true =
      if ltb (length bytes) 4
      then panics
      else do r' ← register_write L (take 4 bytes); pure (r', bytes)
  access L r bytes false =
      if ltb (length bytes) 4
      then panics
      else do reg ← register_read L r; pure (r, reg ++ drop 4 bytes)
