-- ===== src/Registers/General.antt =====
-- The control, status, interrupt, EEPROM, MDI and receive/transmit control registers of
-- src/e1000/registers.rs. Each struct has its `packed_field` attributes as a layout. A
-- `ReservedOne` field holds no value: it is a one that the layout adds.
use e1000_emu.Prelude.{ℕ, ◌+◌, ◌*◌, ◌^◌, Bool, Option, none, some, ◌==◌, if◌then◌else◌}
use e1000_emu.Prelude.{digit, bit, bits}
use e1000_emu.Packing.{Layout}

pub record Control : Type 0 where
  pub slu : Bool
  pub rst : Bool

abbrev pub control : Layout Control
control = record {
  size = 4;
  encode = λ r. digit r.slu * 2 ^ 6 + digit r.rst * 2 ^ 26;
  decode = λ w. record { slu = bit 6 w; rst = bit 26 w };
}

-- FD, speed1 and speed2 are always on.
pub record Status : Type 0 where
  pub lu : Bool

abbrev pub status : Layout Status
status = record {
  size = 4;
  encode = λ r. 1 + digit r.lu * 2 ^ 1 + 2 ^ 6 + 2 ^ 7;
  decode = λ w. record { lu = bit 1 w };
}

-- EE_GNT and EE_PRES are always on.
pub record EepromControlAndData : Type 0 where
  pub sk : Bool
  pub cs : Bool
  pub di : Bool
  pub do_ : Bool
  pub ee_req : Bool

abbrev pub eeprom_control_and_data : Layout EepromControlAndData
eeprom_control_and_data = record {
  size = 4;
  encode = λ r.
      digit r.sk
      + digit r.cs * 2 ^ 1
      + digit r.di * 2 ^ 2
      + digit r.do_ * 2 ^ 3
      + digit r.ee_req * 2 ^ 6
      + 2 ^ 7
      + 2 ^ 8;
  decode =
      λ w. record { sk = bit 0 w; cs = bit 1 w; di = bit 2 w; do_ = bit 3 w; ee_req = bit 6 w };
}

pub record MdiControl : Type 0 where
  pub value : ℕ
  pub register_address : ℕ
  pub opcode : ℕ
  pub ready : Bool
  pub interrupt_enable : Bool

abbrev pub mdi_control : Layout MdiControl
mdi_control = record {
  size = 4;
  encode = λ r.
      r.value
      + r.register_address * 2 ^ 16
      + r.opcode * 2 ^ 26
      + digit r.ready * 2 ^ 28
      + digit r.interrupt_enable * 2 ^ 29;
  decode = λ w. record {
    value = bits 0 16 w;
    register_address = bits 16 5 w;
    opcode = bits 26 2 w;
    ready = bit 28 w;
    interrupt_enable = bit 29 w;
  };
}

pub record InterruptCauses : Type 0 where
  pub txdw : Bool
  pub txqe : Bool
  pub lsc : Bool
  pub rxdmt0 : Bool
  pub rxt0 : Bool
  pub mdac : Bool

abbrev pub interrupt_causes : Layout InterruptCauses
interrupt_causes = record {
  size = 4;
  encode = λ r.
      digit r.txdw
      + digit r.txqe * 2 ^ 1
      + digit r.lsc * 2 ^ 2
      + digit r.rxdmt0 * 2 ^ 4
      + digit r.rxt0 * 2 ^ 7
      + digit r.mdac * 2 ^ 9;
  decode = λ w. record {
    txdw = bit 0 w;
    txqe = bit 1 w;
    lsc = bit 2 w;
    rxdmt0 = bit 4 w;
    rxt0 = bit 7 w;
    mdac = bit 9 w;
  };
}

pub record InterruptDelay : Type 0 where
  pub interval : ℕ

abbrev pub interrupt_delay : Layout InterruptDelay
interrupt_delay = record {
  size = 4;
  encode = λ r. r.interval;
  decode = λ w. record { interval = bits 0 16 w };
}

-- A duration in nanoseconds.
unfoldable pub get_itr_interval : InterruptDelay → Option ℕ
get_itr_interval r = if r.interval == 0 then none else some (r.interval * 256)

pub record ReceiveControl : Type 0 where
  pub en : Bool
  pub bsize : ℕ
  pub bsex : Bool
  pub secrc : Bool

abbrev pub receive_control : Layout ReceiveControl
receive_control = record {
  size = 4;
  encode =
      λ r. digit r.en * 2 ^ 1 + r.bsize * 2 ^ 16 + digit r.bsex * 2 ^ 25 + digit r.secrc * 2 ^ 26;
  decode = λ w. record { en = bit 1 w; bsize = bits 16 2 w; bsex = bit 25 w; secrc = bit 26 w };
}

-- `none` is the `unreachable!` arm.
unfoldable pub buffer_size_of : ℕ → Option ℕ
buffer_size_of bsize =
    if bsize == 0
    then some 2048
    else if bsize == 1
    then some 1024
    else if bsize == 2
    then some 512
    else if bsize == 3
    then some 256
    else none

unfoldable pub get_buffer_size : ReceiveControl → Option ℕ
get_buffer_size r = elim (buffer_size_of r.bsize) [
  | none ↦ none
  | some size ↦ some (if r.bsex then size * 16 else size)
]

pub record TransmitControl : Type 0 where
  pub en : Bool

abbrev pub transmit_control : Layout TransmitControl
transmit_control = record {
  size = 4;
  encode = λ r. digit r.en * 2 ^ 1;
  decode = λ w. record { en = bit 1 w };
}
