-- ===== src/Registers/Rings.antt =====
-- The descriptor ring and receive address registers of src/e1000/registers.rs.
use e1000_emu.Prelude.{ℕ, ◌*◌, ◌^◌, bits}
use e1000_emu.Packing.{Layout}

pub record DescriptorBaseAddressLow : Type 0 where
  pub base_address_low : ℕ

abbrev pub descriptor_base_address_low : Layout DescriptorBaseAddressLow
descriptor_base_address_low = record {
  size = 4;
  encode = λ r. r.base_address_low * 2 ^ 4;
  decode = λ w. record { base_address_low = bits 4 28 w };
}

pub record DescriptorBaseAddressHigh : Type 0 where
  pub base_address_high : ℕ

abbrev pub descriptor_base_address_high : Layout DescriptorBaseAddressHigh
descriptor_base_address_high = record {
  size = 4;
  encode = λ r. r.base_address_high;
  decode = λ w. record { base_address_high = bits 0 32 w };
}

pub record DescriptorLength : Type 0 where
  pub length : ℕ

abbrev pub descriptor_length : Layout DescriptorLength
descriptor_length = record {
  size = 4;
  encode = λ r. r.length * 2 ^ 7;
  decode = λ w. record { length = bits 7 13 w };
}

pub record DescriptorHead : Type 0 where
  pub head : ℕ

abbrev pub descriptor_head : Layout DescriptorHead
descriptor_head = record {
  size = 4;
  encode = λ r. r.head;
  decode = λ w. record { head = bits 0 16 w };
}

pub record DescriptorTail : Type 0 where
  pub tail : ℕ

abbrev pub descriptor_tail : Layout DescriptorTail
descriptor_tail = record {
  size = 4;
  encode = λ r. r.tail;
  decode = λ w. record { tail = bits 0 16 w };
}

pub record ReceiveAddressLow : Type 0 where
  pub receive_address_low : ℕ

abbrev pub receive_address_low : Layout ReceiveAddressLow
receive_address_low = record {
  size = 4;
  encode = λ r. r.receive_address_low;
  decode = λ w. record { receive_address_low = bits 0 32 w };
}

pub record ReceiveAddressHigh : Type 0 where
  pub receive_address_high : ℕ

abbrev pub receive_address_high : Layout ReceiveAddressHigh
receive_address_high = record {
  size = 4;
  encode = λ r. r.receive_address_high;
  decode = λ w. record { receive_address_high = bits 0 16 w };
}
