-- ===== src/Phy.antt =====
-- The PHY registers of src/e1000/phy.rs and their access by the MDI. (`mdic_write` is in
-- Device/Management.antt.)
use e1000_emu.Prelude.{ℕ, ◌+◌, ◌*◌, ◌^◌, Bool, true, false, List, digit, bit, bits}
use e1000_emu.Outcome.{M, pure, or_panic, ◌>>=◌}
use e1000_emu.Packing.{Layout, Derive}

abbrev pub mdi_read : ℕ
mdi_read = 0b10

abbrev pub mdi_write : ℕ
mdi_write = 0b01

pub record PhyStatus : Type 0 where
  pub link_status : Bool

abbrev pub phy_status : Layout PhyStatus
phy_status = record {
  size = 2;
  encode = λ r. digit r.link_status * 2 ^ 2;
  decode = λ w. record { link_status = bit 2 w };
}

pub record PhyIdentifier : Type 0 where
  pub identifier : ℕ

abbrev pub phy_identifier : Layout PhyIdentifier
phy_identifier = record {
  size = 2;
  encode = λ r. r.identifier;
  decode = λ w. record { identifier = bits 0 16 w };
}

pub record PhyExtendedIdentifier : Type 0 where
  pub revision : ℕ
  pub model : ℕ
  pub identifier : ℕ

abbrev pub phy_extended_identifier : Layout PhyExtendedIdentifier
phy_extended_identifier = record {
  size = 2;
  encode = λ r. r.revision + r.model * 2 ^ 4 + r.identifier * 2 ^ 10;
  decode = λ w. record { revision = bits 0 4 w; model = bits 4 6 w; identifier = bits 10 6 w };
}

pub record Phy : Type 0 where
  pub status : PhyStatus
  pub identifier : PhyIdentifier
  pub extended_identifier : PhyExtendedIdentifier

-- `Default::default()`.
abbrev pub default_phy : Phy
default_phy = record {
  status = record { link_status = false };
  identifier = record { identifier = 0x0141 };
  extended_identifier = record { revision = 0; model = 0x02; identifier = 0x03 };
}

-- `PhyRegister::access`: the register and the two bytes after the access.
unfoldable pub phy_access :
    {S A : Type 0} ⦃D : Derive⦄ → Layout A → A → List ℕ → Bool → M S (A × List ℕ)
phy_access ⦃D⦄ L r bytes true = do r' ← or_panic ((D.derive L).unpack bytes); pure (r', bytes)
phy_access ⦃D⦄ L r bytes false = do bytes' ← or_panic ((D.derive L).pack r); pure (r, bytes')
