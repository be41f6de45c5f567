-- ===== src/Device/Access/Arms.antt =====
-- One arm of `match_and_access_registers` of src/util.rs, for any register of four bytes.
use e1000_emu.Prelude.{
  ℕ, ◌≡◌, refl, sym, ap, ◌∙◌, true, false, some, List, [], ◌∷◌, IsBytes, from_le_bytes, to_le_bytes,
  to_be_bytes,
}
use e1000_emu.Outcome.{M, ok, pure, or_fail, ◌>>=◌, ◌>>◌}
use e1000_emu.Packing.{Layout, Derive, Fits}
use e1000_emu.Registers.File.{Registers, access, register_read, register_write}
use e1000_emu.Device.State.{E1000}
use e1000_emu.Device.Access.{arm, with_regs}

abbrev pub four : ℕ → ℕ → ℕ → ℕ → List ℕ
four b0 b1 b2 b3 = b0 ∷ b1 ∷ b2 ∷ b3 ∷ []

pub reversed-IsBytes : (b0 b1 b2 b3 : ℕ) → IsBytes (four b0 b1 b2 b3) → IsBytes (four b3 b2 b1 b0)
reversed-IsBytes b0 b1 b2 b3 h = (h.1.1.1.0, (h.1.1.0, (h.1.0, (h.0, tt))))

packed :
    {A : Type 0} ⦃D : Derive⦄ (L : Layout A)
    → L.size ≡ 4
    → (r : A) → Fits L r
    → (D.derive L).pack r ≡ some (to_be_bytes 4 (L.encode r))
packed ⦃D⦄ L size r fits = D.pack_lem L r fits ∙ ap (λ n. some (to_be_bytes n (L.encode r))) size

module _ {C A : Type 0} ⦃D : Derive⦄ (b0 b1 b2 b3 : ℕ) (L : Layout A) (size : L.size ≡ 4)
    (get : Registers → A) (put : A → Registers → Registers) where
  access-write :
      (r : A) (e : E1000 C)
      → IsBytes (four b0 b1 b2 b3)
      → access L r (four b0 b1 b2 b3) true e
        ≡ ok (L.decode (from_le_bytes (four b0 b1 b2 b3)), four b0 b1 b2 b3) e
  unfolding access register_write
  access-write r e h =
      rw
        (
          D.unpack_lem L (four b3 b2 b1 b0) (sym size) (reversed-IsBytes b0 b1 b2 b3 h),
          or_fail,
          ◌>>=◌,
        )
        refl

  pub arm-action :
      (action : M (E1000 C) (Unit {0})) (e : E1000 C)
      → IsBytes (four b0 b1 b2 b3)
      → arm L get put action (four b0 b1 b2 b3) true e
        ≡ (action >> pure (some (four b0 b1 b2 b3)))
            (with_regs (put (L.decode (from_le_bytes (four b0 b1 b2 b3)))) e)
  unfolding arm
  arm-action action e h = rw (access-write (get e.regs) e h, arm) refl

  pub arm-read :
      (action : M (E1000 C) (Unit {0})) (e : E1000 C)
      → Fits L (get e.regs)
      → arm L get put action (four b0 b1 b2 b3) false e
        ≡ (action >> pure (some (to_le_bytes 4 (L.encode (get e.regs)))))
            (with_regs (put (get e.regs)) e)
  unfolding arm access register_read
  arm-read action e fits =
      rw (packed L size (get e.regs) fits, arm, access, register_read, or_fail, ◌>>=◌) refl
