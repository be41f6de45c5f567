-- ===== src/Ffi/Answers.antt =====
-- What the Boolean of `e1000_region_access` of src/ffi.rs says.
use e1000_emu.Prelude.{
  ℕ, ◌%◌, ◌^◌, ◌≡◌, refl, subst, inl, inr, Bool, true, false, ◌&&◌, List, length, ◌==◌,
  if◌then◌else◌, Bool-cases,
}
use e1000_emu.Outcome.{
  Outcome, ok, err, panic, out_of_fuel, M, pure, fail, unwrap, ensure, ◌>>=◌, ◌>>◌,
}
use e1000_emu.Packing.{Derive}
use e1000_emu.NicContext.{NicContext, Clock, InternetChecksum}
use e1000_emu.Device.State.{E1000}
use e1000_emu.Device.Access.{access_register}
use e1000_emu.Device.Regions.{region_access_bar0, region_access_bar1, access_address, buffer_after}
use e1000_emu.Ffi.{FfiCallbacks, FfiContext, ffi_context, answered, e1000_region_access}

-- The accesses that the device takes: four bytes, at a multiple of four in bar 0, at 0 or 4 in
-- bar 1, the latter with a multiple of four in IOADDR.
abbrev pub is_valid_access : ℕ → ℕ → List ℕ → ℕ → Bool
is_valid_access bar offset bytes io_addr =
    (length bytes == 4)
    && (if bar == 0
        then offset % 4 == 0
        else if bar == 1
        then (if offset == 0 then true else if offset == 4 then io_addr % 4 == 0 else false)
        else false)

-- An access that is taken returns true, unless it panics or does not return; one that is refused
-- returns false and changes nothing.
abbrev pub Answers : {S : Type 0} → List ℕ → S → Bool → Outcome S (Bool × List ℕ) → Type 0
Answers bytes s true (ok (b, bytes') s') = b ≡ true
Answers bytes s true (err s') = ⊥
Answers bytes s true panic = Unit {0}
Answers bytes s true out_of_fuel = Unit {0}
Answers bytes s false (ok (b, bytes') s') = (b ≡ false) × (bytes' ≡ bytes) × (s' ≡ s)
Answers bytes s false (err s') = ⊥
Answers bytes s false panic = ⊥
Answers bytes s false out_of_fuel = ⊥

and_false : (b : Bool) → (b && false) ≡ false
and_false true = refl
and_false false = refl

Answers-unwrap :
    {S A : Type 0} (bytes : List ℕ) (m : M S A) (f : A → ℕ × List ℕ) (s : S)
    → Answers bytes s true (answered bytes ((unwrap m >>= λ a. pure (f a)) s))
Answers-unwrap {S} {A} bytes m f s = go (m s)
  where
    go :
        (o : Outcome S A)
        → Answers bytes s true (answered bytes ((unwrap (λ t. o) >>= λ a. pure (f a)) s))
    go (ok a t) = refl
    go (err t) = tt
    go panic = tt
    go out_of_fuel = tt

Answers-ensure :
    {S : Type 0} (bytes : List ℕ) (b c : Bool) (m : M S (ℕ × List ℕ)) (s : S)
    → Answers bytes s c (answered bytes (m s))
    → Answers bytes s (b && c) (answered bytes ((ensure b >> m) s))
Answers-ensure bytes true c m s h = h
Answers-ensure bytes false c m s h = (refl, refl, refl)

Answers-last :
    {S : Type 0} (bytes : List ℕ) (b : Bool) (m : M S (ℕ × List ℕ)) (s : S)
    → Answers bytes s true (answered bytes (m s))
    → Answers bytes s b (answered bytes ((ensure b >> m) s))
Answers-last bytes true m s h = h
Answers-last bytes false m s h = (refl, refl, refl)

Answers-choice :
    {S : Type 0} (bytes : List ℕ) (b c d : Bool) (m n : M S (ℕ × List ℕ)) (s : S)
    → Answers bytes s c (answered bytes (m s))
    → Answers bytes s d (answered bytes (n s))
    → Answers bytes s (if b then c else d) (answered bytes ((if b then m else n) s))
Answers-choice bytes true c d m n s h k = h
Answers-choice bytes false c d m n s h k = k

module _ {C : Type 0} ⦃D : Derive⦄ ⦃K : InternetChecksum⦄ ⦃N : NicContext C⦄ ⦃T : Clock C⦄ where
  pub region_access_bar0-Answers :
      (offset : ℕ) (bytes : List ℕ) (write : Bool) (e : E1000 C)
      → Answers bytes e
          ((length bytes == 4) && (offset % 4 == 0))
          (answered bytes (region_access_bar0 offset bytes write e))
  unfolding region_access_bar0
  region_access_bar0-Answers offset bytes write e =
      Answers-ensure bytes (length bytes == 4) (offset % 4 == 0) _ e (
        Answers-last bytes (offset % 4 == 0) _ e (
          Answers-unwrap bytes (access_register (offset % 2 ^ 32) bytes write)
            (λ result. (length bytes, buffer_after bytes result)) e))

  access_address-Answers :
      (bytes : List ℕ) (write : Bool) (e : E1000 C)
      → Answers bytes e true (answered bytes (access_address bytes write e))
  unfolding access_address
  access_address-Answers bytes true e = refl
  access_address-Answers bytes false e = refl

  pub region_access_bar1-Answers :
      (offset : ℕ) (bytes : List ℕ) (write : Bool) (e : E1000 C)
      → Answers bytes e
          ((length bytes == 4)
            && (if offset == 0 then true else if offset == 4 then e.io_addr % 4 == 0 else false))
          (answered bytes (region_access_bar1 offset bytes write e))
  unfolding region_access_bar1
  region_access_bar1-Answers offset bytes write e = elim (Bool-cases (length bytes == 4)) [
    | inl four ↦ rw four (
        Answers-choice bytes (offset == 0) true _ (access_address bytes write) _ e
          (access_address-Answers bytes write e)
          (Answers-choice bytes (offset == 4) (e.io_addr % 4 == 0) false
            (λ e. region_access_bar0 e.io_addr bytes write e) fail e
            (subst
              (λ b.
                Answers bytes e (b && (e.io_addr % 4 == 0))
                  (answered bytes (region_access_bar0 e.io_addr bytes write e)))
              four (region_access_bar0-Answers e.io_addr bytes write e))
            (refl, refl, refl)))
    | inr other ↦ rw other (refl, refl, refl)
  ]

module _ {P : Type 0} (callbacks : FfiCallbacks P) ⦃T : Clock (FfiContext P)⦄ ⦃D : Derive⦄
    ⦃K : InternetChecksum⦄ where
  -- A region access through the C interface returns true exactly for four bytes at a multiple of
  -- four in bar 0, at 0 in bar 1, or at 4 in bar 1 with a multiple of four in IOADDR, unless it
  -- panics or does not return; every other access returns false and leaves the device and the
  -- buffer as they were.
  pub e1000_region_access-Answers :
      (bar offset : ℕ) (bytes : List ℕ) (write : Bool) (e : E1000 (FfiContext P))
      → Answers bytes e
          (is_valid_access bar offset bytes e.io_addr)
          (e1000_region_access callbacks bar offset bytes write e)
  unfolding e1000_region_access
  e1000_region_access-Answers bar offset bytes write e = elim (Bool-cases (bar == 0)) [
    | inl zeroth ↦
        rw zeroth (region_access_bar0-Answers ⦃N = ffi_context callbacks⦄ offset bytes write e)
    | inr p ↦ elim (Bool-cases (bar == 1)) [
      | inl first ↦
          rw (p, first)
            (region_access_bar1-Answers ⦃N = ffi_context callbacks⦄ offset bytes write e)
      | inr q ↦ rw (p, q, and_false (length bytes == 4)) (refl, refl, refl)
    ]
  ]
