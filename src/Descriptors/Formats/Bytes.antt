-- ===== src/Descriptors/Formats/Bytes.antt =====
-- `pack` of transmit descriptors in src/e1000/descriptors.rs: the packed parts are combined byte by
-- byte, which combines the numbers that they stand for.
use e1000_emu.Prelude.{
  ℕ, zero, suc, ◌/◌, ◌≡◌, refl, sym, ap, ap₂, ◌∙◌, List, [], ◌∷◌, ◌++◌, length, bit_or, to_le_bytes,
  to_be_bytes, arith, bit_or-div, bit_or-mod, length-reverse, length-to_le_bytes,
}
use mathlib.Core.List.{reverse, reverse-cons}
use e1000_emu.Descriptors.Formats.{or_bytes}

or_bytes-append :
    (xs ys : List ℕ) (x y : ℕ)
    → length xs ≡ length ys
    → or_bytes (xs ++ (x ∷ [])) (ys ++ (y ∷ [])) ≡ or_bytes xs ys ++ (bit_or x y ∷ [])
unfolding or_bytes
or_bytes-append [] [] x y h = refl
or_bytes-append [] (b ∷ ys) x y h = absurd (omega (arith, h))
or_bytes-append (a ∷ xs) [] x y h = absurd (omega (arith, h))
or_bytes-append (a ∷ xs) (b ∷ ys) x y h =
    ap (λ zs. bit_or a b ∷ zs) (or_bytes-append xs ys x y (omega (arith, h)))

or_bytes-reverse :
    (xs ys : List ℕ)
    → length xs ≡ length ys
    → or_bytes (reverse xs) (reverse ys) ≡ reverse (or_bytes xs ys)
unfolding or_bytes
or_bytes-reverse [] [] h = refl
or_bytes-reverse [] (b ∷ ys) h = absurd (omega (arith, h))
or_bytes-reverse (a ∷ xs) [] h = absurd (omega (arith, h))
or_bytes-reverse (a ∷ xs) (b ∷ ys) h =
    let same : length xs ≡ length ys = omega (arith, h) in
    rw (reverse-cons a xs, reverse-cons b ys, reverse-cons (bit_or a b) (or_bytes xs ys))
      (or_bytes-append (reverse xs) (reverse ys) a b
          (length-reverse xs ∙ same ∙ sym (length-reverse ys))
        ∙ ap (λ zs. zs ++ (bit_or a b ∷ [])) (or_bytes-reverse xs ys same))

or_bytes-to_le_bytes :
    (n x y : ℕ) → or_bytes (to_le_bytes n x) (to_le_bytes n y) ≡ to_le_bytes n (bit_or x y)
unfolding or_bytes
or_bytes-to_le_bytes zero x y = refl
or_bytes-to_le_bytes (suc n) x y =
    ap₂ ◌∷◌ (sym (bit_or-mod 8 x y))
      (or_bytes-to_le_bytes n (x / 256) (y / 256) ∙ ap (to_le_bytes n) (sym (bit_or-div 8 x y)))

pub or_bytes-to_be_bytes :
    (n x y : ℕ) → or_bytes (to_be_bytes n x) (to_be_bytes n y) ≡ to_be_bytes n (bit_or x y)
or_bytes-to_be_bytes n x y =
    or_bytes-reverse (to_le_bytes n x) (to_le_bytes n y)
      (length-to_le_bytes n x ∙ sym (length-to_le_bytes n y))
    ∙ ap reverse (or_bytes-to_le_bytes n x y)
