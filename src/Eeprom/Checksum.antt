-- ===== src/Eeprom/Checksum.antt =====
-- `pack_initial_eeprom` of src/e1000/eeprom.rs: the image of the EEPROM and its checksum.
use e1000_emu.Prelude.{
  ℕ, zero, suc, ◌+◌, ◌-◌, ◌*◌, ◌/◌, ◌%◌, ◌^◌, ◌≤◌, ◌<◌, ◌≡◌, refl, ap, ◌∙◌, List, [], ◌∷◌, ◌++◌,
  length, length-append, take, drop, set, replicate, arith, from_le_bytes, to_le_bytes,
  from_be_bytes, to_be_bytes, IsBytes, to_le_bytes-from_le_bytes,
}
use mathlib.Core.List.{reverse, reverse-reverse, append_assoc}
use native.Mathlib.Nat.{zero-add}
use e1000_emu.Outcome.{ok, or_panic, ◌>>=◌}
use e1000_emu.Packing.{Derive, Fits}
use e1000_emu.Eeprom.{
  EepromInterface, Eeprom, eeprom, set_ethernet_address, chunk_words, store_words, checksummed,
  pack_initial_eeprom, desired_checksum,
}

abbrev pub sum : List ℕ → ℕ
sum [] = 0
sum (x ∷ xs) = x + sum xs

-- The wrapping sum of the loop.
abbrev store_sum : ℕ → List ℕ → ℕ
store_sum s [] = s
store_sum s (w ∷ ws) = store_sum ((s + w) % 2 ^ 16) ws

store_sum_lem : (ws : List ℕ) (s : ℕ) → store_sum s ws % 2 ^ 16 ≡ (s + sum ws) % 2 ^ 16
store_sum_lem [] s = omega arith
store_sum_lem (w ∷ ws) s = omega (arith, store_sum_lem ws ((s + w) % 2 ^ 16))

set-append :
    (pre : List ℕ) (x v : ℕ) (rest : List ℕ)
    → set (pre ++ (x ∷ rest)) (length pre) v ≡ pre ++ (v ∷ rest)
set-append [] x v rest = refl
set-append (p ∷ pre) x v rest = ap (◌∷◌ p) (set-append pre x v rest)

length-snoc : (pre : List ℕ) (x : ℕ) → length (pre ++ (x ∷ [])) ≡ length pre + 1
length-snoc pre x = length-append pre (x ∷ [])

sum-append : (xs ys : List ℕ) → sum (xs ++ ys) ≡ sum xs + sum ys
sum-append [] ys = omega arith
sum-append (x ∷ xs) ys = omega (arith, sum-append xs ys)

-- The loop stores the words in order over those from its index on.
store_words_lem :
    (ws pre rest : List ℕ) (i s : ℕ)
    → length pre ≡ i
    → length ws ≤ length rest
    → store_words i ws (pre ++ rest) s ≡ (pre ++ (ws ++ drop (length ws) rest), store_sum s ws)
unfolding store_words
store_words_lem [] pre rest i s h k = refl
store_words_lem (w ∷ ws) pre [] i s h k = absurd (omega arith)
store_words_lem (w ∷ ws) pre (x ∷ rest) i s h k =
    rw (← h, set-append pre x w rest, ← append_assoc pre (w ∷ []) rest)
      (rw
        (store_words_lem ws (pre ++ (w ∷ [])) rest (length pre + 1) ((s + w) % 2 ^ 16)
          (length-snoc pre w) (omega arith))
        (rw append_assoc refl))

to_le_bytes-zero : (n : ℕ) → to_le_bytes n 0 ≡ replicate n 0
to_le_bytes-zero zero = refl
to_le_bytes-zero (suc n) = ap (◌∷◌ 0) (to_le_bytes-zero n)

-- Bytes followed by zeros.
to_le_bytes-pad :
    (bs : List ℕ) (n : ℕ)
    → IsBytes bs
    → to_le_bytes (length bs + n) (from_le_bytes bs) ≡ bs ++ replicate n 0
to_le_bytes-pad [] n h = rw zero-add (to_le_bytes-zero n)
to_le_bytes-pad (b ∷ bs) n h =
    let low : (b + 256 * from_le_bytes bs) % 256 ≡ b = omega (arith, h.0) in
    let high : (b + 256 * from_le_bytes bs) / 256 ≡ from_le_bytes bs = omega (arith, h.0) in
    rw (suc-add (length bs) n, low, high) (ap (◌∷◌ b) (to_le_bytes-pad bs n h.1))
  where
    suc-add : (x y : ℕ) → suc x + y ≡ suc (x + y)
    suc-add x y = omega arith

-- The checksum word that follows the words stored.
abbrev checksum_of : List ℕ → ℕ
checksum_of ws = (desired_checksum + 2 ^ 16 - store_sum 0 ws) % 2 ^ 16

drop_last : (n : ℕ) (xs : List ℕ) → length xs ≡ suc n → (x : ℕ) × (drop n xs ≡ x ∷ [])
drop_last n [] h = absurd (omega arith)
drop_last zero (x ∷ []) h = (x, refl)
drop_last zero (x ∷ y ∷ ys) h = absurd (omega arith)
drop_last (suc n) (x ∷ xs) h = drop_last n xs (omega arith)

checksummed_lem :
    (pack ws : List ℕ) (e : EepromInterface)
    → chunk_words (take (length pack - 2) pack) ≡ ws
    → length ws ≡ 63
    → length e.words ≡ 64
    → checksummed pack e ≡ record e { words = ws ++ (checksum_of ws ∷ []) }
unfolding checksummed
checksummed_lem pack ws e h k l =
    let (x, last) = drop_last 63 e.words l in
    let stored : store_words 0 ws e.words 0 ≡ (ws ++ (x ∷ []), store_sum 0 ws) =
      store_words_lem ws [] e.words 0 0 refl (omega arith) ∙ rw (k, last) refl in
    let place : length (ws ++ (x ∷ [])) - 1 ≡ length ws =
      omega (arith, length-append ws (x ∷ [])) in
    rw (h, stored, place, set-append ws x (checksum_of ws) []) refl

store_sum-lt : (ws : List ℕ) (s : ℕ) → s < 2 ^ 16 → store_sum s ws < 2 ^ 16
store_sum-lt [] s h = h
store_sum-lt (w ∷ ws) s h = store_sum-lt ws ((s + w) % 2 ^ 16) (omega arith)

-- All words and the checksum add up to the desired sum.
sum-checksum : (ws : List ℕ) → sum (ws ++ (checksum_of ws ∷ [])) % 2 ^ 16 ≡ desired_checksum
sum-checksum ws = omega (
  arith,
  sum-append ws (checksum_of ws ∷ []),
  store_sum_lem ws 0,
  store_sum-lt ws 0 (omega arith),
)

abbrev pub mac_bytes : ℕ → ℕ → ℕ → ℕ → ℕ → ℕ → List ℕ
mac_bytes a b c d e f = a ∷ b ∷ c ∷ d ∷ e ∷ f ∷ []

-- The words of a MAC address, and zeros up to the checksum.
abbrev pub image : ℕ → ℕ → ℕ → ℕ → ℕ → ℕ → List ℕ
image a b c d e f =
    from_le_bytes (a ∷ b ∷ [])
    ∷ from_le_bytes (c ∷ d ∷ [])
    ∷ from_le_bytes (e ∷ f ∷ [])
    ∷ replicate 60 0

module _ (m0 m1 m2 m3 m4 m5 : ℕ) (bytes : IsBytes (mac_bytes m0 m1 m2 m3 m4 m5)) where
  abbrev mac : List ℕ
  mac = mac_bytes m0 m1 m2 m3 m4 m5

  abbrev pub with_mac : EepromInterface → EepromInterface
  with_mac e = record e { initial_eeprom = set_ethernet_address mac e.initial_eeprom }

  mac-Fits : (i : Eeprom) → Fits eeprom (set_ethernet_address mac i)
  unfolding set_ethernet_address
  mac-Fits i = record {
    in_size = omega (arith, bytes);
    kept = ap (λ l. record { ethernet_address = reverse l }) (to_le_bytes-from_le_bytes mac bytes);
  }

  packed_image :
      (i : Eeprom)
      → reverse (to_be_bytes 128 (from_be_bytes (set_ethernet_address mac i).ethernet_address))
        ≡ mac ++ replicate 122 0
  unfolding set_ethernet_address
  packed_image i = reverse-reverse _ ∙ to_le_bytes-pad mac 122 bytes

  image_words : chunk_words (take 126 (mac ++ replicate 122 0)) ≡ image m0 m1 m2 m3 m4 m5
  unfolding chunk_words
  image_words = refl

  -- If the EEPROM holds 64 words, `pack_initial_eeprom` after `set_ethernet_address` of six bytes
  -- stores the words of the MAC address, the lower byte of each first, zeros, and a word that
  -- makes the sum of all 64 words the desired checksum, modulo 2^16. It does not panic.
  pub pack_initial_eeprom_lem :
      ⦃D : Derive⦄ (e : EepromInterface)
      → length e.words ≡ 64
      → (c : ℕ) × (pack_initial_eeprom (with_mac e)
          ≡ ok tt (record (with_mac e) { words = image m0 m1 m2 m3 m4 m5 ++ (c ∷ []) }))
        × (sum (image m0 m1 m2 m3 m4 m5 ++ (c ∷ [])) % 2 ^ 16 ≡ desired_checksum)
  unfolding pack_initial_eeprom
  pack_initial_eeprom_lem ⦃D⦄ e l = (
    checksum_of (image m0 m1 m2 m3 m4 m5),
    rw (D.pack_lem eeprom _ (mac-Fits e.initial_eeprom), or_panic, ◌>>=◌)
        (rw (packed_image e.initial_eeprom) (
          ap (ok tt) (
            checksummed_lem (mac ++ replicate 122 0) (image m0 m1 m2 m3 m4 m5) (with_mac e)
              image_words refl l))),
    sum-checksum (image m0 m1 m2 m3 m4 m5),
  )
