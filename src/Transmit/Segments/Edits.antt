-- ===== src/Transmit/Segments/Edits.antt =====
-- Fields of the byte buffers of src/e1000/transmit.rs: what a write in place leaves, and what it
-- does not touch.
use e1000_emu.Prelude.{
  ℕ, zero, suc, ◌+◌, ◌-◌, ◌≤◌, ◌<◌, ◌≡◌, refl, sym, ap, subst, ◌∙◌, ◌⊎◌, inl, inr, false, Option,
  some, List, [], ◌∷◌, ◌++◌, length, take, drop, get_elem?, set, arith, ltb, ◌||◌, length-take,
  length-drop, length-append, take-append-drop,
}
use e1000_emu.Transmit.Buffer.{slice, write_slice, update_slice}

-- The `n` bytes from `o` on.
abbrev pub field : List ℕ → ℕ → ℕ → List ℕ
field bytes o n = take n (drop o bytes)

-- Two ranges that share no byte.
abbrev pub Apart : ℕ → ℕ → ℕ → ℕ → Type 0
Apart o n o' n' = (o + n ≤ o') ⊎ (o' + n' ≤ o)

take-append : (xs ys : List ℕ) → take (length xs) (xs ++ ys) ≡ xs
take-append [] ys = refl
take-append (x ∷ xs) ys = ap (◌∷◌ x) (take-append xs ys)

field-middle : (xs ys zs : List ℕ) → field (xs ++ (ys ++ zs)) (length xs) (length ys) ≡ ys
field-middle [] ys zs = take-append ys zs
field-middle (x ∷ xs) ys zs = field-middle xs ys zs

pub field-append_left :
    (xs ys : List ℕ) (o n : ℕ) → o + n ≤ length xs → field (xs ++ ys) o n ≡ field xs o n
field-append_left xs ys zero zero h = refl
field-append_left [] ys zero (suc n) h = absurd (omega (arith, h))
field-append_left (x ∷ xs) ys zero (suc n) h =
    ap (◌∷◌ x) (field-append_left xs ys zero n (omega (arith, h)))
field-append_left [] ys (suc o) n h = absurd (omega (arith, h))
field-append_left (x ∷ xs) ys (suc o) n h = field-append_left xs ys o n (omega (arith, h))

field-append_right :
    (xs ys : List ℕ) (o j n : ℕ) → o ≡ length xs + j → field (xs ++ ys) o n ≡ field ys j n
field-append_right [] ys o j n h = ap (λ k. field ys k n) (omega (arith, h))
field-append_right (x ∷ xs) ys zero j n h = absurd (omega (arith, h))
field-append_right (x ∷ xs) ys (suc o) j n h = field-append_right xs ys o j n (omega (arith, h))

-- The bytes of a field come from those of the prefix that holds it.
pub field-take :
    (k : ℕ) (p rest : List ℕ) (o n : ℕ)
    → k ≤ length p
    → o + n ≤ k
    → field (take k p ++ rest) o n ≡ field p o n
field-take k p rest o n h f =
    let inside : o + n ≤ length (take k p) = omega (arith, length-take k p) in
    field-append_left (take k p) rest o n inside
    ∙ sym (field-append_left (take k p) (drop k p) o n inside)
    ∙ ap (λ (q : List ℕ). field q o n) (take-append-drop k p)

pub field-after : (xs ys : List ℕ) → field (xs ++ ys) (length xs) (length ys) ≡ ys
field-after [] ys = take_all ys
  where
    take_all : (ys : List ℕ) → take (length ys) ys ≡ ys
    take_all [] = refl
    take_all (y ∷ ys) = ap (◌∷◌ y) (take_all ys)
field-after (x ∷ xs) ys = field-after xs ys

-- `bs` in the place of the bytes from `o` on.
abbrev patch : List ℕ → ℕ → List ℕ → List ℕ
patch p o bs = take o p ++ (bs ++ drop (o + length bs) p)

patched-here :
    (p : List ℕ) (o : ℕ) (bs : List ℕ)
    → o + length bs ≤ length p
    → field (patch p o bs) o (length bs) ≡ bs
patched-here p o bs h =
    let at_o : length (take o p) ≡ o = omega (arith, h, length-take o p) in
    subst (λ k. field (patch p o bs) k (length bs) ≡ bs) at_o
      (field-middle (take o p) bs (drop (o + length bs) p))

patched-before :
    (p : List ℕ) (o : ℕ) (bs : List ℕ) (o' n : ℕ)
    → o + length bs ≤ length p
    → o' + n ≤ o
    → field (patch p o bs) o' n ≡ field p o' n
patched-before p o bs o' n h b =
    field-take o p (bs ++ drop (o + length bs) p) o' n (omega (arith, h)) b

patched-after :
    (p : List ℕ) (o : ℕ) (bs : List ℕ) (o' n : ℕ)
    → o + length bs ≤ length p
    → o + length bs ≤ o'
    → field (patch p o bs) o' n ≡ field p o' n
patched-after p o bs o' n h a =
    let k = o + length bs in
    let j = o' - k in
    let rest = drop k p in
    field-append_right (take o p) (bs ++ rest) o' (length bs + j) n
      (omega (arith, h, a, length-take o p))
    ∙ field-append_right bs rest (length bs + j) j n refl
    ∙ sym (field-append_right (take k p) rest o' j n (omega (arith, h, a, length-take k p)))
    ∙ ap (λ (q : List ℕ). field q o' n) (take-append-drop k p)

length-patch :
    (p : List ℕ) (o : ℕ) (bs : List ℕ) → o + length bs ≤ length p → length (patch p o bs) ≡ length p
length-patch p o bs h = omega (
  arith,
  h,
  length-append (take o p) (bs ++ drop (o + length bs) p),
  length-append bs (drop (o + length bs) p),
  length-take o p,
  length-drop (o + length bs) p,
)

-- `q` is `p` with `bs` in the `n` bytes from `o` on.
pub record Edited (p : List ℕ) (o n : ℕ) (bs q : List ℕ) : Type 0 where
  pub same_length : length q ≡ length p
  pub here : field q o n ≡ bs
  pub elsewhere : (o' n' : ℕ) → Apart o n o' n' → field q o' n' ≡ field p o' n'

-- A result that is `p` with `bs` in the `n` bytes from `o` on.
abbrev pub Edits : List ℕ → ℕ → ℕ → List ℕ → Option (List ℕ) → Type 0
Edits p o n bs r = (q : List ℕ) × (r ≡ some q) × Edited p o n bs q

pub Edited-refl : (p : List ℕ) (o n : ℕ) → Edited p o n (field p o n) p
Edited-refl p o n = record { same_length = refl; here = refl; elsewhere = λ o' n' a. refl }

patch-Edited :
    (p : List ℕ) (o : ℕ) (bs : List ℕ)
    → o + length bs ≤ length p
    → Edited p o (length bs) bs (patch p o bs)
patch-Edited p o bs h = record {
  same_length = length-patch p o bs h;
  here = patched-here p o bs h;
  elsewhere = λ o' n' a. elim a [
    | inl after ↦ patched-after p o bs o' n' h after
    | inr before ↦ patched-before p o bs o' n' h before
  ];
}

pub write_slice-Edits :
    (p : List ℕ) (o n : ℕ) (bs : List ℕ)
    → length bs ≡ n
    → o + n ≤ length p
    → Edits p o n bs (write_slice p o bs)
write_slice-Edits p o n bs l h =
    let fits : o + length bs ≤ length p = omega (arith, l, h) in
    let inside : ltb (length p) (o + length bs) ≡ false = ground (arith, fits) in
    (
      patch p o bs,
      simp inside refl,
      subst (λ k. Edited p o k bs (patch p o bs)) l (patch-Edited p o bs fits),
    )

pub slice-field : (p : List ℕ) (o n : ℕ) → o + n ≤ length p → slice p o (o + n) ≡ some (field p o n)
slice-field p o n h =
    let inside : (ltb (o + n) o || ltb (length p) (o + n)) ≡ false = ground (arith, h) in
    simp inside (ap (λ k. some (take k (drop o p))) (omega (arith)))

pub update_slice-Edits :
    (p : List ℕ) (o n : ℕ) (f : List ℕ → List ℕ)
    → length (f (field p o n)) ≡ n
    → o + n ≤ length p
    → Edits p o n (f (field p o n)) (update_slice p o n f)
update_slice-Edits p o n f l h =
    let (q, r, e) = write_slice-Edits p o n (f (field p o n)) l h in
    (q, rw (slice-field p o n h) r, e)

-- A byte that is read, and one that is set.
pub get-field :
    (p : List ℕ) (o : ℕ)
    → o < length p
    → (b : ℕ) × (get_elem? p o ≡ some b) × (field p o 1 ≡ b ∷ [])
get-field [] o h = absurd (omega (arith, h))
get-field (x ∷ xs) zero h = (x, refl, refl)
get-field (x ∷ xs) (suc o) h = get-field xs o (omega (arith, h))

set-drop : (p : List ℕ) (o v : ℕ) → o < length p → set p o v ≡ take o p ++ (v ∷ drop (suc o) p)
set-drop [] o v h = absurd (omega (arith, h))
set-drop (x ∷ xs) zero v h = refl
set-drop (x ∷ xs) (suc o) v h = ap (◌∷◌ x) (set-drop xs o v (omega (arith, h)))

set-patch : (p : List ℕ) (o v : ℕ) → o < length p → set p o v ≡ patch p o (v ∷ [])
set-patch p o v h =
    let next : suc o ≡ o + 1 = omega (arith) in
    set-drop p o v h ∙ ap (λ (k : ℕ). take o p ++ (v ∷ drop k p)) next

pub set-Edited : (p : List ℕ) (o v : ℕ) → o < length p → Edited p o 1 (v ∷ []) (set p o v)
set-Edited p o v h = rw (set-patch p o v h) (patch-Edited p o (v ∷ []) (omega (arith, h)))

get-field_next :
    (p : List ℕ) (o : ℕ)
    → o + 2 ≤ length p
    → (a b : ℕ) × (get_elem? p o ≡ some a)
      × (get_elem? p (suc o) ≡ some b)
      × (field p o 2 ≡ a ∷ b ∷ [])
get-field_next [] o h = absurd (omega (arith, h))
get-field_next (x ∷ []) o h = absurd (omega (arith, h))
get-field_next (x ∷ y ∷ ys) zero h = (x, y, refl, refl, refl)
get-field_next (x ∷ y ∷ ys) (suc o) h = get-field_next (y ∷ ys) o (omega (arith, h))

pub get-field_two :
    (p : List ℕ) (o : ℕ)
    → o + 2 ≤ length p
    → (a b : ℕ) × (get_elem? p o ≡ some a)
      × (get_elem? p (o + 1) ≡ some b)
      × (field p o 2 ≡ a ∷ b ∷ [])
get-field_two p o h =
    let (a, b, x, y, f) = get-field_next p o h in
    let next : o + 1 ≡ suc o = omega (arith) in (a, b, x, ap (get_elem? p) next ∙ y, f)
