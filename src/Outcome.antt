-- ===== src/Outcome.antt =====
-- What a call of Rust code does to the state that it borrows mutably: it returns (`ok`), returns an
-- `anyhow` error with what it changed so far (`err`), panics, or, where a loop is modelled on
-- fuel, is still running when the fuel is spent (`out_of_fuel`).
pub mod Post
pub mod Always
use e1000_emu.Prelude.{◌≡◌, refl, Bool, true, false, Option, none, some}

pub data Outcome (S A : Type 0) : Type 0 where
  ok : A → S → Outcome S A
  err : S → Outcome S A
  panic : Outcome S A
  out_of_fuel : Outcome S A

abbrev pub M : Type 0 → Type 0 → Type 0
M S A = S → Outcome S A

module _ {S A : Type 0} where
  abbrev pub pure : A → M S A
  pure a s = ok a s

  -- `Err(..)` or `bail!`.
  abbrev pub fail : M S A
  fail s = err s

  -- `panic!`, `todo!`, `unreachable!` or a failed index.
  abbrev pub panics : M S A
  panics s = panic

  abbrev pub gets : (S → A) → M S A
  gets f s = ok (f s) s

  -- `.unwrap()` on an `Option`, and on the `Result` of code outside.
  abbrev pub or_panic : Option A → M S A
  or_panic none s = panic
  or_panic (some a) s = ok a s

  -- `.context(..)?` on an `Option`, and `?` on the `Result` of code outside.
  abbrev pub or_fail : Option A → M S A
  or_fail none s = err s
  or_fail (some a) s = ok a s

  -- `.unwrap()` on the `Result` of a call.
  abbrev pub unwrap : M S A → M S A
  unwrap m s = elim (m s) [
    | ok a s' ↦ ok a s'
    | err s' ↦ panic
    | panic ↦ panic
    | out_of_fuel ↦ out_of_fuel
  ]

module _ {S : Type 0} where
  abbrev pub modify : (S → S) → M S (Unit {0})
  modify f s = ok tt (f s)

  -- `ensure!`.
  abbrev pub ensure : Bool → M S (Unit {0})
  ensure true s = ok tt s
  ensure false s = err s

  -- `assert!`.
  abbrev pub assert : Bool → M S (Unit {0})
  assert true s = ok tt s
  assert false s = panic

infixl 5 ◌>>=◌ ◌>>◌
abbrev pub ◌>>=◌ : {S A B : Type 0} → M S A → (A → M S B) → M S B
◌>>=◌ m f s = elim (m s) [
  | ok a s' ↦ f a s'
  | err s' ↦ err s'
  | panic ↦ panic
  | out_of_fuel ↦ out_of_fuel
]

abbrev pub ◌>>◌ : {S A B : Type 0} → M S A → M S B → M S B
m >> k = m >>= λ _. k

-- A call on a part of the state, which `put` puts back.
abbrev pub zoom : {S T A : Type 0} → (S → T) → (T → S → S) → M T A → M S A
zoom get put m s = elim (m (get s)) [
  | ok a t ↦ ok a (put t s)
  | err t ↦ err (put t s)
  | panic ↦ panic
  | out_of_fuel ↦ out_of_fuel
]

-- A step that is known to return.
pub bind-ok :
    {S A B : Type 0} (m : M S A) (f : A → M S B) {s s' : S} {a : A}
    → m s ≡ ok a s'
    → (m >>= f) s ≡ f a s'
bind-ok m f {s} h = rw (h, ◌>>=◌)
