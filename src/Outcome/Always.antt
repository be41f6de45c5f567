-- ===== src/Outcome/Always.antt =====
-- Invariants of calls: a predicate on the state that holds wherever a call hands the state back, with
-- a result or with an error. A panic and a loop that has not ended hand nothing back.
use e1000_emu.Prelude.{Bool, true, false, Option, none, some, if◌then◌else◌}
use e1000_emu.Outcome.{
  Outcome, ok, err, panic, out_of_fuel, M, or_panic, or_fail, unwrap, ensure, assert, zoom, ◌>>=◌,
}

abbrev pub Always : {S A : Type 0} → (S → Type 0) → Outcome S A → Type 0
Always P (ok a s) = P s
Always P (err s) = P s
Always P panic = Unit {0}
Always P out_of_fuel = Unit {0}

-- The call keeps the predicate.
abbrev pub Kept : {S A : Type 0} → (S → Type 0) → M S A → Type 0
Kept {S} P m = (s : S) → P s → Always P (m s)

module _ {S : Type 0} (P : S → Type 0) where
  pub Always-bind :
      {A B : Type 0} (m : M S A) (f : A → M S B) (s : S)
      → Always P (m s)
      → ((a : A) (t : S) → P t → Always P (f a t))
      → Always P ((m >>= f) s)
  Always-bind {A} {B} m f s h k = go (m s) h
    where
      go :
          (o : Outcome S A)
          → Always P o
          → Always P (elim o [
            | ok a t ↦ f a t
            | err t ↦ err t
            | panic ↦ panic
            | out_of_fuel ↦ out_of_fuel
          ])
      go (ok a t) h = k a t h
      go (err t) h = h
      go panic h = tt
      go out_of_fuel h = tt

  pub Always-if :
      {A : Type 0} (b : Bool) (m n : M S A) (s : S)
      → Always P (m s)
      → Always P (n s)
      → Always P ((if b then m else n) s)
  Always-if true m n s h k = h
  Always-if false m n s h k = k

  pub Always-either :
      {A : Type 0} (b : Bool) (o o' : Outcome S A)
      → Always P o
      → Always P o'
      → Always P (if b then o else o')
  Always-either true o o' h k = h
  Always-either false o o' h k = k

  pub Always-or_panic : {A : Type 0} (o : Option A) (s : S) → P s → Always P (or_panic o s)
  Always-or_panic none s h = tt
  Always-or_panic (some a) s h = h

  pub Always-or_fail : {A : Type 0} (o : Option A) (s : S) → P s → Always P (or_fail o s)
  Always-or_fail none s h = h
  Always-or_fail (some a) s h = h

  pub Always-ensure : (b : Bool) (s : S) → P s → Always P (ensure b s)
  Always-ensure true s h = h
  Always-ensure false s h = h

  pub Always-assert : (b : Bool) (s : S) → P s → Always P (assert b s)
  Always-assert true s h = h
  Always-assert false s h = tt

  pub Always-unwrap : {A : Type 0} (m : M S A) (s : S) → Always P (m s) → Always P (unwrap m s)
  Always-unwrap {A} m s h = go (m s) h
    where
      go :
          (o : Outcome S A)
          → Always P o
          → Always P (elim o [
            | ok a t ↦ ok a t
            | err t ↦ panic
            | panic ↦ panic
            | out_of_fuel ↦ out_of_fuel
          ])
      go (ok a t) h = h
      go (err t) h = tt
      go panic h = tt
      go out_of_fuel h = tt

pub Always-weaken :
    {S A : Type 0} {P R : S → Type 0} (o : Outcome S A)
    → ((s : S) → P s → R s)
    → Always P o
    → Always R o
Always-weaken (ok a s) k h = k s h
Always-weaken (err s) k h = k s h
Always-weaken panic k h = tt
Always-weaken out_of_fuel k h = tt

pub Always-both :
    {S A : Type 0} (P R : S → Type 0) (o : Outcome S A)
    → Always P o
    → Always R o
    → Always (λ s. P s × R s) o
Always-both P R (ok a s) h k = (h, k)
Always-both P R (err s) h k = (h, k)
Always-both P R panic h k = tt
Always-both P R out_of_fuel h k = tt

-- What holds on a condition.
pub Always-given :
    {S A X : Type 0} (P : S → Type 0) (o : Outcome S A) → (X → Always P o) → Always (λ s. X → P s) o
Always-given P (ok a s) h = h
Always-given P (err s) h = h
Always-given P panic h = tt
Always-given P out_of_fuel h = tt

-- From one predicate to a weaker one on the way.
pub Always-then :
    {S A B : Type 0} (P R : S → Type 0) (m : M S A) (f : A → M S B) (s : S)
    → Always P (m s)
    → ((t : S) → P t → R t)
    → ((a : A) (t : S) → P t → Always R (f a t))
    → Always R ((m >>= f) s)
Always-then {S} {A} {B} P R m f s h weaker k = go (m s) h
  where
    go :
        (o : Outcome S A)
        → Always P o
        → Always R
            (elim o [ ok a t ↦ f a t | err t ↦ err t | panic ↦ panic | out_of_fuel ↦ out_of_fuel ])
    go (ok a t) h = k a t h
    go (err t) h = weaker t h
    go panic h = tt
    go out_of_fuel h = tt

-- A call on a part of the state keeps the predicate if that part may change so.
pub Always-zoom :
    {S T A : Type 0} (P : S → Type 0) (get : S → T) (put : T → S → S) (m : M T A) (s : S)
    → Always (λ t. P (put t s)) (m (get s))
    → Always P (zoom get put m s)
Always-zoom {S} {T} {A} P get put m s h = go (m (get s)) h
  where
    go :
        (o : Outcome T A)
        → Always (λ t. P (put t s)) o
        → Always P (elim o [
          | ok a t ↦ ok a (put t s)
          | err t ↦ err (put t s)
          | panic ↦ panic
          | out_of_fuel ↦ out_of_fuel
        ])
    go (ok a t) h = h
    go (err t) h = h
    go panic h = tt
    go out_of_fuel h = tt
