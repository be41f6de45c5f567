-- ===== src/Outcome/Post.antt =====
-- Postconditions of calls: what holds of the result and the state where the call returns, and of
-- the state where it returns an error. A panic meets every postcondition, running out of fuel none.
use e1000_emu.Prelude.{◌≡◌, refl, Bool, true, false, Option, none, some, if◌then◌else◌}
use e1000_emu.Outcome.{
  Outcome, ok, err, panic, out_of_fuel, M, or_panic, or_fail, unwrap, ensure, assert, zoom, ◌>>=◌,
}

abbrev pub Post : {S A : Type 0} → (A → S → Type 0) → (S → Type 0) → Outcome S A → Type 0
Post Q E (ok a s) = Q a s
Post Q E (err s) = E s
Post Q E panic = Unit {0}
Post Q E out_of_fuel = ⊥

module _ {S A : Type 0} where
  pub Post-bind :
      {B : Type 0} (Q : A → S → Type 0) (R : B → S → Type 0) (E : S → Type 0) (m : M S A)
      (f : A → M S B) (s : S)
      → Post Q E (m s)
      → ((a : A) (t : S) → Q a t → Post R E (f a t))
      → Post R E ((m >>= f) s)
  Post-bind Q R E m f s h k = go (m s) h
    where
      go :
          (o : Outcome S A)
          → Post Q E o
          → Post R E (elim o [
            | ok a t ↦ f a t
            | err t ↦ err t
            | panic ↦ panic
            | out_of_fuel ↦ out_of_fuel
          ])
      go (ok a t) h = k a t h
      go (err t) h = h
      go panic h = tt
      go out_of_fuel h = h

  pub Post-unwrap :
      (Q : A → S → Type 0) (E F : S → Type 0) (m : M S A) (s : S)
      → Post Q E (m s)
      → Post Q F (unwrap m s)
  Post-unwrap Q E F m s h = go (m s) h
    where
      go :
          (o : Outcome S A)
          → Post Q E o
          → Post Q F (elim o [
            | ok a t ↦ ok a t
            | err t ↦ panic
            | panic ↦ panic
            | out_of_fuel ↦ out_of_fuel
          ])
      go (ok a t) h = h
      go (err t) h = tt
      go panic h = tt
      go out_of_fuel h = h

  pub Post-or_panic :
      (Q : A → S → Type 0) (E : S → Type 0) (o : Option A) (s : S)
      → ((a : A) → o ≡ some a → Q a s)
      → Post Q E (or_panic o s)
  Post-or_panic Q E none s h = tt
  Post-or_panic Q E (some a) s h = h a refl

  pub Post-or_fail :
      (Q : A → S → Type 0) (E : S → Type 0) (o : Option A) (s : S)
      → ((a : A) → o ≡ some a → Q a s)
      → E s
      → Post Q E (or_fail o s)
  Post-or_fail Q E none s h e = e
  Post-or_fail Q E (some a) s h e = h a refl

  pub Post-if :
      (Q : A → S → Type 0) (E : S → Type 0) (b : Bool) (m n : M S A) (s : S)
      → (b ≡ true → Post Q E (m s))
      → (b ≡ false → Post Q E (n s))
      → Post Q E ((if b then m else n) s)
  Post-if Q E true m n s h k = h refl
  Post-if Q E false m n s h k = k refl

  pub Post-weaken :
      (Q R : A → S → Type 0) (E : S → Type 0) (o : Outcome S A)
      → Post Q E o
      → ((a : A) (s : S) → Q a s → R a s)
      → Post R E o
  Post-weaken Q R E (ok a s) h k = k a s h
  Post-weaken Q R E (err s) h k = h
  Post-weaken Q R E panic h k = tt
  Post-weaken Q R E out_of_fuel h k = h

-- A call on a part of the state leaves the rest alone.
pub Post-zoom :
    {S T A : Type 0} (Q : A → T → Type 0) (get : S → T) (put : T → S → S) (m : M T A) (s : S)
    → Post Q (λ t. ⊥) (m (get s))
    → Post (λ a s'. (t : T) × (s' ≡ put t s) × Q a t) (λ s'. ⊥) (zoom get put m s)
Post-zoom {S} {T} {A} Q get put m s h = go (m (get s)) h
  where
    go :
        (o : Outcome T A)
        → Post Q (λ t. ⊥) o
        → Post
            (λ a s'. (t : T) × (s' ≡ put t s) × Q a t)
            (λ s'. ⊥)
            (elim o [
              | ok a t ↦ ok a (put t s)
              | err t ↦ err (put t s)
              | panic ↦ panic
              | out_of_fuel ↦ out_of_fuel
            ])
    go (ok a t) h = (t, refl, h)
    go (err t) h = h
    go panic h = tt
    go out_of_fuel h = h

pub Post-zoom_err :
    {S T A : Type 0} (Q : A → T → Type 0) (get : S → T) (put : T → S → S) (m : M T A) (s : S)
    → Post Q (λ t. Unit {0}) (m (get s))
    → Post
        (λ a s'. (t : T) × (s' ≡ put t s) × Q a t)
        (λ s'. (t : T) × (s' ≡ put t s))
        (zoom get put m s)
Post-zoom_err {S} {T} {A} Q get put m s h = go (m (get s)) h
  where
    go :
        (o : Outcome T A)
        → Post Q (λ t. Unit {0}) o
        → Post
            (λ a s'. (t : T) × (s' ≡ put t s) × Q a t)
            (λ s'. (t : T) × (s' ≡ put t s))
            (elim o [
              | ok a t ↦ ok a (put t s)
              | err t ↦ err (put t s)
              | panic ↦ panic
              | out_of_fuel ↦ out_of_fuel
            ])
    go (ok a t) h = (t, refl, h)
    go (err t) h = (t, refl)
    go panic h = tt
    go out_of_fuel h = h

-- It returns, fails or panics: a bound for calls without loops on fuel.
abbrev pub Ends : {S A : Type 0} → Outcome S A → Type 0
Ends = Post (λ a s. Unit {0}) (λ s. Unit {0})

pub Post-Ends :
    {S A : Type 0} (Q : A → S → Type 0) (E : S → Type 0) (o : Outcome S A) → Post Q E o → Ends o
Post-Ends Q E (ok a s) h = tt
Post-Ends Q E (err s) h = tt
Post-Ends Q E panic h = tt
Post-Ends Q E out_of_fuel h = h

-- It returns or panics.
abbrev pub Returns : {S A : Type 0} → Outcome S A → Type 0
Returns = Post (λ a s. Unit {0}) (λ s. ⊥)

module _ {S A B : Type 0} where
  pub Ends-bind :
      (m : M S A) (f : A → M S B) (s : S)
      → Ends (m s)
      → ((a : A) (t : S) → Ends (f a t))
      → Ends ((m >>= f) s)
  Ends-bind m f s h k = Post-bind (λ a t. Unit) (λ a t. Unit) (λ t. Unit) m f s h (λ a t u. k a t)

pub Ends-assert : {S : Type 0} (b : Bool) (s : S) → Ends (assert b s)
Ends-assert true s = tt
Ends-assert false s = tt

pub Ends-ensure : {S : Type 0} (b : Bool) (s : S) → Ends (ensure b s)
Ends-ensure true s = tt
Ends-ensure false s = tt

pub Ends-or_panic : {S A : Type 0} (o : Option A) (s : S) → Ends (or_panic o s)
Ends-or_panic none s = tt
Ends-or_panic (some a) s = tt

pub Ends-or_fail : {S A : Type 0} (o : Option A) (s : S) → Ends (or_fail o s)
Ends-or_fail none s = tt
Ends-or_fail (some a) s = tt

pub Ends-if :
    {S A : Type 0} (b : Bool) (m n : M S A) (s : S)
    → Ends (m s)
    → Ends (n s)
    → Ends ((if b then m else n) s)
Ends-if true m n s h k = h
Ends-if false m n s h k = k

pub Returns-assert : {S : Type 0} (b : Bool) (s : S) → Returns (assert b s)
Returns-assert true s = tt
Returns-assert false s = tt
