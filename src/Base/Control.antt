-- ===== src/Base/Control.antt =====
-- C functions as commands over a state: each statement goes on with a new state, returns from the
-- function early, or faults (a read outside every object, a call through a null pointer).
use mathlib.Core.Bool.{Bool, true, false}
use mathlib.Core.Option.{Option, none, some}
use mathlib.Core.Logic.{◌⊎◌, inl, inr}
use mathlib.Core.Path.{◌≡◌, refl}

-- `next` goes on with the statement that follows, `exit` is an early `return`.
pub data Run (S R A : Type 0) : Type 0 where
  next : A → S → Run S R A
  exit : R → S → Run S R A
  fault : Run S R A

-- A statement of a function that returns an `R`.
abbrev pub Stmt : Type 0 → Type 0 → Type 0 → Type 0
Stmt S R A = S → Run S R A

module _ {S R : Type 0} where
  abbrev pub pure : {A : Type 0} → A → Stmt S R A
  pure a s = next a s

  abbrev pub exit_with : {A : Type 0} → R → Stmt S R A
  exit_with r s = exit r s

  abbrev pub crash : {A : Type 0} → Stmt S R A
  crash s = fault

  abbrev pub and_then : {A B : Type 0} → Run S R A → (A → Stmt S R B) → Run S R B
  and_then (next a s) k = k a s
  and_then (exit r s) k = exit r s
  and_then fault k = fault

  infixl 5 ◌>>=◌ ◌>>◌
  abbrev pub ◌>>=◌ : {A B : Type 0} → Stmt S R A → (A → Stmt S R B) → Stmt S R B
  m >>= k = λ s. and_then (m s) k

  abbrev pub ◌>>◌ : {A B : Type 0} → Stmt S R A → Stmt S R B → Stmt S R B
  m >> n = m >>= λ _. n

  -- `if (c) return r;`
  abbrev pub exit_if : Bool → R → Stmt S R (Unit {0})
  exit_if true r = exit_with r
  exit_if false r = pure tt

  -- `if (c) m`
  abbrev pub when : Bool → Stmt S R (Unit {0}) → Stmt S R (Unit {0})
  when true m = m
  when false m = pure tt

  -- `a || b`, where `b` is evaluated only if `a` does not hold.
  abbrev pub or_else : Stmt S R Bool → Stmt S R Bool → Stmt S R Bool
  or_else m n = do b ← m; elim b [ true ↦ pure true | false ↦ n ]

-- A call of a function: its `return` is the value at the place of the call.
abbrev pub finish : {S R Q : Type 0} → Run S R R → Run S Q R
finish (next r s) = next r s
finish (exit r s) = next r s
finish fault = fault

-- What a run of a function gives back; `none` is a fault.
abbrev pub outcome : {S R : Type 0} → Run S R R → Option R
outcome (next r s) = some r
outcome (exit r s) = some r
outcome fault = none

-- The state that a run leaves behind; `none` is a fault.
abbrev pub final : {S R A : Type 0} → Run S R A → Option S
final (next a s) = some s
final (exit r s) = some s
final fault = none

-- If a sequence goes through, so did its first part.
pub and_then-next :
    {S R A B : Type 0} (m : Run S R A) (k : A → Stmt S R B) {b : B} {s' : S}
    → and_then m k ≡ next b s'
    → (a : A) × (s : S) × (m ≡ next a s) × (k a s ≡ next b s')
and_then-next (next a s) k h = (a, s, refl, h)
and_then-next (exit r s) k h = cc
and_then-next fault k h = cc

-- A run that goes on or faults, and does not return early.
abbrev pub Goes : {S R A : Type 0} → Run S R A → Type 0
Goes {S} {A = A} r = ((a : A) × (s : S) × (r ≡ next a s)) ⊎ (r ≡ fault)

pub and_then-Goes :
    {S R A B : Type 0} (m : Run S R A) (k : A → Stmt S R B)
    → Goes m
    → ((a : A) (s : S) → Goes (k a s))
    → Goes (and_then m k)
and_then-Goes (next a s) k h later = later a s
and_then-Goes (exit r s) k (inl (a, s', e)) later = absurd (cc e)
and_then-Goes (exit r s) k (inr e) later = absurd (cc e)
and_then-Goes fault k h later = inr refl

-- A called function gives its result back at the place of the call.
pub finish-Goes : {S R Q : Type 0} (r : Run S R R) → Goes (finish {Q = Q} r)
finish-Goes (next a s) = inl (a, s, refl)
finish-Goes (exit a s) = inl (a, s, refl)
finish-Goes fault = inr refl

-- A run that does not return early and gives a result ends with its last statement.
pub Goes-outcome :
    {S R : Type 0} {r : Run S R R} {a : R} → Goes r → outcome r ≡ some a → (s : S) × (r ≡ next a s)
Goes-outcome (inl (a', s', e)) out = (s', (let same = rw e at out in cc (e, same)))
Goes-outcome (inr e) out = absurd (let none = rw e at out in cc none)

pub Goes-final :
    {S R : Type 0} {r : Run S R R} {a : R} {s : S}
    → Goes r
    → outcome r ≡ some a
    → final r ≡ some s
    → r ≡ next a s
Goes-final goes out fin =
    let (s', e) = Goes-outcome goes out in let same = rw e at fin in cc (e, same)
