-- ===== src/Fdt/Write/Keeps.antt =====
-- Statements that keep a property of the state, with a rule for each way to build one.
use dtboverlay.Base.{
  ℕ, ◌+◌, ◌≡◌, List, Option, none, some, Bool, true, false, if◌then◌else◌, length, leb,
}
use mathlib.Core.Path.{subst}
use dtboverlay.Fdt.Read.{Read, value, outside, spent, Tree}
use dtboverlay.Fdt.Write.{
  Step, continue, keep, ◌>>=◌, pure, reading, overwrite, with_bytes, store_bytes,
}
use dtboverlay.Fdt.Write.Bytes.{length-overwrite}

module _ {S A : Type 0} (P : S → Type 0) where
  -- The state after a statement that returns.
  abbrev pub Holds : Read (A × S) → Type 0
  Holds (value r) = P r.1
  Holds outside = Unit
  Holds spent = Unit

  pub record Keeps (m : Step S A) : Type 0 where
    pub at : (s : S) → P s → Holds (m s)

Holds-if :
    {S A : Type 0} (P : S → Type 0) (c : Bool) (m n : Read (A × S))
    → Holds P m
    → Holds P n
    → Holds P (if c then m else n)
Holds-if P true m n hm hn = hm
Holds-if P false m n hm hn = hn

Holds-keep : {S A : Type 0} (P : S → Type 0) (r : Read A) (s : S) → P s → Holds P (keep r s)
Holds-keep P (value a) s h = h
Holds-keep P outside s h = tt
Holds-keep P spent s h = tt

module _ {S : Type 0} {P : S → Type 0} where
  Holds-continue :
      {A B : Type 0} (r : Read (A × S)) (k : A → Step S B)
      → Holds P r
      → ((a : A) → Keeps P (k a))
      → Holds P (continue r k)
  Holds-continue (value r) k h hk = (hk r.0).at r.1 h
  Holds-continue outside k h hk = tt
  Holds-continue spent k h hk = tt

  pub bind-Keeps :
      {A B : Type 0} (m : Step S A) (k : A → Step S B)
      → Keeps P m
      → ((a : A) → Keeps P (k a))
      → Keeps P (m >>= k)
  bind-Keeps m k hm hk = record { at = λ s h. Holds-continue (m s) k (hm.at s h) hk }

  -- What follows a value that may be missing, alone or with others.
  pub bind_option-Keeps :
      {A B : Type 0} (m : Step S (Option A)) (k : Option A → Step S B)
      → Keeps P m
      → Keeps P (k none)
      → ((a : A) → Keeps P (k (some a)))
      → Keeps P (m >>= k)
  bind_option-Keeps m k hm absent present =
      bind-Keeps m k hm λ o. elim o as (λ x. Keeps P (k x)) [ none ↦ absent | some a ↦ present a ]

  pub bind_found-Keeps :
      {A B C : Type 0} (m : Step S (Option A × B)) (k : Option A × B → Step S C)
      → Keeps P m
      → ((b : B) → Keeps P (k (none, b)))
      → ((a : A) (b : B) → Keeps P (k (some a, b)))
      → Keeps P (m >>= k)
  bind_found-Keeps m k hm absent present =
      bind-Keeps m k hm
        λ r. elim r.0 as (λ x. Keeps P (k (x, r.1))) [ none ↦ absent r.1 | some a ↦ present a r.1 ]

  pub bind_found_named-Keeps :
      {A B C D : Type 0} (m : Step S (Option A × B × C)) (k : Option A × B × C → Step S D)
      → Keeps P m
      → ((b : B) (c : C) → Keeps P (k (none, b, c)))
      → ((a : A) (b : B) (c : C) → Keeps P (k (some a, b, c)))
      → Keeps P (m >>= k)
  bind_found_named-Keeps m k hm absent present = bind-Keeps m k hm λ r.
      elim r.0 as (λ x. Keeps P (k (x, r.1, r.2))) [
        | none ↦ absent r.1 r.2
        | some a ↦ present a r.1 r.2
      ]

  pub pure-Keeps : {A : Type 0} (a : A) → Keeps P (pure a)
  pure-Keeps a = record { at = λ s h. h }

  pub reading-Keeps : {A : Type 0} (m : S → Read A) → Keeps P (reading m)
  reading-Keeps m = record { at = λ s h. Holds-keep P (m s) s h }

  pub if-Keeps :
      {A : Type 0} (c : Bool) (m n : Step S A)
      → Keeps P m
      → Keeps P n
      → Keeps P (if c then m else n)
  if-Keeps true m n hm hn = hm
  if-Keeps false m n hm hn = hn

  pub outside-Keeps : {A : Type 0} → Keeps {A = A} P (λ s. outside)
  outside-Keeps = record { at = λ s h. tt }

  pub spent-Keeps : {A : Type 0} → Keeps {A = A} P (λ s. spent)
  spent-Keeps = record { at = λ s h. tt }

-- The state after a statement that keeps `P` and returned.
pub Keeps-value :
    {S A : Type 0} {P : S → Type 0} {m : Step S A} {s s' : S} {a : A}
    → Keeps P m
    → m s ≡ value (a, s')
    → P s
    → P s'
Keeps-value {P = P} {s = s} h e hs = subst (Holds P) e (h.at s hs)

-- What no write changes: the mask of the build, where the blob lies, and how long its buffer is.
abbrev pub shape : Tree → ℕ × ℕ × ℕ
shape t = (t.assumed, t.blob.addr, length t.blob.bytes)

abbrev pub HasShape : ℕ × ℕ × ℕ → Tree → Type 0
HasShape z t = shape t ≡ z

module _ {z : ℕ × ℕ × ℕ} where
  pub store_bytes-Keeps : (p : ℕ) (ys : List ℕ) → Keeps (HasShape z) (store_bytes p ys)
  unfolding store_bytes
  store_bytes-Keeps p ys = record {
    at = λ t h.
        Holds-if (HasShape z) (leb (p + length ys) (length t.blob.bytes))
          (value (tt, with_bytes t (overwrite p ys t.blob.bytes))) outside
          (rw (length-overwrite p ys t.blob.bytes) h) tt;
  }

pub ruleset keeps_rules = (
  bind_found_named-Keeps, bind_found-Keeps, bind_option-Keeps, bind-Keeps, pure-Keeps,
  reading-Keeps, if-Keeps, outside-Keeps, spent-Keeps, store_bytes-Keeps,
)
