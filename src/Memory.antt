-- ===== src/Memory.antt =====
-- An allocated object as the code sees it: an address and the bytes that may be read from there.
use dtboverlay.Base.{
  ℕ, ◌<◌, ◌≤◌, ◌≡◌, none, some, List, arith, length, get_elem?, get_or, ◌⊎◌, inl, inr,
  get_elem?-get_or, get_elem?-none, All, All-get_or,
}
use native.Mathlib.Decide.{dec_lt}
use dtboverlay.Base.Control.{Stmt, next, fault}

pub record Buffer : Type 0 where
  pub addr : ℕ
  pub bytes : List ℕ

-- Every element is a byte.
abbrev pub IsBytes : List ℕ → Type 0
IsBytes = All (λ x. x < 256)

-- `((const u8 *)fdt)[i]`, a fault outside the object.
unfoldable pub load8 : {S R : Type 0} → Buffer → ℕ → Stmt S R ℕ
load8 b i s = elim (get_elem? b.bytes i) [ none ↦ fault | some v ↦ next v s ]

-- The byte at an offset, for specifications.
abbrev pub byte : List ℕ → ℕ → ℕ
byte xs i = get_or xs i 0

module _ {S R : Type 0} (b : Buffer) (i : ℕ) (s : S) where
  pub load8-next : i < length b.bytes → load8 {S = S} {R = R} b i s ≡ next (byte b.bytes i) s
  unfolding load8
  load8-next h = rw (get_elem?-get_or b.bytes i 0 h, load8)

  pub load8-fault : length b.bytes ≤ i → load8 {S = S} {R = R} b i s ≡ fault
  unfolding load8
  load8-fault h = rw (get_elem?-none b.bytes i h, load8)

  pub load8-cases :
      (i < length b.bytes) × (load8 {S = S} {R = R} b i s ≡ next (byte b.bytes i) s)
      ⊎ (length b.bytes ≤ i) × (load8 {S = S} {R = R} b i s ≡ fault)
  load8-cases = elim (dec_lt i (length b.bytes)) [
    | yes h ↦ inl (h, load8-next h)
    | no h ↦ inr (omega arith, load8-fault (omega arith))
  ]

pub byte_bounds : (xs : List ℕ) (i : ℕ) → IsBytes xs → byte xs i < 256
byte_bounds xs i h = All-get_or (λ (x : ℕ). x < 256) xs i (omega arith) h
