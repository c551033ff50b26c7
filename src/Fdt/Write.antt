-- ===== src/Fdt/Write.antt =====
-- What the functions of libfdt that write a blob are made of.
pub mod Bytes
pub mod Keeps
use dtboverlay.Base.{
  ℕ, zero, suc, ◌+◌, ◌-◌, ◌*◌, ◌/◌, ◌%◌, ◌^◌, List, [], ◌∷◌, ◌++◌, Option, none, some, Bool, true,
  false, if◌then◌else◌, length, set, leb,
}
use dtboverlay.Base.Int.{ℤ, pos, negsuc}
use dtboverlay.Memory.{Buffer}
use dtboverlay.Fdt.Constants.{FdtErr, failure}
use dtboverlay.Fdt.Header.{Field, offset_of}
use dtboverlay.Fdt.Encode.{put32}
use dtboverlay.Fdt.Read.{Read, value, outside, spent, Tree, header, read32, add_int, bytes_at}

-- A statement over the state `S`, with the state after it.
abbrev pub Step : Type 0 → Type 0 → Type 0
Step S A = S → Read (A × S)

-- A statement over the blob.
abbrev pub Edit : Type 0 → Type 0
Edit A = Step Tree A

-- What goes on after a statement, and the state after a read.
abbrev pub continue : {S A B : Type 0} → Read (A × S) → (A → Step S B) → Read (B × S)
continue (value r) k = k r.0 r.1
continue outside k = outside
continue spent k = spent

abbrev pub keep : {S A : Type 0} → Read A → S → Read (A × S)
keep (value a) s = value (a, s)
keep outside s = outside
keep spent s = spent

infixl 5 ◌>>=◌
abbrev pub ◌>>=◌ : {S A B : Type 0} → Step S A → (A → Step S B) → Step S B
(m >>= k) s = continue (m s) k

infixl 5 ◌>>◌
abbrev pub ◌>>◌ : {S A B : Type 0} → Step S A → Step S B → Step S B
m >> k = m >>= λ _. k

abbrev pub pure : {S A : Type 0} → A → Step S A
pure a s = value (a, s)

abbrev pub reading : {S A : Type 0} → (S → Read A) → Step S A
reading m s = keep (m s) s

-- A `return` of an error.
abbrev pub refuse : FdtErr → Edit ℤ
refuse e = pure (failure e)

-- The bytes after `ys` were copied to the place `p`, one after the other.
abbrev pub overwrite : ℕ → List ℕ → List ℕ → List ℕ
overwrite p [] xs = xs
overwrite p (y ∷ ys) xs = overwrite (suc p) ys (set xs p y)

abbrev pub with_bytes : Tree → List ℕ → Tree
with_bytes t xs = record t { blob = record { addr = t.blob.addr; bytes = xs } }

-- memcpy(p, ys, …)
unfoldable pub store_bytes : ℕ → List ℕ → Edit (Unit {0})
store_bytes p ys t =
    if leb (p + length ys) (length t.blob.bytes)
    then value (tt, with_bytes t (overwrite p ys t.blob.bytes))
    else outside

-- `*p = cpu_to_fdt32(v)` and `*p = cpu_to_fdt64(v)`
abbrev pub store32 : ℕ → ℕ → Edit (Unit {0})
store32 p v = store_bytes p (put32 (v % 2 ^ 32) [])

abbrev pub store64 : ℕ → ℕ → Edit (Unit {0})
store64 p v = store_bytes p (put32 (v / 2 ^ 32 % 2 ^ 32) (put32 (v % 2 ^ 32) []))

-- The setters of the header.
abbrev pub set_header : Field → ℕ → Edit (Unit {0})
set_header f v = store32 (offset_of f) v

abbrev pub get_header : Field → Edit ℕ
get_header f = reading (λ t. header t f)

abbrev pub load32 : ℕ → Edit ℕ
load32 p = reading (λ t. read32 t p)

-- memmove(q, p, n)
abbrev pub move_bytes : (q p n : ℕ) → Edit (Unit {0})
move_bytes q p n = reading (λ t. bytes_at t p n) >>= λ xs. store_bytes q xs

-- `a - b` and `a + b` for two `unsigned int`
abbrev pub minus32 : ℕ → ℕ → ℕ
minus32 a b = (a + 2 ^ 32 - b) % 2 ^ 32

abbrev pub plus32 : ℕ → ℕ → ℕ
plus32 a b = (a + b) % 2 ^ 32

-- `p - n` for a pointer
abbrev pub below : ℕ → ℕ → ℕ
below p n = (p + 2 ^ 64 - n) % 2 ^ 64

-- An `int` as a `size_t`
abbrev pub to_size : ℤ → ℕ
to_size (pos n) = n
to_size (negsuc n) = 2 ^ 64 - 1 - n

-- FDT_TAGALIGN on a `size_t`
abbrev pub tag_align_size : ℕ → ℕ
tag_align_size n = (n + 3) % 2 ^ 64 / 4 * 4
