-- ===== src/Fdt/Read.antt =====
-- What the functions of libfdt that only read are made of. A pointer into the blob is the number of
-- bytes from its start.
use Prim.Native.Char.{code}
use dtboverlay.Base.{
  ℕ, zero, suc, ◌+◌, ◌-◌, ◌*◌, ◌%◌, ◌^◌, String, List, [], ◌∷◌, Option, none, some, Bool, true,
  false, ◌&&◌, ◌==◌, if◌then◌else◌, length, drop, take, leb, ltb,
}
use dtboverlay.Base.Int.{ℤ, pos, negsuc}
use dtboverlay.Base.Control.{Run, next, exit, fault}
use dtboverlay.Memory.{Buffer, load8}
use dtboverlay.Fdt.Assume.{Assumption, latest, can_assume}
use dtboverlay.Fdt.Constants.{FdtErr, failure}
use dtboverlay.Fdt.Header.{Field, version, off_dt_struct, fdt32_ld, fdt_get_header}

-- A value, a read outside the blob or through a null pointer, or a loop that went on for longer than
-- the fuel.
pub data Read (A : Type 0) : Type 0 where
  value : A → Read A
  outside : Read A
  spent : Read A

infixl 5 ◌>>=◌
abbrev pub ◌>>=◌ : {A B : Type 0} → Read A → (A → Read B) → Read B
value a >>= k = k a
outside >>= k = outside
spent >>= k = spent

abbrev pub of_run : {A : Type 0} → Run (Unit {0}) A A → Read A
of_run (next a s) = value a
of_run (exit a s) = value a
of_run fault = outside

-- `p && q`, `p || q`
abbrev pub both : Read Bool → Read Bool → Read Bool
both p q = p >>= λ c. elim c [ true ↦ q | false ↦ value false ]

abbrev pub either : Read Bool → Read Bool → Read Bool
either p q = p >>= λ c. elim c [ true ↦ value true | false ↦ q ]

-- A blob, the FDT_ASSUME_MASK of the build, what `fdt_ro_probe_` returns for the blob, and the rounds
-- that a loop may take.
pub record Tree : Type 0 where
  pub assumed : ℕ
  pub blob : Buffer
  pub ro_probe : ℤ
  pub fuel : ℕ

-- A pointer that may be null, with the `int` that comes with it: a length, or an error.
abbrev pub Found : Type 0
Found = Option ℕ × ℤ

abbrev pub missing : ℤ → Found
missing e = (none, e)

-- A `return` of an error.
abbrev pub fail_with : FdtErr → Read ℤ
fail_with e = value (failure e)

-- The bytes of a text.
abbrev pub codes : String → List ℕ
codes String.[] = []
codes (String.◌∷◌ c s) = code c ∷ codes s

-- Pointer arithmetic; below the start of the blob it wraps.
abbrev pub add_int : ℕ → ℤ → ℕ
add_int p (pos k) = p + k
add_int p (negsuc k) = (p + 2 ^ 64 - suc k) % 2 ^ 64

module _ (t : Tree) where
  abbrev pub assumes : Assumption → Bool
  assumes a = can_assume t.assumed a

  abbrev pub header : Field → Read ℕ
  header f = of_run (fdt_get_header t.blob f tt)

  -- `!can_assume(LATEST) && fdt_version(fdt) < 0x10`
  unfoldable pub is_old : Read Bool
  is_old = if assumes latest then value false else do v ← header version; value (ltb v 0x10)

  abbrev pub read8 : ℕ → Read ℕ
  read8 p = of_run (load8 t.blob p tt)

  -- fdt32_ld_
  abbrev pub read32 : ℕ → Read ℕ
  read32 p = of_run (fdt32_ld t.blob p tt)

  -- fdt64_ld_
  unfoldable pub read64 : ℕ → Read ℕ
  read64 p = do high ← read32 p; low ← read32 (p + 4); value (high * 2 ^ 32 + low)

  -- fdt_offset_ptr_
  unfoldable pub fdt_offset_ptr_ : ℤ → Read ℕ
  fdt_offset_ptr_ offset = do base ← header off_dt_struct; value (add_int base offset)

-- A null pointer is not read.
abbrev pub non_null : {A : Type 0} → Option ℕ → (ℕ → Read A) → Read A
non_null none k = outside
non_null (some p) k = k p

-- The bytes before the first 0; without one, a read past the end.
unfoldable pub until_nul : List ℕ → Read (List ℕ)
until_nul [] = outside
until_nul (c ∷ cs) =
    let rest = (do s ← until_nul cs; value (c ∷ s)) in if c == 0 then value [] else rest

-- `memchr(s, c, n)`, as the number of bytes before `c`.
unfoldable pub find_byte : ℕ → List ℕ → ℕ → Read (Option ℕ)
find_byte c cs zero = value none
find_byte c [] (suc n) = outside
find_byte c (x ∷ cs) (suc n) =
    let rest = (do k ← find_byte c cs n; value (elim k [ none ↦ none | some i ↦ some (suc i) ])) in
    if x == c then value (some 0) else rest

-- Two runs of as many bytes are equal.
unfoldable pub same_bytes : List ℕ → List ℕ → Bool
same_bytes [] [] = true
same_bytes [] (y ∷ ys) = false
same_bytes (x ∷ xs) [] = false
same_bytes (x ∷ xs) (y ∷ ys) = x == y && same_bytes xs ys

module _ (t : Tree) where
  -- The C string at a pointer.
  abbrev pub string_at : ℕ → Read (List ℕ)
  string_at p = until_nul (drop p t.blob.bytes)

  -- memchr(p, c, n)
  abbrev pub memchr : ℕ → ℕ → ℕ → Read (Option ℕ)
  memchr p c n = find_byte c (drop p t.blob.bytes) n

  -- `n` bytes from a pointer.
  unfoldable pub bytes_at : ℕ → ℕ → Read (List ℕ)
  bytes_at p n =
      if leb (p + n) (length t.blob.bytes) then value (take n (drop p t.blob.bytes)) else outside

  -- `memcmp(p, s, n) == 0`, with `n` bytes at `s`.
  unfoldable pub memcmp_equal : ℕ → List ℕ → Read Bool
  unfolding bytes_at
  memcmp_equal p s = do xs ← bytes_at p (length s); value (same_bytes xs s)
