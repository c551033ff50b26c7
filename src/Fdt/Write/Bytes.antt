-- ===== src/Fdt/Write/Bytes.antt =====
-- The bytes of a blob after some were overwritten.
use dtboverlay.Base.{
  ℕ, zero, suc, ◌+◌, ◌<◌, ◌≤◌, ◌≡◌, ◌≢◌, ◌⊎◌, inl, inr, ap, refl, ◌∙◌, List, [], ◌∷◌, arith, length,
  set,
}
use dtboverlay.Memory.{IsBytes, byte}
use dtboverlay.Fdt.Word.{word}
use dtboverlay.Fdt.Encode.{put32, split_bytes}
use dtboverlay.Fdt.Write.{overwrite}

length-set : (xs : List ℕ) (i v : ℕ) → length (set xs i v) ≡ length xs
length-set [] i v = refl
length-set (x ∷ xs) zero v = refl
length-set (x ∷ xs) (suc i) v = ap suc (length-set xs i v)

set-IsBytes : (xs : List ℕ) (i v : ℕ) → v < 256 → IsBytes xs → IsBytes (set xs i v)
set-IsBytes [] i v hv h = tt
set-IsBytes (x ∷ xs) zero v hv h = (hv, h.1)
set-IsBytes (x ∷ xs) (suc i) v hv h = (h.0, set-IsBytes xs i v hv h.1)

byte-set : (xs : List ℕ) (i v j : ℕ) → i ≢ j → byte (set xs i v) j ≡ byte xs j
byte-set [] i v j h = refl
byte-set (x ∷ xs) zero v zero h = absurd (h refl)
byte-set (x ∷ xs) zero v (suc j) h = refl
byte-set (x ∷ xs) (suc i) v zero h = refl
byte-set (x ∷ xs) (suc i) v (suc j) h = byte-set xs i v j (λ e. h (ap suc e))

byte-set_same : (xs : List ℕ) (i v : ℕ) → i < length xs → byte (set xs i v) i ≡ v
byte-set_same [] i v h = absurd (omega arith)
byte-set_same (x ∷ xs) zero v h = refl
byte-set_same (x ∷ xs) (suc i) v h = byte-set_same xs i v (omega arith)

pub length-overwrite : (p : ℕ) (ys xs : List ℕ) → length (overwrite p ys xs) ≡ length xs
length-overwrite p [] xs = refl
length-overwrite p (y ∷ ys) xs = length-overwrite (suc p) ys (set xs p y) ∙ length-set xs p y

pub overwrite-IsBytes :
    (p : ℕ) (ys xs : List ℕ) → IsBytes ys → IsBytes xs → IsBytes (overwrite p ys xs)
overwrite-IsBytes p [] xs hy hx = hx
overwrite-IsBytes p (y ∷ ys) xs hy hx =
    overwrite-IsBytes (suc p) ys (set xs p y) hy.1 (set-IsBytes xs p y hy.0 hx)

-- A byte that is not overwritten.
pub byte-overwrite :
    (p : ℕ) (ys xs : List ℕ) (i : ℕ)
    → (i < p) ⊎ (p + length ys ≤ i)
    → byte (overwrite p ys xs) i ≡ byte xs i
byte-overwrite p [] xs i side = refl
byte-overwrite p (y ∷ ys) xs i (inl low) =
    byte-overwrite (suc p) ys (set xs p y) i (inl (omega arith)) ∙ byte-set xs p y i (omega arith)
byte-overwrite p (y ∷ ys) xs i (inr high) =
    byte-overwrite (suc p) ys (set xs p y) i (inr (omega arith)) ∙ byte-set xs p y i (omega arith)

pub word-overwrite :
    (p : ℕ) (ys xs : List ℕ) (q : ℕ)
    → (q + 4 ≤ p) ⊎ (p + length ys ≤ q)
    → word (overwrite p ys xs) q ≡ word xs q
unfolding word
word-overwrite p ys xs q (inl low) = rw (
  byte-overwrite p ys xs q (inl (omega arith)),
  byte-overwrite p ys xs (q + 1) (inl (omega arith)),
  byte-overwrite p ys xs (q + 2) (inl (omega arith)),
  byte-overwrite p ys xs (q + 3) (inl (omega arith)),
)
word-overwrite p ys xs q (inr high) = rw (
  byte-overwrite p ys xs q (inr (omega arith)),
  byte-overwrite p ys xs (q + 1) (inr (omega arith)),
  byte-overwrite p ys xs (q + 2) (inr (omega arith)),
  byte-overwrite p ys xs (q + 3) (inr (omega arith)),
)

-- A byte that was written.
pub byte-written :
    (p : ℕ) (ys xs : List ℕ) (i : ℕ)
    → p + length ys ≤ length xs
    → i < length ys
    → byte (overwrite p ys xs) (p + i) ≡ byte ys i
byte-written p [] xs i h low = absurd (omega arith)
byte-written p (y ∷ ys) xs zero h low =
    ap (byte (overwrite (suc p) ys (set xs p y))) (let e : p + zero ≡ p = omega arith in e)
    ∙ byte-overwrite (suc p) ys (set xs p y) p (inl (omega arith))
    ∙ byte-set_same xs p y (omega arith)
byte-written p (y ∷ ys) xs (suc i) h low =
    ap (byte (overwrite (suc p) ys (set xs p y))) (let e : p + suc i ≡ suc p + i = omega arith in e)
    ∙ byte-written (suc p) ys (set xs p y) i (omega (arith, length-set xs p y)) (omega arith)

-- A number that was written is read back.
pub word-written :
    (p v : ℕ) (xs : List ℕ) → p + 4 ≤ length xs → word (overwrite p (put32 v []) xs) p ≡ v
unfolding word put32
word-written p v xs h =
    let ys = put32 v [] in
    rw
      (
        ap (byte (overwrite p ys xs)) (let e : p ≡ p + 0 = omega arith in e)
            ∙ byte-written p ys xs 0 h (omega arith),
        byte-written p ys xs 1 h (omega arith),
        byte-written p ys xs 2 h (omega arith),
        byte-written p ys xs 3 h (omega arith),
      )
      (split_bytes v)
