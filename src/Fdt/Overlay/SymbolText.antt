-- ===== src/Fdt/Overlay/SymbolText.antt =====
-- The values of symbols that libfdt/fdt_overlay.c reads, "/fragment/__overlay__/path".
use dtboverlay.Base.{
  ℕ, ◌+◌, ◌≤◌, ◌≡◌, ◌≢◌, refl, ◌∙◌, ap, List, [], ◌∷◌, ◌++◌, true, false, ◌==◌, arith, length, drop,
  take, leb, All,
}
use dtboverlay.Base.Int.{pos, lt_test}
use dtboverlay.Fdt.Read.{value, Tree, codes, bytes_at, same_bytes}
use dtboverlay.Fdt.Ro.Paths.{component, from_slash}
use dtboverlay.Fdt.Ro.Strings.{IsText, find_byte-separated}
use dtboverlay.Fdt.Overlay.Parse.{merged, symbol_below, parse_symbol}

-- A name without a '/'.
abbrev pub IsName : List ℕ → Type 0
IsName = All (λ (c : ℕ). c ≢ b'/')

component-name : (s tail : List ℕ) → IsName s → component (s ++ b'/' ∷ tail) ≡ s
unfolding component
component-name [] tail h = refl
component-name (c ∷ s) tail h =
    let other : (c == b'/') ≡ false = ground (arith, h.0) in
    rw (other, component-name s tail h.1) refl

from_slash-name : (s tail : List ℕ) → IsName s → from_slash (s ++ b'/' ∷ tail) ≡ b'/' ∷ tail
unfolding from_slash
from_slash-name [] tail h = refl
from_slash-name (c ∷ s) tail h =
    let other : (c == b'/') ≡ false = ground (arith, h.0) in
    rw (other, from_slash-name s tail h.1) refl

take-all : (s tail : List ℕ) → take (length s) (s ++ tail) ≡ s
take-all [] tail = refl
take-all (c ∷ s) tail = ap (λ (l : List ℕ). c ∷ l) (take-all s tail)

All-append : (P : ℕ → Type 0) (xs ys : List ℕ) → All P xs → All P ys → All P (xs ++ ys)
All-append P [] ys hx hy = hy
All-append P (x ∷ xs) ys hx hy = (hx.0, All-append P xs ys hx.1 hy)

-- The value of a symbol: what follows the name of the fragment is `below`, without its '/'.
abbrev pub symbol_text : (frag_name below : List ℕ) → List ℕ
symbol_text frag_name below = b'/' ∷ (frag_name ++ b'/' ∷ below)

module _ (t : Tree) (at : ℕ) (frag_name below tail : List ℕ)
    (placed : drop at t.blob.bytes ≡ symbol_text frag_name below ++ 0 ∷ tail)
    (inside : at + length (symbol_text frag_name below) ≤ length t.blob.bytes)
    (named : IsName frag_name) (text : IsText frag_name) (text' : IsText below) where
  parse_symbol-text :
      parse_symbol t at (pos (length (symbol_text frag_name below) + 1))
      ≡ value (symbol_below frag_name (b'/' ∷ below))
  unfolding parse_symbol bytes_at
  parse_symbol-text =
      let w = symbol_text frag_name below in
      let long : lt_test (pos (length w + 1)) (pos 1) ≡ false = ground arith in
      let last : (length w + 1 == length w + 1) ≡ true = ground arith in
      let room : leb (at + length w) (length t.blob.bytes) ≡ true = ground (arith, inside) in
      let whole : IsText w = (
        (λ e. absurd (omega (arith, e))),
        All-append (λ (c : ℕ). c ≢ 0) frag_name (b'/' ∷ below) text
            ((λ e. absurd (omega (arith, e))), text'),
      ) in
      rw
        (
          long,
          placed,
          find_byte-separated 0 w tail (length w + 1) whole (omega arith),
          last,
          room,
          placed,
          take-all (frag_name ++ b'/' ∷ below) (0 ∷ tail),
          component-name frag_name below named,
          from_slash-name frag_name below named,
        )
        refl

  -- If the value of a symbol is '/', a name without a '/' or a 0, "/__overlay__/" and a text
  -- without a 0, ends in a 0, and lies in the blob, then `overlay_symbol_update` takes the name for
  -- that of the fragment and the text for the path below its overlay.
  pub parse_symbol-merged :
      (rel : List ℕ)
      → below ≡ codes "__overlay__/" ++ rel
      → parse_symbol t at (pos (length (symbol_text frag_name below) + 1))
        ≡ value (merged frag_name rel)
  unfolding symbol_below same_bytes
  parse_symbol-merged rel e =
      parse_symbol-text
      ∙ rw e (
          let more : leb 13 (length (codes "/__overlay__/" ++ rel)) ≡ true = ground arith in
          rw more refl)
