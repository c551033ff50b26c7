-- ===== src/Fdt/Rw/Moves.antt =====
-- Which bytes `fdt_splice_` of libfdt/fdt_rw.c moves.
use dtboverlay.Base.{
  ℕ, zero, suc, ◌+◌, ◌-◌, ◌%◌, ◌^◌, ◌<◌, ◌≤◌, ◌≡◌, ◌⊎◌, inl, inr, refl, ◌∙◌, ap, List, [], ◌∷◌,
  true, false, Bool-cases, arith, length, drop, take, leb, ltb,
}
use dtboverlay.Base.Int.{pos}
use dtboverlay.Memory.{byte}
use dtboverlay.Fdt.Constants.{failure, badoffset, nospace}
use dtboverlay.Fdt.Header.{totalsize, off_dt_strings, size_dt_strings}
use dtboverlay.Fdt.Layout.{field, HasHeader}
use dtboverlay.Fdt.Read.{value, Tree, bytes_at}
use dtboverlay.Fdt.Write.{store_bytes, with_bytes, overwrite, plus32}
use dtboverlay.Fdt.Sw.Room.{header-value}
use dtboverlay.Fdt.Wip.Inplace.{overwrite-IsReplaced}
use dtboverlay.Fdt.Rw.Splice.{fdt_data_size_, fdt_splice_}

length-part : (xs : List ℕ) (a n : ℕ) → a + n ≤ length xs → length (take n (drop a xs)) ≡ n
length-part xs a zero h = refl
length-part [] a (suc n) h = absurd (omega arith)
length-part (x ∷ xs) zero (suc n) h = ap suc (length-part xs zero n (omega arith))
length-part (x ∷ xs) (suc a) (suc n) h = length-part xs a (suc n) (omega arith)

byte-part :
    (xs : List ℕ) (a n i : ℕ)
    → i < n
    → a + n ≤ length xs
    → byte (take n (drop a xs)) i ≡ byte xs (a + i)
byte-part xs a zero i low h = absurd (omega arith)
byte-part [] a (suc n) i low h = absurd (omega arith)
byte-part (x ∷ xs) zero (suc n) zero low h = refl
byte-part (x ∷ xs) zero (suc n) (suc i) low h =
    byte-part xs zero n i (omega arith) (omega arith)
    ∙ ap (byte (x ∷ xs)) (let e : suc (zero + i) ≡ zero + suc i = omega arith in e)
byte-part (x ∷ xs) (suc a) (suc n) i low h =
    byte-part xs a (suc n) i low (omega arith)
    ∙ ap (byte (x ∷ xs)) (let e : suc (a + i) ≡ suc a + i = omega arith in e)

-- Where the data of a blob ends.
abbrev pub data_end : Tree → ℕ
data_end t = plus32 (field t.blob.bytes off_dt_strings) (field t.blob.bytes size_dt_strings)

module _ (t : Tree) (p old new : ℕ) where
  -- What follows `old` bytes at `p` is moved so that it follows `new` bytes, the bytes are not in the
  -- data, or the total size is too small.
  pub data SpliceResult : Type 0 where
    spliced :
        (t' : Tree)
        → p + old ≤ data_end t
        → data_end t + new ≤ field t.blob.bytes totalsize + old
        → fdt_splice_ p (pos old) (pos new) t ≡ value (pos 0, t')
        → ((i : ℕ)
            → i < data_end t - (p + old)
            → byte t'.blob.bytes (p + new + i) ≡ byte t.blob.bytes (p + old + i))
        → ((i : ℕ)
            → (i < p + new) ⊎ (data_end t + new ≤ i + old)
            → byte t'.blob.bytes i ≡ byte t.blob.bytes i)
        → SpliceResult
    misplaced :
        data_end t < p + old
        → fdt_splice_ p (pos old) (pos new) t ≡ value (failure badoffset, t)
        → SpliceResult
    full :
        p + old ≤ data_end t
        → field t.blob.bytes totalsize + old < data_end t + new
        → fdt_splice_ p (pos old) (pos new) t ≡ value (failure nospace, t)
        → SpliceResult

  module _ (has : HasHeader t.blob) (total : field t.blob.bytes totalsize ≤ length t.blob.bytes)
      (ends : data_end t ≤ length t.blob.bytes) (small : data_end t < 2 ^ 31) (hp : p < 2 ^ 31)
      (hold : old < 2 ^ 31) (hnew : new < 2 ^ 31) where
    -- In a blob of bytes with a whole header, whose total size and end of data lie in the buffer,
    -- with the end of data below 2 ^ 31, and for a place and two lengths below 2 ^ 31,
    -- `fdt_splice_` returns BADOFFSET and writes nothing if the old bytes do not lie before the end
    -- of data, returns NOSPACE and writes nothing if the data would pass the total size, and
    -- otherwise returns 0, what followed the old bytes now follows as many new ones, and every byte
    -- before and behind is as it was.
    pub fdt_splice_-SpliceResult : SpliceResult
    unfolding fdt_splice_ fdt_data_size_ bytes_at store_bytes
    fdt_splice_-SpliceResult =
        let d : ℕ = data_end t in
        let xs = t.blob.bytes in
        let end : (p + old) % 2 ^ 64 ≡ p + old = omega arith in
        let ahead : ltb (p + old) p ≡ false = ground arith in
        let low : leb (2 ^ 63) p ≡ false = ground arith in
        let h0 = header-value t has off_dt_strings in
        let h1 = header-value t has size_dt_strings in
        let h2 = header-value t has totalsize in
        elim (Bool-cases (ltb d (p + old))) [
          | inl over ↦ misplaced (ground arith) (rw (h0, h1, end, ahead, over) refl)
          | inr fits ↦
              let fit : p + old ≤ d = ground arith in
              let grown : ltb ((d + new % 2 ^ 32) % 2 ^ 32) old ≡ false = ground (arith, fit) in
              let size : ((d + 2 ^ 32 - old) % 2 ^ 32 + new % 2 ^ 32) % 2 ^ 32 ≡ d - old + new =
                omega (arith, fit) in
              elim (Bool-cases (ltb (field xs totalsize) (d - old + new))) [
                | inl over ↦
                    full fit (ground arith)
                      (rw (h0, h1, end, ahead, fits, low, grown, h2, size, over) refl)
                | inr room ↦
                    let n = d - (p + old) in
                    let ys = take n (drop (p + old) xs) in
                    let len : length ys ≡ n = length-part xs (p + old) n (omega (arith, ends)) in
                    let within : d - old + new ≤ field xs totalsize = ground arith in
                    let inside : leb (p + old + n) (length xs) ≡ true = ground (arith, ends) in
                    let place : leb (p + new + length ys) (length xs) ≡ true =
                      ground (arith, len, total) in
                    let r = overwrite-IsReplaced t (p + new) ys (omega (arith, len, total)) in
                    spliced (with_bytes t (overwrite (p + new) ys xs)) fit (omega arith)
                      (rw (h0, h1, end, ahead, fits, low, grown, h2, size, room, inside, place)
                        refl)
                      (λ i less.
                        r.written i (omega (arith, len))
                        ∙ byte-part xs (p + old) n i less (omega (arith, ends)))
                      (λ i side. r.kept i (elim side [
                        | inl below ↦ inl below
                        | inr above ↦ inr (omega (arith, len))
                      ]))
              ]
        ]
