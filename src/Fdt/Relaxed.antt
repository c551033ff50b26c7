-- ===== src/Fdt/Relaxed.antt =====
-- What the assumptions of FDT_ASSUME_MASK may leave out.
use mathlib.Core.Path.{fun_ext}
use dtboverlay.Base.{
  ℕ, ◌≡◌, refl, sym, ap, ◌∙◌, inl, inr, true, false, Bool-cases, bit_and, some, ◌==◌, if◌then◌else◌,
  arith, ◌≤◌,
}
use dtboverlay.Base.Bits.{bit_and_seven}
use dtboverlay.Base.Int.{ℤ, pos}
use dtboverlay.Base.Control.{next, outcome}
use dtboverlay.Trace.{Trace}
use dtboverlay.Memory.{Buffer}
use dtboverlay.Fdt.Constants
use dtboverlay.Fdt.Constants.{fdt_v17_size}
use dtboverlay.Fdt.Assume.{can_assume, fdt_assume_mask, latest, valid_dtb}
use dtboverlay.Fdt.Header.{magic, version, last_comp_version}
use dtboverlay.Fdt.Check.{
  fdt_header_size_, fdt_header_size, check_version, check_size, check_struct, check_strings,
  fdt_check_header,
}
use dtboverlay.Fdt.Layout.{field, HasHeader, IsVersion}
use dtboverlay.Fdt.Stages.{fdt_get_header-next, check_version_lem}
use dtboverlay.Fdt.Verdict.{debug, after_0, after_1, hdrsize, no_assumption}
use dtboverlay.Fdt.Accept.{IsAccepted, fdt_check_header-zero_iff}

-- The blob is as the assumptions of the build say: ASSUME_LATEST leaves out the tests of the versions.
pub record Honours (assumed : ℕ) (b : Buffer) : Type 0 where
  pub is_latest :
      can_assume assumed latest ≡ true
      → (field b.bytes version ≡ 17) × (field b.bytes last_comp_version ≤ 17)
  pub is_valid : can_assume assumed valid_dtb ≡ true → IsAccepted b

module _ {b : Buffer} (has : HasHeader b) (assumed : ℕ) (t : Trace) where
  version_passes : (s : Trace) → IsVersion (field b.bytes) → check_version assumed b s ≡ next tt s
  version_passes s ok = elim (check_version_lem has assumed s) [
    | inl (_, e) ↦ e
    | inr (bad, _) ↦ absurd (bad ok)
  ]

  header_size-next :
      (s : Trace)
      → fdt_header_size assumed b {R = ℤ} s
        ≡ next (if can_assume assumed latest then fdt_v17_size else hdrsize b) s
  unfolding fdt_header_size
  header_size-next s = elim (Bool-cases (can_assume assumed latest)) [
    | inl l ↦ rw (l, fdt_header_size)
    | inr l ↦ rw (l, fdt_header_size) (rw (fdt_get_header-next has {S = Trace} {R = ℤ} version s))
  ]

  -- A blob that is valid passes whatever is assumed.
  valid_passes :
      IsAccepted b
      → can_assume assumed valid_dtb ≡ true
      → outcome (fdt_check_header assumed b t) ≡ some (pos 0)
  unfolding fdt_check_header
  valid_passes ok v =
      let dtb = ok.0.sized.current.dtb in
      let a : (bit_and b.addr 7 == 0) ≡ true = ground (arith, dtb.aligned, bit_and_seven b.addr) in
      let m : (field b.bytes magic == Constants.fdt_magic) ≡ true =
        ground (arith, dtb.magic_number) in
      rw (a, fdt_get_header-next has {S = Trace} {R = ℤ} magic (after_0 t), m, v)
        (elim (Bool-cases (can_assume assumed latest)) [
          | inl l ↦ rw (l, header_size-next (debug "DEBUG 2" (after_1 t)))
          | inr l ↦ rw (
            l,
            version_passes (after_1 t) ok.0.sized.current.versions,
            header_size-next (debug "DEBUG 2" (after_1 t)),
          )
        ])

  -- With the structure block's size in the header the check reads it, as the latest version does.
  struct_same :
      (hs : ℕ) (s : Trace)
      → field b.bytes version ≡ 17
      → check_struct assumed b hs s ≡ check_struct fdt_assume_mask b hs s
  unfolding check_struct
  struct_same hs s v = ground (arith, fdt_get_header-next has {S = Trace} {R = ℤ} version s)

  struct_alike :
      (hs : ℕ) (s : Trace)
      → can_assume assumed latest ≡ false
      → check_struct assumed b hs s ≡ check_struct fdt_assume_mask b hs s
  unfolding check_struct
  struct_alike hs s l = ground (arith, no_assumption latest)

  size_same : (hs : ℕ) → check_size assumed b hs ≡ check_size fdt_assume_mask b hs
  unfolding check_size
  size_same hs = refl

  strings_same : (hs : ℕ) → check_strings assumed b hs ≡ check_strings fdt_assume_mask b hs
  unfolding check_strings
  strings_same hs = refl

  version_same : check_version assumed b ≡ check_version fdt_assume_mask b
  unfolding check_version
  version_same = refl

module _ {b : Buffer} (has : HasHeader b) (assumed : ℕ) (t : Trace) where
  latest_size : field b.bytes version ≡ 17 → hdrsize b ≡ fdt_v17_size
  unfolding fdt_header_size_
  latest_size e = ground arith

  -- With the layout checks in place the run is the same, line by line.
  checks_same :
      can_assume assumed valid_dtb ≡ false
      → (can_assume assumed latest ≡ true
          → (field b.bytes version ≡ 17) × (field b.bytes last_comp_version ≤ 17))
      → fdt_check_header assumed b t ≡ fdt_check_header fdt_assume_mask b t
  unfolding fdt_check_header
  checks_same v newest = elim (Bool-cases (bit_and b.addr 7 == 0)) [
    | inr bad ↦ rw bad
    | inl good ↦
        rw (good, fdt_get_header-next has {S = Trace} {R = ℤ} magic (after_0 t))
          (elim (Bool-cases (field b.bytes magic == Constants.fdt_magic)) [
            | inr bad ↦ rw bad
            | inl good ↦
                rw (good, v, no_assumption valid_dtb, no_assumption latest)
                  (let after : Trace = debug "DEBUG 2" (after_1 t) in
                    elim (Bool-cases (can_assume assumed latest)) [
                      | inl l ↦
                          let (v17, last) = newest l in
                          let old_ok : IsVersion (field b.bytes) = record {
                            first = omega arith;
                            last = last;
                            ordered = omega arith;
                          } in
                          rw (
                            l,
                            version_passes has fdt_assume_mask t (after_1 t) old_ok,
                            header_size-next has assumed t after,
                            header_size-next has fdt_assume_mask t after,
                            l,
                            no_assumption latest,
                            latest_size v17,
                            size_same has assumed t fdt_v17_size,
                            fun_ext (λ s. struct_same has assumed t fdt_v17_size s v17),
                            strings_same has assumed t fdt_v17_size,
                          )
                      | inr l ↦
                          rw (l, version_same has assumed t)
                            (elim (check_version_lem has fdt_assume_mask (after_1 t)) [
                              | inr (_, e) ↦ rw e
                              | inl (_, e) ↦ rw (
                                e,
                                header_size-next has assumed t after,
                                header_size-next has fdt_assume_mask t after,
                                l,
                                no_assumption latest,
                                size_same has assumed t (hdrsize b),
                                fun_ext (λ s. struct_alike has assumed t (hdrsize b) s l),
                                strings_same has assumed t (hdrsize b),
                              )
                            ])
                    ])
          ])
  ]

  -- For a buffer that holds the 40 bytes of a whole header, and for every FDT_ASSUME_MASK: if the
  -- blob has version 17 and a last compatible version of at most 17 where ASSUME_LATEST is set, and
  -- is one that the full check accepts where ASSUME_VALID_DTB is set, `fdt_check_header` returns
  -- what it returns in a build with no assumption.
  pub fdt_check_header-assumed :
      Honours assumed b
      → outcome (fdt_check_header assumed b t) ≡ outcome (fdt_check_header fdt_assume_mask b t)
  fdt_check_header-assumed honours = elim (Bool-cases (can_assume assumed valid_dtb)) [
    | inl v ↦
        let ok = honours.is_valid v in
        valid_passes has assumed t ok v ∙ sym ((fdt_check_header-zero_iff t has).1 ok)
    | inr v ↦ ap outcome (checks_same v honours.is_latest)
  ]
