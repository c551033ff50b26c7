-- ===== src/Tests/OverlayRuns.antt =====
-- The results on dtboverlay.c in the small kernel.
use dtboverlay.Base.{ℕ, String, ◌≡◌, refl, ap, [], ◌∷◌, Option, none, some, arith, ◌↔◌}
use dtboverlay.Base.Int.{ℤ, pos, negsuc}
use dtboverlay.Base.Control.{next, fault, final, outcome}
use dtboverlay.Trace.{Trace, call, num, ptr, printk}
use dtboverlay.Fdt.Assume.{fdt_assume_mask}
use dtboverlay.Fdt.Check.{fdt_check_header}
use dtboverlay.Fdt.Layout.{HasHeader}
use dtboverlay.Fdt.Encode.{put_header, put32}
use dtboverlay.Kernel.{Kernel, Shared, Ptr, null, Property, update}
use dtboverlay.DtbOverlay.World.{World}
use dtboverlay.DtbOverlay.Debug.{debug, print_properties}
use dtboverlay.DtbOverlay.Create.{HasRoot, debug-HasRoot, debug_has_root, debug_again}
use dtboverlay.DtbOverlay.Module.{apply, apply_file, of_overlay_init, of_overlay_exit}
use dtboverlay.DtbOverlay.Errors.{opened_lines, init_closes, init_unassigned_iff}
use dtboverlay.DtbOverlay.Apply.{check_returns, apply_anyway}
use dtboverlay.DtbOverlay.Reads.{IsReadable, buffer}
use dtboverlay.DtbOverlay.Insmod.{IsApplied, init-IsApplied, exit_removes}
use dtboverlay.DtbOverlay.Rooted.{init_rooted}
use dtboverlay.Kernel.Laws.{SameTree}
use dtboverlay.DtbOverlay.Oops.{debug_no_probe}
use dtboverlay.DtbOverlay.Properties.{end, link, property_lines, print_properties_lem}
use dtboverlay.Tests.Machine.{
  machine, machine-IsWorking, lookup_address, ktype_address, attach_address,
}
use dtboverlay.Tests.Blobs.{sample, sample-HasHeader, content, address}

abbrev K : Kernel
K = machine content

abbrev path : Option String
path = some "/overlay.dtbo"

-- A system without a device tree.
abbrev empty : Shared ℕ
empty = record { sys = 0; of_root = null; node = λ _. none; prop = λ _. none }

abbrev start : World ℕ
start = record { dtbpath = path; kp_addr = null; ovcsid = pos 0; shared = empty; trace = [] }

content-IsReadable : IsReadable K path 72 content address
unfolding put_header put32
content-IsReadable = record {
  dtbfile = content;
  addr-ne-null = omega arith;
  open_law = λ s. (_, _, refl, (refl, record { root_is = refl; node_is = refl; prop_is = refl }));
  size_law = λ s. (_, _, refl, (refl, record { root_is = refl; node_is = refl; prop_is = refl }));
  kzalloc_law =
      λ s. (_, _, refl, (refl, record { root_is = refl; node_is = refl; prop_is = refl }));
  read_law = λ s. (_, _, refl, (refl, record { root_is = refl; node_is = refl; prop_is = refl }));
  apply_law = λ b id s. (_, _, refl, tt);
  close_law = λ s. (_, _, refl, tt);
  remove_law = λ id s. (_, _, refl, tt);
}

buffer-HasHeader : HasHeader (buffer 72 content address)
unfolding put_header put32
buffer-HasHeader = sample-HasHeader

debug-HasRoot_example :
    (root symchild : Ptr) × (after : World ℕ) × (debug K 3 start ≡ next tt after)
    × HasRoot
        (machine-IsWorking content).in_use
        start
        after
        lookup_address
        ktype_address
        attach_address
        root
        symchild
debug-HasRoot_example = debug-HasRoot K 2 start (machine-IsWorking content) refl

debug_again_example :
    (root : Ptr) × (after : World ℕ) × (debug K 3 start ≡ next tt after)
    × (after.shared.of_root ≡ root)
    × (debug K 0 after
        ≡ next tt
            (record after { trace = printk "DEBUG of_root %llx" (ptr root ∷ []) ∷ after.trace }))
debug_again_example = debug_again K 2 start (machine-IsWorking content) refl 0

init-IsApplied_example :
    (ret : ℤ) × (after : World ℕ) × (of_overlay_init K fdt_assume_mask 3 start
      ≡ next (some ret) after)
    × IsApplied K
        (machine-IsWorking content).in_use
        start
        after
        (buffer 72 content address)
        72
        lookup_address
        ktype_address
        attach_address
        ret
init-IsApplied_example =
    init-IsApplied (machine-IsWorking content) start content-IsReadable buffer-HasHeader refl 2

exit_removes_example :
    (ret : ℤ) × (after last : World ℕ) × (of_overlay_init K fdt_assume_mask 3 start
      ≡ next (some ret) after)
    × IsApplied K
        (machine-IsWorking content).in_use
        start
        after
        (buffer 72 content address)
        72
        lookup_address
        ktype_address
        attach_address
        ret
    × (of_overlay_exit K fdt_assume_mask 3 after ≡ next tt last)
    × (last.trace ≡ call "of_overlay_remove" (num after.ovcsid ∷ []) ∷ after.trace)
exit_removes_example =
    exit_removes (machine-IsWorking content) start content-IsReadable buffer-HasHeader refl 2

-- A run of insmod.
abbrev insmod :
    (ret : ℤ) × (after : World ℕ) × (of_overlay_init K fdt_assume_mask 3 start
      ≡ next (some ret) after)
insmod =
    let (ret, after, ran, _) =
      init-IsApplied (machine-IsWorking content) start content-IsReadable buffer-HasHeader refl 2 in
    (ret, after, ran)

init_closes_example :
    (w1 : World ℕ) × (apply_file K fdt_assume_mask 3 content
        (record start { trace = opened_lines [] })
      ≡ next (some insmod.0) w1)
    × (K.filp_close content w1.shared ≡ some (tt, insmod.1.shared))
    × (insmod.1.trace ≡ call "filp_close" [] ∷ w1.trace)
init_closes_example =
    init_closes K fdt_assume_mask 3 start refl (ap outcome insmod.2) (ap final insmod.2)

-- Memory is exhausted when the file is read.
abbrev no_buffer : Kernel
no_buffer = record K { kzalloc = λ n s. some (null, s) }

unassigned : outcome (of_overlay_init no_buffer fdt_assume_mask 3 start) ≡ some none
unfolding of_overlay_init apply_file
unassigned = refl

init_unassigned_iff_example :
    ((some insmod.0 ≡ none) ↔ (address ≡ null)) × (◌≡◌ {A = Option ℤ} none none ↔ (null ≡ null))
init_unassigned_iff_example = (
  init_unassigned_iff K fdt_assume_mask 3 start refl refl refl (ap outcome insmod.2),
  init_unassigned_iff no_buffer fdt_assume_mask 3 start refl refl refl unassigned,
)

-- A system with a root.
abbrev rooted : World ℕ
rooted = record start { shared = record empty { of_root = 5 } }

abbrev verdict :
    (err : ℤ) × (t : Trace) × (outcome (fdt_check_header fdt_assume_mask sample []) ≡ some err)
    × (final (fdt_check_header fdt_assume_mask sample []) ≡ some t)
verdict = check_returns [] sample-HasHeader

apply_anyway_example :
    apply K fdt_assume_mask 3 sample 72 rooted
    ≡ next (some (pos 0)) (record rooted {
      ovcsid = pos 1;
      trace =
          call "of_overlay_fdt_apply" (ptr address ∷ num (pos 72) ∷ num (pos 0) ∷ [])
          ∷ printk "DEBUG of_root %llx" (ptr 5 ∷ [])
          ∷ printk "TEST Err %d\n" (num verdict.0 ∷ [])
          ∷ verdict.1;
    })
apply_anyway_example =
    apply_anyway K fdt_assume_mask 3 sample 72 rooted verdict.2 verdict.3
      (debug_has_root K 3
        (record rooted { trace = printk "TEST Err %d\n" (num verdict.0 ∷ []) ∷ verdict.1 })
        (omega arith))
      refl

init_rooted_example :
    (ret : ℤ) × (after : World ℕ) × (before result : Shared ℕ) × (of_overlay_init K fdt_assume_mask
        0 rooted
      ≡ next (some ret) after)
    × SameTree rooted.shared before
    × (K.of_overlay_fdt_apply (buffer 72 content address) 72 (pos 0) before
        ≡ some ((ret, after.ovcsid), result))
    × (K.filp_close content result ≡ some (tt, after.shared))
init_rooted_example = init_rooted rooted content-IsReadable buffer-HasHeader (omega arith) 0

-- No probe can be set.
abbrev no_probes : Kernel
no_probes = record K { register_kprobe = λ symbol at s. some ((negsuc 1, null), s) }

debug_no_probe_example : debug no_probes 3 start ≡ fault
debug_no_probe_example = debug_no_probe no_probes 3 start refl (λ s. (negsuc 1, s, refl))

-- Memory is exhausted.
abbrev no_memory : Kernel
no_memory = record K { kmalloc_node = λ s. some (null, s) }

-- Two properties.
abbrev property_at : Ptr → Option Property
property_at =
    update (update (λ _. none) 7 (some (record { name = "b"; next = null }))) 8
      (some (record { name = "a"; next = 7 }))

abbrev labelled : World ℕ
labelled = record start { shared = record empty { prop = property_at } }

print_properties_lem_example :
    print_properties {R = ℕ} 3 8 labelled
    ≡ next tt (record labelled { trace = property_lines ("a" ∷ "b" ∷ []) [] })
print_properties_lem_example =
    print_properties_lem 3 8 ("a" ∷ "b" ∷ []) labelled
      (link (omega arith) refl (link (omega arith) refl (end refl))) (omega arith)
