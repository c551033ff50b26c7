-- ===== src/Lib.antt =====
-- dtboverlay: kernel modules that apply a device tree overlay on a system without a device tree.
--
-- The program's parts. insmod of dtboverlay_out.ko runs `of_overlay_init` (dtboverlay.c): it reads the
-- file that the module parameter `dtbpath` names into memory, checks the header of the blob with
-- `fdt_check_header` (libfdt/fdt.c, which is linked into the module), lets `debug` make an empty root
-- node with a child `/__symbols__` if the system has no root, and hands the blob to the kernel's
-- `of_overlay_fdt_apply`. rmmod runs `of_overlay_exit`, which removes the changeset. Two modules
-- stand by themselves: kdbg.c prints the context id at each call of a kernel function, by a kprobe, and
-- ofcheck.c prints the name of the root.
--
-- Which file models what:
--   Base        the names and lemmas that the other files share; Base.Control is the command type of
--               C functions: a statement goes on, returns early, or faults.
--   Trace       what a module prints and calls, newest first.
--   Memory      a buffer with its address; a read outside it faults.
--   Fdt         libfdt/fdt.h and libfdt/fdt.c: Constants (FDT_MAGIC to FDT_V17_SIZE, FDT_ERR_...),
--               Assume (ASSUME_..., can_assume), Header (struct fdt_header, fdt32_ld, fdt_get_header),
--               Check (check_off_, check_block_, fdt_header_size, fdt_check_header). Layout states on
--               numbers what a header has to satisfy; Word, Stages, Verdict, Accept, Relaxed, Gates, Short,
--               Results and Encode are about these functions.
--   Fdt.Read    what the other files of libfdt are made of: Read is a value, a read outside the blob or
--               through a null pointer, or a loop that used up its fuel. Fdt.Tags has the tags and
--               structs of libfdt/fdt.h.
--   Fdt.Walk    fdt_offset_ptr to fdt_move of libfdt/fdt.c. Pointers, Steps, Skip, Next, Nodes,
--               Lists and Loops are about a blob that passed the header check.
--   Fdt.Ro      libfdt/fdt_ro.c, in Names, Props, Reserve, Phandles, Paths, Depth and Lists. Strings,
--               Counts, Text and Aliases are about these functions.
--   Fdt.Strerror, Fdt.Addresses
--               libfdt/fdt_strerror.c, with its texts in Fdt.Errors, and libfdt/fdt_addresses.c, with
--               fdt_appendprop_addrrange in Range, which OneCell is about.
--   Fdt.Write   what the files of libfdt that write are made of: an Edit is a statement over the blob,
--               which gives a value and the blob after it. Write.Bytes is about bytes that were written,
--               and Write.Keeps about what statements leave as it is.
--   Fdt.Wip     libfdt/fdt_wip.c. Inplace and Frame are about it.
--   Fdt.Sw      libfdt/fdt_sw.c, in Space, Build and Finish. Room, Grab, Nodes and States are about
--               these functions.
--   Fdt.Rw      libfdt/fdt_rw.c, in Splice, Change and Open. Moves and Frame are about it.
--   Fdt.EmptyTree, Fdt.Inline, Fdt.Loads
--               libfdt/fdt_empty_tree.c, and the inline functions of libfdt/libfdt.h that store and load
--               numbers.
--   Fdt.Overlay libfdt/fdt_overlay.c, over two blobs: Both (the statements and the loops of libfdt.h),
--               Parse (what is read in one blob), Local (phandles and references in the overlay),
--               Fixups (references to the base), Merge, Symbols and Apply. Frame, Apart, Steps, Erase,
--               Loops, Offsets, References, Entries and SymbolText are about these functions.
--   Kernel      what the modules share with Linux: of_root, the device nodes and the properties as
--               maps from addresses, and the kernel functions that dtboverlay.c calls, each a
--               parameter that gives a result and a new state, or oopses. Kernel.Laws has what is
--               relied on where no call fails.
--   DtbOverlay  dtboverlay.c: World (its static variables, the reads and writes of device nodes),
--               Debug (`debug`, in one function per part), Module (`of_overlay_init` and
--               `of_overlay_exit`). Fill, Symbols, Nodes, Publish and Create follow `debug` in a kernel
--               that works, Reads and Insmod the whole module, and Rooted a system with a device tree;
--               Errors, Apply, Oops and Properties are about the other paths.
--   OfCheck     ofcheck.c.
--   Kdbg        kdbg.c, over the kernel's kprobes as a parameter.
--   Tests       a small kernel, blobs, and runs of the modules on them.
--
-- Values. A u32 is a natural number, with the wrap-around written out where the source adds or shifts.
-- An `int` is an integer. A member of a node, or a variable, that was never assigned is `none`; a read
-- of such a member faults. FDT_ASSUME_MASK is an argument, since a build may define it; the Makefile
-- leaves it at 0. Pointers are numbers, with 0 for null. A file's content and the size that
-- i_size_read gives are not tied to one another: what is not read stays zero.
--
-- In libfdt a pointer is the number of bytes from the start of the blob, and the bytes of the blob are
-- all that can be read. A function that returns a pointer and sets an `int` gives both. Where the
-- source may be given a null pointer for a result, a Boolean says whether the caller asks for it.
-- Depths are integers without a bound. `fdt_ro_probe_` is defined in no file of the repository: what it
-- returns for the blob is a part of the record Tree, which also has FDT_ASSUME_MASK and the fuel.
-- The lines of fdt.c from 352 on stand in comments there, but fdt_ro.c and the other files call these
-- functions, so that their text is what is modelled.
--
-- Fuel. The loops and the recursion of libfdt whose end depends on the blob take the fuel of the
-- Tree; Fdt.Walk.Nodes says how much is enough for `fdt_next_node`, Fdt.Overlay.Loops
-- for the loops over subnodes and properties, and Fdt.Walk.Loops and
-- Fdt.Ro.Aliases for which blobs none is. The loops over a list of strings or over a path are given
-- one round more than there are bytes. In dtboverlay.c only the loop over the properties of
-- `/__symbols__` has fuel, which has to be more than their number. The node that `debug` makes has
-- no property, for which fuel 1 is enough. All other loops are by structural recursion.
--
-- "A whole header" is the 40 bytes of `struct fdt_header`, whatever the version in it.
--
-- "A kernel that works" is one where kmalloc gives a new address that was not in use, the kprobe can be
-- set and gives the address of kallsyms_lookup_name, both symbols are found, kobject_init sets a
-- node's ktype, the entries in sysfs change no more than the names of kobjects, and
-- of_find_node_by_path finds the first child of the root by its full name. Kprobes keep their promises
-- if a kprobe that is registered was not registered before and is then one more at its symbol, wherever
-- among them, one that is refused changes nothing, and one that is unregistered is taken from its symbol.
-- At a hit the handlers at the symbol run in turn, until one returns other than 0.
-- Tests has a kernel and kprobes that satisfy these laws.
--
-- `strtoul` of the C library is an argument of the functions of Fdt.Overlay that call it: a function from
-- the bytes of a string to a number and the count of the bytes that it read. The base and the overlay
-- are two buffers. `fdt_get_path` gets its buffer as bytes, and what it wrote is put back after it, also
-- where that buffer is a part of the blob.
--
-- Not modelled: the kernel itself; the level of a printk; freed memory; concurrency with other
-- users of the device tree. The result of `fdt_ro_probe_` stays the same while a function writes. Only
-- fdt_resize and fdt_open_into have places for two blobs; elsewhere the blob is the start of what can be
-- read.
pub mod Base
pub mod Trace
pub mod Memory
pub mod Fdt
pub mod Kernel
pub mod DtbOverlay
pub mod OfCheck
pub mod Kdbg
pub mod Tests
