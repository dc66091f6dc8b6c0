-- ===== src/Lib.antt =====
-- ARTBox: the build-time tools that bring Android ARM64 code to Apple systems. They check foreign
-- code, move its system calls, and write the inputs that the platform's tools link and sign.
--
-- The parts and how they interact.
--   scripts/sources.py fetches pinned archives and writes the selected files of them into the build
--   cache. A compiler outside of the repository makes ELF files of them. tools/pack_elf.py takes a
--   static ELF of one segment, checks it word by word and moves each system call of it into a veneer
--   behind the image. tools/wrap_dynamic.py takes a shared ELF of two segments, writes the two
--   images of it, has the platform's linker put them into a dylib, and checks the dylib afterwards.
--   scripts/m2_acceptance.py scores what the startup fixture reports against a fixed contract.
--   scripts/environment.py fixes the variables of every build and scripts/jdk.py installs the pinned
--   Java kits. scripts/bionic_adapt.py, art_host_adapt.py and bionic_syscalls.py rewrite pinned
--   sources into the build cache. scripts/icu_guest_link.py, libcore_guest_link.py and
--   art_guest_link.py check which libraries the linked ELF files need and which symbols are left to
--   the loader. scripts/binder_aidl.py fetches the pinned interface compiler and generates the Binder
--   interfaces with it, and scripts/xsdc.py a parser; both run twice and compare. scripts/ndk.py
--   installs the pinned NDK. scripts/binder_reference.py runs the Linux driver of a pinned package as
--   a reference and compares the portable one with what it saw. scripts/art_bundle.py and
--   service_bundle.py check what a run of the app reported and what the signed app holds, and
--   scripts/looper_guest.py and kernel_config_guest.py what signed guests reported.
--
-- Which file models what.
--   Base: shared helpers. Base/Outcome is a Python function that may raise (`Result`, with the
--     message of the exception); Base/Bytes is `bytes` as a list of numbers below 256 with the
--     little-endian fields of `struct`; Base/Bits relates `&`, `|` and `^` to fields of a number;
--     Base/Int is Python's `int` where it can be negative, with floor division; Base/Text is text as
--     character codes; Base/Lists indexes and overwrites lists.
--   Elf: the records that both ELF tools read with `struct`.
--   PackElf (tools/pack_elf.py): Numbers has `align` and `signed`, Uleb has `uleb`, Branch has
--     `branch`, Inspect has `inspect_text`, Veneer has `veneer`, Transform has `transformed`, and
--     Sections, Relocations and Parse have `parse_elf`. Inspect/Sites, Inspect/Fields,
--     Inspect/Contract, Inspect/Families, Transform/Patched, Transform/Laws, Relocations/Resolved, Parse/Named and
--     Parse/Bounds hold proofs. Macho has
--     `macho`, Macho/Image, Macho/Encoded and Macho/Commands its proofs, and Pipeline is the middle
--     of `main`.
--   WrapDynamic (tools/wrap_dynamic.py): Segments and Layout have `pack_layout`, Macho and
--     Macho/Sections have `verify_macho`; Found, Loaded, Guest, Verified and Wrapped hold proofs.
--   Shell: functions that run commands, with exceptions, `demand`, `try` and `finally`; Shell/Returns
--     is how proofs follow them.
--   Paths: `PurePosixPath` and `posixpath` as the scripts use them, on paths that are not absolute.
--   Sources (scripts/sources.py): Archive and Aliases have `unpack` up to the point where it writes,
--     Selection has the checks of `obtain_files`, `unpack_selected` and `verify`; Plan, Copies,
--     Extraction, Selected, Streamed and Verified hold proofs.
--   Acceptance (scripts/m2_acceptance.py): Score has `manifest` and `evaluate`, Totals the proofs.
--   Tree: a tree of directories, files and links with the writes that the scripts make in it. Disk
--     has the state and its operations, Writes and Growth what a write leaves as it was. Base/Utf8 is
--     the encoding of text.
--   Adapt: Replace is `bytes.replace`, `count` and `str.replace`. Bionic has `adapt_sources` of
--     scripts/bionic_adapt.py, Host the one of scripts/art_host_adapt.py, Syscalls `registers` and
--     `adapt_generated` of scripts/bionic_syscalls.py, Native the checks of pinned native code.
--     Storage has `adapt` of scripts/art_reference_adapt.py, `adapt_storage` of art_storage_adapt.py,
--     `managed_boundary` of art_managed_adapt.py and `without_rust_demangler` of art_runtime_policy.py,
--     and Scudo has scripts/bionic_scudo.py. Unique, Bionic/Overlay, Host/Loaded, Host/Edited,
--     Host/Output, Native/Accepted, Syscalls/Registers, Syscalls/Generated, Storage/Stored and
--     Scudo/Sized hold proofs.
--   Guest (scripts/icu_guest_link.py, libcore_guest_link.py, art_guest_link.py): Scope has the walk
--     over needed libraries and the check of dependencies, Libcore the checks of images and imports.
--     Reachable, Closed, Resolved, Libcore/Same, Libcore/Boundary and Libcore/Imports hold proofs.
--   Environment (scripts/environment.py): `environment` on an association list of variables and the
--     choice of changed ones; Configured and Idempotent hold proofs.
--   Jdk (scripts/jdk.py): Jdk and Jdk/Entries have `extract`, Jdk/Obtain has `obtain`. Kinds, Loop,
--     Extracted and Obtain/Again hold proofs.
--   Ndk (scripts/ndk.py): Ndk has `extract`, Ndk/Obtain `checked_root` and `obtain`; Links, Extracted
--     and Obtain/Checked hold proofs.
--   Aidl (scripts/binder_aidl.py): `safe_relative`, `native_profile`, `verify_file` and `fetch_file`
--     on a cache with its links; Generate has `generated_files`, `compile_aidl` and `generate`.
--     Removed, Moved, Fetched, Generated and Rounds hold proofs.
--   Xsdc (scripts/xsdc.py): `generated_files`, `write_generated` and `verify_generation`; Xsdc/Rounds has
--     the runs of `prepare`. Repeated, Accepted and Twice hold proofs.
--   Reference (scripts/binder_reference.py): Reference has what the parts share, Native `run_native`,
--     Compare `compare_driver`, Archive `unpack_selected` and Prepare `prepare`. Unmounted, Went,
--     Logged, Returned, Expected, Compared, Member, Unpacked and Prepared hold proofs.
--   Report (scripts/art_bundle.py, scripts/service_bundle.py): Value is a JSON value with Python's
--     equality, Checks the shared checks, Service and Art have `validate_acceptance` of the two
--     scripts, Embedded has their `verify_embedded`. Signed has scripts/looper_guest.py and
--     scripts/kernel_config_guest.py. Served, Read, Bounded, Ran, Passed, Intact, Owned and Produced
--     hold proofs.
--   Quotients (scripts/libcore_builtins.py): the cases of 128-bit division that `prepare` writes; Exact
--     holds the proofs.
--   The file named Tests of a part runs its definitions on concrete inputs.
--
-- How code becomes definitions.
--   A `require` or a raise is an `err` with the message of the code; a loop is structural
--   recursion on its list, its range, or the rounds that are left, and in `uleb` on smaller
--   numbers. There is no fuel that could run out: the alias loop of `unpack` recurses on 32 less
--   the length of `seen`, which is the bound that the code tests, and so does the one of
--   `extract`. The walk over needed libraries has rounds, and Guest.Closed shows that the rounds
--   given are enough. The search for the data member of an archive has as many rounds as the archive
--   has bytes, and Reference.Member shows that more find the same; the loop that waits for a module
--   has the rounds of the clock before its deadline, which are a parameter. A local dict is an association list in the order of insertion. Numbers are
--   natural numbers of any size, as the fields that `struct` reads are; where the code subtracts
--   and the result can be negative, the definition uses integers or states the test without
--   subtraction. Slices that the code assigns lie inside of the buffer, and `overwrite` replaces
--   them.
--
-- What is a parameter.
--   SHA-256 and the Git blob hash are any functions on bytes; a theorem about two files of one
--   digest has the hypothesis that no other bytes have it. `str.casefold` is any function on texts.
--   The content of a file that is only read is a function from its path, and `Path.resolve` is one
--   where links of the host take part. Reading an archive, parsing JSON text and the download with
--   gh are functions that may fail. Where a part runs commands, what a command answers and leaves is
--   any function of the command and of what was asked before it, or of the state. What `\w` matches beyond ASCII is a test on codes.
--
-- What is not modelled.
--   What gh, the compilers, the linker and codesign do, beyond the checks of what they leave; argument
--   parsing and printing in the `main` functions; the inventories and the checks of disassembly, which are regular expressions
--   on the output of tools; floats that are not finite; that `environment` makes its directories; the
--   copying of files into bundles; the other scripts, which prepare, compile, link and test; the C
--   core, the platform layers, the app and the fixtures.
pub mod Acceptance
pub mod Adapt
pub mod Aidl
pub mod Base
pub mod Elf
pub mod Environment
pub mod Guest
pub mod Jdk
pub mod Ndk
pub mod PackElf
pub mod Paths
pub mod Quotients
pub mod Reference
pub mod Report
pub mod Shell
pub mod Sources
pub mod Tree
pub mod WrapDynamic
pub mod Xsdc
