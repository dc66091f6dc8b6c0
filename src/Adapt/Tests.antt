-- ===== src/Adapt/Tests.antt =====
-- The adaptations on small sources; the digest of a file is its first byte, and case folding is that
-- of ASCII letters.
use artbox.Base.{
  ℕ, ◌+◌, ◌&&◌, if◌then◌else◌, Bool, true, false, List, [], ◌∷◌, ◌++◌, take, ok, err, ltb, ◌≡◌,
  refl, arith,
}
use artbox.Base.Text.{codes, ◌≟◌}
use artbox.Base.Utf8.{decode, encode, decode_from, encode_char}
use artbox.Paths.{contains, has_char, split_slash, keep_parts, parts, join_slash, as_posix}
use artbox.Sources.Archive.{starts_with}
use artbox.Tree.{Tree, file_at, write_file, write_all, files_below, copy_all, copy_tree, paths_of}
use artbox.Adapt.Replace.{count_from, replace_first, replace_unique}
use artbox.Adapt.Bionic.{
  Edit, Adapted, is_relative_to, apply_all, input_of, adapt_file, adapt_files, writes_of,
  adapt_sources,
}
use artbox.Adapt.Bionic.Overlay.{IsOverlay, adapt_sources-IsOverlay}
use artbox.Adapt.Host.{
  Item, HostRecord, edit_text, load_selection, selected_bytes, edit_files, all_contained, placed,
  host_sources,
}
use artbox.Adapt.Host.Output.{IsOutput, host_sources-IsOutput}
use artbox.Adapt.Native.{
  Relocation, is_failure_branch, is_guard_address, count_item, count_items, count_sections,
  stack_references, count_named, unsafe_counts, any_starts_with, has_bridge, check_counts,
  check_native,
}
use artbox.Adapt.Native.Accepted.{IsNative, check_native-IsNative}
use artbox.Adapt.Syscalls.{
  Call, call_frame, shift_moves, clear_moves, moves_of, moves_text, all_word, is_identifier,
  has_svc, adapt_calls, adapt_generated, kernel_entry, framed_entry,
}
use artbox.Adapt.Syscalls.Registers.{run, IsCall, moves_of-IsCall}
use artbox.Adapt.Syscalls.Generated.{IsAdapted, adapt_generated-IsAdapted}

abbrev lower : List ℕ → List ℕ
lower [] = []
lower (c ∷ cs) = (if ltb 64 c && ltb c 91 then c + 32 else c) ∷ lower cs

abbrev digest : List ℕ → List ℕ
digest bytes = take 1 bytes

abbrev anywhere : List ℕ → Bool
anywhere path = true

-- Two bytes of the first and three of the second character are one character each.
utf8_test : decode (65 ∷ 0xc3 ∷ 0xa9 ∷ 0xe2 ∷ 0x82 ∷ 0xac ∷ []) ≡ ok (65 ∷ 0xe9 ∷ 0x20ac ∷ [])
unfolding decode decode_from
utf8_test = refl

surrogate_test : decode (0xed ∷ 0xa0 ∷ 0x80 ∷ []) ≡ err "UnicodeDecodeError"
unfolding decode decode_from
surrogate_test = refl

encoded_test : encode (65 ∷ 0xe9 ∷ 0x20ac ∷ []) ≡ ok (65 ∷ 0xc3 ∷ 0xa9 ∷ 0xe2 ∷ 0x82 ∷ 0xac ∷ [])
unfolding encode encode_char
encoded_test = refl

ambiguous_test : replace_unique "twice" (codes "ab") (codes "x") (codes "cabab") ≡ err "twice"
unfolding replace_unique count_from starts_with
ambiguous_test = refl

abbrev source : Tree
source = (codes "libc/a.c", codes "int old;") ∷ (codes "libc/platform/p.h", codes "h") ∷ []

abbrev edits : List Edit
edits =
    record {
      path = codes "libc//./a.c";
      sha256 = codes "i";
      replacements = (codes "old", codes "new") ∷ (codes ";", codes " = 1;") ∷ [];
    }
    ∷ []

abbrev adapted : List Adapted
adapted =
    record {
      path = codes "libc/a.c";
      upstream_sha256 = codes "i";
      adapted_sha256 = codes "i";
      contents = codes "int new = 1;";
    }
    ∷ []

abbrev overlay : Tree
overlay = (codes "libc/platform/p.h", codes "h") ∷ (codes "libc/a.c", codes "int new = 1;") ∷ []

overlay_test :
    adapt_sources lower digest anywhere anywhere
      (codes "src" ∷ [])
      (codes "out" ∷ [])
      source
      []
      edits
    ≡ ok (adapted, overlay)
unfolding adapt_sources adapt_files adapt_file input_of apply_all replace_unique replace_first
    count_from starts_with decode decode_from encode encode_char writes_of write_all write_file
    copy_tree copy_all files_below file_at is_relative_to as_posix join_slash parts keep_parts
    split_slash has_char contains ◌≟◌
overlay_test = refl

adapt_sources-IsOverlay_example : IsOverlay lower digest source [] edits adapted overlay
adapt_sources-IsOverlay_example =
    adapt_sources-IsOverlay lower digest anywhere anywhere (codes "src" ∷ []) (codes "out" ∷ [])
      source [] edits (adapted, overlay) overlay_test

abbrev selection : List Item
selection =
    record { path = codes "libc/a.c"; sha256 = codes "i" }
    ∷ record { path = codes "libc/platform/p.h"; sha256 = codes "h" }
    ∷ []

abbrev host_edits : List Edit
host_edits =
    record {
      path = codes "libc/a.c";
      sha256 = codes "i";
      replacements = (codes "old", codes "new") ∷ [];
    }
    ∷ []

abbrev records : List HostRecord
records =
    record { path = codes "libc/a.c"; upstream_sha256 = codes "i"; adapted_sha256 = codes "i" } ∷ []

abbrev output : Tree
output = (codes "libc/a.c", codes "int new;") ∷ (codes "libc/platform/p.h", codes "h") ∷ []

output_test :
    host_sources lower digest anywhere anywhere
      (codes "src" ∷ [])
      (codes "out" ∷ [])
      source
      []
      selection
      host_edits
    ≡ ok (records, output)
unfolding host_sources load_selection selected_bytes edit_files edit_text all_contained placed
    paths_of replace_unique replace_first count_from starts_with decode decode_from encode
    encode_char write_all write_file file_at is_relative_to as_posix join_slash parts keep_parts
    split_slash has_char contains ◌≟◌
output_test = refl

host_sources-IsOutput_example : IsOutput digest source selection host_edits records output
unfolding as_posix join_slash parts keep_parts split_slash ◌≟◌
host_sources-IsOutput_example =
    host_sources-IsOutput lower digest anywhere anywhere (codes "src" ∷ []) (codes "out" ∷ [])
      source [] selection host_edits (records, output) (refl, (refl, tt)) output_test

abbrev calls : List Call
calls = record { func = codes "__close"; name = codes "close"; params = 1 } ∷ []

abbrev narrow : ℕ → Bool
narrow c = false

generated_test :
    adapt_generated narrow (kernel_entry (codes "__close") (codes "close") ++ codes "END\n") calls
    ≡ ok (framed_entry (codes "__close") (codes "close") 1 ++ codes "END\n")
unfolding adapt_generated adapt_calls is_identifier all_word has_svc replace_unique replace_first
    count_from starts_with call_frame moves_of shift_moves clear_moves moves_text contains ◌≟◌
generated_test = refl

adapt_generated-IsAdapted_example :
    IsAdapted narrow
      (kernel_entry (codes "__close") (codes "close") ++ codes "END\n")
      calls
      (framed_entry (codes "__close") (codes "close") 1 ++ codes "END\n")
adapt_generated-IsAdapted_example =
    adapt_generated-IsAdapted narrow
      (kernel_entry (codes "__close") (codes "close") ++ codes "END\n") calls
      (framed_entry (codes "__close") (codes "close") 1 ++ codes "END\n") generated_test

moves_of-IsCall_example :
    IsCall 0 57 2 (λ i. 100 + i) (run 0 57 (moves_of (codes "close") 2) (λ i. 100 + i))
moves_of-IsCall_example = moves_of-IsCall 0 57 (codes "close") 2 (λ i. 100 + i) (omega arith)

abbrev references : List (List Relocation)
references =
    (record { kind = codes "R_AARCH64_CALL26"; symbol = codes "__stack_chk_fail" } ∷ [])
    ∷ (record { kind = codes "R_AARCH64_ADR_GOT_PAGE"; symbol = codes "__stack_chk_guard" } ∷ [])
    ∷ []

abbrev counts : List (List ℕ × ℕ)
counts = (codes "instruction_count", 12) ∷ (codes "svc", 0) ∷ []

abbrev symbols : List (List ℕ)
symbols =
    codes "artbox_bionic_get_tls"
    ∷ codes "artbox_bionic_set_tls"
    ∷ codes "artbox_bionic_syscall"
    ∷ []

native_test : check_native counts symbols (stack_references references) ≡ ok tt
unfolding check_native check_counts count_named unsafe_counts any_starts_with has_bridge
    stack_references count_sections count_items count_item is_failure_branch is_guard_address
    starts_with contains ◌≟◌
native_test = refl

check_native-IsNative_example : IsNative counts symbols references
check_native-IsNative_example = check_native-IsNative counts symbols references native_test
