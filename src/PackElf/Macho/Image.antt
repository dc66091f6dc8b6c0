-- ===== src/PackElf/Macho/Image.antt =====
-- tools/pack_elf.py: where `macho` puts the parts of the dylib.
use artbox.Base.{
  ℕ, ◌+◌, ◌%◌, ◌≤◌, ◌<◌, ltb, Bool, List, [], ◌∷◌, ◌++◌, length, replicate, overwrite, ok, ◌≡◌,
  refl, sym, ◌∙◌, arith, inl, >>=-elim, require-elim, ok-injective, ltb→lt, length-append,
  length-replicate, length-overwrite, get_or-overwrite_inside, get_or-overwrite_outside,
}
use artbox.Base.Bytes.{byte_at, to_le, pack_all}
use artbox.PackElf.Numbers.{page, align, align_lem}
use artbox.PackElf.Uleb.{uleb, uleb_bytes}
use artbox.PackElf.Macho.{
  symbol, export_trie, text_size_of, symbols_at, symbol_entry, commands, assembled, macho,
}

-- The bytes of a part at a place of the file.
abbrev pub HasAt : List ℕ → ℕ → List ℕ → Type 0
HasAt bytes place part = (i : ℕ) → i < length part → byte_at bytes (place + i) ≡ byte_at part i

pub record IsImage (payload out : List ℕ) (text_size : ℕ) : Type 0 where
  pub size : length out ≡ text_size + page
  pub text :
      (text_size % page ≡ 0)
      × (page + length payload ≤ text_size)
      × (text_size < page + length payload + page)
  pub start : List ℕ
  pub started : (length start < page) × HasAt out 0 start
  pub held : HasAt out page payload
  pub exports : HasAt out text_size export_trie
  pub symbols : HasAt out (symbols_at text_size) symbol_entry
  pub strings : HasAt out (symbols_at text_size + 16) (0 ∷ symbol)

pub length-export_trie : length export_trie ≡ 29
unfolding uleb uleb_bytes
length-export_trie = refl

length-symbol_entry : length symbol_entry ≡ 16
unfolding to_le
length-symbol_entry = refl

symbols_at_lem : (text_size : ℕ) → symbols_at text_size ≡ text_size + 32
unfolding uleb uleb_bytes align
symbols_at_lem text_size = refl

-- A part that was written and what stays of the parts before.
write-HasAt :
    (bytes : List ℕ) (place : ℕ) (part : List ℕ)
    → place + length part ≤ length bytes
    → HasAt (overwrite bytes place part) place part
write-HasAt bytes place part room i h = get_or-overwrite_inside bytes place part i 0 h (omega arith)

keep-HasAt :
    (bytes : List ℕ) (place : ℕ) (part : List ℕ) (other : ℕ) (written : List ℕ)
    → place + length part ≤ other
    → HasAt bytes place part
    → HasAt (overwrite bytes other written) place part
keep-HasAt bytes place part other written apart has i h =
    get_or-overwrite_outside bytes other written (place + i) 0 (inl (omega arith)) ∙ has i h

module _ (start payload : List ℕ) (text_size : ℕ) where
  -- The file after each assignment.
  abbrev stage1 : List ℕ
  stage1 = overwrite (replicate (text_size + page) 0) 0 start

  abbrev stage2 : List ℕ
  stage2 = overwrite stage1 page payload

  abbrev stage3 : List ℕ
  stage3 = overwrite stage2 text_size export_trie

  abbrev stage4 : List ℕ
  stage4 = overwrite stage3 (symbols_at text_size) symbol_entry

  abbrev stage5 : List ℕ
  stage5 = overwrite stage4 (symbols_at text_size + 16) (0 ∷ symbol)

  length-stage1 : length stage1 ≡ text_size + page
  length-stage1 =
      length-overwrite (replicate (text_size + page) 0) 0 start
      ∙ length-replicate {A = ℕ} (text_size + page) 0

  length-stage2 : length stage2 ≡ text_size + page
  length-stage2 = length-overwrite stage1 page payload ∙ length-stage1

  length-stage3 : length stage3 ≡ text_size + page
  length-stage3 = length-overwrite stage2 text_size export_trie ∙ length-stage2

  length-stage4 : length stage4 ≡ text_size + page
  length-stage4 = length-overwrite stage3 (symbols_at text_size) symbol_entry ∙ length-stage3

  length-stage5 : length stage5 ≡ text_size + page
  length-stage5 = length-overwrite stage4 (symbols_at text_size + 16) (0 ∷ symbol) ∙ length-stage4

  pub assembled-parts :
      length start < page
      → page + length payload ≤ text_size
      → (length (assembled start payload text_size) ≡ text_size + page)
        × HasAt (assembled start payload text_size) 0 start
        × HasAt (assembled start payload text_size) page payload
        × HasAt (assembled start payload text_size) text_size export_trie
        × HasAt (assembled start payload text_size) (symbols_at text_size) symbol_entry
        × HasAt (assembled start payload text_size) (symbols_at text_size + 16) (0 ∷ symbol)
  unfolding assembled
  assembled-parts small room =
      let at = symbols_at_lem text_size in
      let start1 =
        write-HasAt (replicate (text_size + page) 0) 0 start
          (omega (arith, length-replicate {A = ℕ} (text_size + page) 0)) in
      let start2 = keep-HasAt stage1 0 start page payload (omega arith) start1 in
      let start3 = keep-HasAt stage2 0 start text_size export_trie (omega arith) start2 in
      let start4 =
        keep-HasAt stage3 0 start (symbols_at text_size) symbol_entry (omega (arith, at)) start3 in
      let start5 =
        keep-HasAt stage4 0 start (symbols_at text_size + 16) (0 ∷ symbol) (omega (arith, at))
          start4 in
      let held2 = write-HasAt stage1 page payload (omega (arith, length-stage1)) in
      let held3 = keep-HasAt stage2 page payload text_size export_trie room held2 in
      let held4 =
        keep-HasAt stage3 page payload (symbols_at text_size) symbol_entry (omega (arith, at))
          held3 in
      let held5 =
        keep-HasAt stage4 page payload (symbols_at text_size + 16) (0 ∷ symbol) (omega (arith, at))
          held4 in
      let trie3 =
        write-HasAt stage2 text_size export_trie
          (omega (arith, length-stage2, length-export_trie)) in
      let trie4 =
        keep-HasAt stage3 text_size export_trie (symbols_at text_size) symbol_entry
          (omega (arith, at, length-export_trie)) trie3 in
      let trie5 =
        keep-HasAt stage4 text_size export_trie (symbols_at text_size + 16) (0 ∷ symbol)
          (omega (arith, at, length-export_trie)) trie4 in
      let entry4 =
        write-HasAt stage3 (symbols_at text_size) symbol_entry
          (omega (arith, at, length-stage3, length-symbol_entry)) in
      let entry5 =
        keep-HasAt stage4 (symbols_at text_size) symbol_entry (symbols_at text_size + 16)
          (0 ∷ symbol) (omega (arith, length-symbol_entry)) entry4 in
      let strings5 =
        write-HasAt stage4 (symbols_at text_size + 16) (0 ∷ symbol)
          (omega (arith, at, length-stage4)) in
      (length-stage5, start5, held5, trie5, entry5, strings5)

-- In what `macho` returns no part overwrites another: a start below one page, the payload at
-- one page, the export trie, the symbol entry and the strings all stand where they were put,
-- the size is the text and one page, and the text is the least whole number of pages that holds
-- a page and the payload.
pub macho-IsImage :
    (payload : List ℕ) (ios : Bool) (out : List ℕ)
    → macho payload ios ≡ ok out
    → IsImage payload out (text_size_of payload)
unfolding macho
macho-IsImage payload ios out e =
    let text_size = text_size_of payload in
    >>=-elim (commands text_size (length payload) ios) e λ code _ e₁.
      >>=-elim (pack_all 4 (0xfeedfacf ∷ 0x100000c ∷ 0 ∷ 6 ∷ 7 ∷ length code ∷ 0x100085 ∷ 0 ∷ []))
        e₁
        λ header packed e₂.
          require-elim (ltb (length header + length code) page) "insufficient signing/header space"
            e₂
            λ room e₃.
              let small : length (header ++ code) < page = omega (
                arith,
                length-append header code,
                ltb→lt (length header + length code) page room,
              ) in
              let (aligned, above, near) = align_lem 14 (page + length payload) in
              let (size, started, held, exports, symbols, strings) =
                assembled-parts (header ++ code) payload text_size small above in
              rw (sym (ok-injective e₃)) (record {
                size = size;
                text = (aligned, above, near);
                start = header ++ code;
                started = (small, started);
                held = held;
                exports = exports;
                symbols = symbols;
                strings = strings;
              })
