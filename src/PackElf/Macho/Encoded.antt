-- ===== src/PackElf/Macho/Encoded.antt =====
-- tools/pack_elf.py: no field of the load commands of `macho` is refused.
use artbox.Base.{
  ℕ, ◌+◌, ◌^◌, ◌<◌, Bool, true, false, List, [], ◌∷◌, ◌++◌, length, replicate, ok, ◌≡◌, refl, arith,
}
use artbox.Base.Bytes.{to_le, pack_all, pack_all_fits, fields_le}
use artbox.Base.Text.{codes}
use artbox.PackElf.Numbers.{page, align}
use artbox.PackElf.Uleb.{uleb, uleb_bytes}
use artbox.PackElf.Macho.{
  name16, symbol, export_trie, install_name, symbols_at, segment_command, text_command,
  identity_command, build_command, commands,
}
use artbox.PackElf.Macho.Image.{length-export_trie}

-- The bytes of the commands.
abbrev pub segment_bytes : ℕ → List ℕ → ℕ → ℕ → ℕ → ℕ → ℕ → ℕ → List ℕ
segment_bytes size name address memory offset file_size permissions sections =
    fields_le 4 (0x19 ∷ size ∷ [])
    ++ name16 name
    ++ fields_le 8 (address ∷ memory ∷ offset ∷ file_size ∷ [])
    ++ fields_le 4 (permissions ∷ permissions ∷ sections ∷ 0 ∷ [])

segment_command-fits :
    (size : ℕ) (name : List ℕ) (address memory offset file_size permissions sections : ℕ)
    → (size < 2 ^ 32) × (permissions < 2 ^ 32) × (sections < 2 ^ 32)
    → (address < 2 ^ 64) × (memory < 2 ^ 64) × (offset < 2 ^ 64) × (file_size < 2 ^ 64)
    → segment_command size name address memory offset file_size permissions sections
      ≡ ok (segment_bytes size name address memory offset file_size permissions sections)
segment_command-fits size name address memory offset file_size permissions sections small wide =
    rw
      (
        pack_all_fits 4 (0x19 ∷ size ∷ []) (omega arith),
        pack_all_fits 8 (address ∷ memory ∷ offset ∷ file_size ∷ []) (omega arith),
        pack_all_fits 4 (permissions ∷ permissions ∷ sections ∷ 0 ∷ []) (omega arith),
      )
      refl

abbrev pub text_bytes : ℕ → ℕ → List ℕ
text_bytes text_size size =
    segment_bytes 152 (codes "__TEXT") 0 text_size 0 text_size 5 1
    ++ name16 (codes "__artbox")
    ++ name16 (codes "__TEXT")
    ++ fields_le 8 (page ∷ size ∷ [])
    ++ fields_le 4 (page ∷ 14 ∷ 0 ∷ 0 ∷ 0x400 ∷ 0 ∷ 0 ∷ 0 ∷ [])

text_command-fits :
    (text_size size : ℕ)
    → text_size < 2 ^ 31
    → size < 2 ^ 31
    → text_command text_size size ≡ ok (text_bytes text_size size)
text_command-fits text_size size small fits =
    rw
      (
        segment_command-fits 152 (codes "__TEXT") 0 text_size 0 text_size 5 1 (omega arith)
            (omega arith),
        pack_all_fits 8 (page ∷ size ∷ []) (omega arith),
        pack_all_fits 4 (page ∷ 14 ∷ 0 ∷ 0 ∷ 0x400 ∷ 0 ∷ 0 ∷ 0 ∷ []) (omega arith),
      )
      refl

abbrev pub identity_bytes : List ℕ
identity_bytes =
    fields_le 4 (0xd ∷ 80 ∷ 24 ∷ 0 ∷ 0x10000 ∷ 0x10000 ∷ []) ++ install_name ++ replicate 7 0

identity_command-fits : identity_command ≡ ok identity_bytes
unfolding pack_all to_le align fields_le
identity_command-fits = refl

abbrev pub build_bytes : Bool → List ℕ
build_bytes true = fields_le 4 (0x32 ∷ 24 ∷ 2 ∷ 983040 ∷ 983040 ∷ 0 ∷ [])
build_bytes false = fields_le 4 (0x32 ∷ 24 ∷ 1 ∷ 720896 ∷ 720896 ∷ 0 ∷ [])

build_command-fits : (ios : Bool) → build_command ios ≡ ok (build_bytes ios)
unfolding pack_all to_le fields_le
build_command-fits true = refl
build_command-fits false = refl

symbols_at-shift : (text_size : ℕ) → symbols_at text_size ≡ text_size + 32
unfolding uleb uleb_bytes align
symbols_at-shift text_size = refl

abbrev pub command_bytes : ℕ → ℕ → Bool → List ℕ
command_bytes text_size size ios =
    text_bytes text_size size
    ++ segment_bytes 72 (codes "__LINKEDIT") text_size page text_size page 1 0
    ++ identity_bytes
    ++ build_bytes ios
    ++ fields_le 4
        (0x80000022 ∷ 48 ∷ 0 ∷ 0 ∷ 0 ∷ 0 ∷ 0 ∷ 0 ∷ 0 ∷ 0 ∷ text_size ∷ length export_trie ∷ [])
    ++ fields_le 4
        (2 ∷ 24 ∷ symbols_at text_size ∷ 1 ∷ (symbols_at text_size + 16) ∷ (1 + length symbol) ∷ [])
    ++ fields_le 4 (0xb ∷ 80 ∷ 0 ∷ 0 ∷ 0 ∷ 1 ∷ 1 ∷ 0 ∷ replicate 12 0)

pub commands-fits :
    (text_size size : ℕ) (ios : Bool)
    → text_size < 2 ^ 31
    → size < 2 ^ 31
    → commands text_size size ios ≡ ok (command_bytes text_size size ios)
unfolding commands
commands-fits text_size size ios small fits =
    rw
      (
        text_command-fits text_size size small fits,
        segment_command-fits 72 (codes "__LINKEDIT") text_size page text_size page 1 0 (omega arith)
            (omega arith),
        identity_command-fits,
        build_command-fits ios,
        pack_all_fits 4
            (0x80000022 ∷ 48 ∷ 0 ∷ 0 ∷ 0 ∷ 0 ∷ 0 ∷ 0 ∷ 0 ∷ 0 ∷ text_size ∷ length export_trie ∷ [])
            (omega (arith, length-export_trie)),
        pack_all_fits 4
            (2
              ∷ 24
              ∷ symbols_at text_size
              ∷ 1
              ∷ (symbols_at text_size + 16)
              ∷ (1 + length symbol)
              ∷ [])
            (omega (arith, symbols_at-shift text_size)),
        pack_all_fits 4 (0xb ∷ 80 ∷ 0 ∷ 0 ∷ 0 ∷ 1 ∷ 1 ∷ 0 ∷ replicate 12 0) (omega arith),
      )
      refl
