-- ===== src/PackElf/Inspect.antt =====
-- tools/pack_elf.py: `inspect_text`, the instruction contract of the input's text.
pub mod Sites
pub mod Families
pub mod Fields
pub mod Contract
use artbox.Base.{
  ℕ, zero, suc, ◌+◌, ◌-◌, ◌*◌, ◌/◌, ◌^◌, bit_and, bit_or, ltb, leb, ◌==◌, ◌&&◌, ◌||◌, not,
  if◌then◌else◌, Bool, true, false, Option, none, some, List, [], ◌∷◌, ◌++◌, length, Result, ok,
  err, require, ◌>>=◌, ◌>>◌, String,
}
use artbox.Base.Int.{ℤ, pos, leb_ℤ, ltb_ℤ, ◌+ℤ◌, scale}
use artbox.Base.Bytes.{unpack, struct_error, le_at}
use artbox.PackElf.Numbers.{signed}
use artbox.PackElf.Branch.{branch_target}

-- SVC #0, the only call of the kernel that the input may make.
abbrev pub svc : ℕ
svc = 0xd4000001

-- What one instruction contributes: a site to patch, the registers that it names, its branch target.
pub record Decoded : Type 0 where
  pub is_site : Bool
  pub registers : List ℕ
  pub target : Option ℤ

abbrev pub site : Decoded
site = record { is_site = true; registers = []; target = none }

abbrev pub uses : List ℕ → Decoded
uses registers = record { is_site = false; registers = registers; target = none }

abbrev pub jumps : List ℕ → ℤ → Decoded
jumps registers target = record { is_site = false; registers = registers; target = some target }

-- `word >> low & 31`
abbrev pub register_at : ℕ → ℕ → ℕ
register_at word low = bit_and (word / 2 ^ low) 31

-- The byte displacement of ADR.
unfoldable pub adr_immediate : ℕ → ℕ
adr_immediate word = bit_or (bit_and (word / 2 ^ 5) 0x7ffff * 2 ^ 2) (bit_and (word / 2 ^ 29) 3)

unfoldable pub adr_target : ℕ → ℕ → ℤ
adr_target pc word = pos pc +ℤ signed (adr_immediate word) 21

-- `pc + signed(word >> 5 & 0x7ffff, 19) * 4`, of B.cond and CBZ/CBNZ.
unfoldable pub short_target : ℕ → ℕ → ℤ
short_target pc word = pos pc +ℤ scale (signed (bit_and (word / 2 ^ 5) 0x7ffff) 19) 4

-- `0 <= value < bound`
abbrev pub within : ℤ → ℕ → Bool
within value bound = leb_ℤ (pos 0) value && ltb_ℤ value (pos bound)

-- The chain of tests on one word; the message of the last branch also names the word and its place.
unfoldable pub classify : ℕ → ℕ → ℕ → Result Decoded
classify size pc word =
    if word == svc
    then ok site
    else if word == 0xd503201f
    then ok (uses [])
    else if bit_and word 0xff800000 == 0xd2800000 || bit_and word 0xff800000 == 0x92800000
    then ok (uses (bit_and word 31 ∷ []))
    else if bit_and word 0xffe0ffe0 == 0xaa0003e0
    then ok (uses (bit_and word 31 ∷ register_at word 16 ∷ []))
    else if bit_and word 0xffc0001f == 0xf100001f
    then ok (uses (register_at word 5 ∷ []))
    else if bit_and word 0xffe0fc1f == 0xeb00001f
    then ok (uses (register_at word 5 ∷ register_at word 16 ∷ []))
    else if bit_and word 0x9f000000 == 0x10000000
    then (require (within (adr_target pc word) size) "ADR escapes image"
        >> ok (uses (bit_and word 31 ∷ [])))
    else if bit_and word 0xfc000000 == 0x14000000
    then ok (jumps [] (branch_target pc word))
    else if bit_and word 0xff000010 == 0x54000000
    then ok (jumps [] (short_target pc word))
    else if bit_and word 0x7e000000 == 0x34000000
    then ok (jumps (bit_and word 31 ∷ []) (short_target pc word))
    else if bit_and word 0xffc00000 == 0xf9400000 || bit_and word 0xffc00000 == 0xf9000000
    then ok (uses (bit_and word 31 ∷ register_at word 5 ∷ []))
    else err "unsupported instruction"

abbrev pub is_reserved : ℕ → Bool
is_reserved r = r == 18 || r == 27 || r == 28

-- `{18, 27, 28}.intersection(registers)` is not empty.
abbrev pub any_reserved : List ℕ → Bool
any_reserved [] = false
any_reserved (r ∷ rs) = is_reserved r || any_reserved rs

abbrev pub stays : Option ℤ → ℕ → Bool
stays none text_size = true
stays (some target) text_size = within target text_size

-- The body of the loop at one offset.
unfoldable pub inspect_at : List ℕ → ℕ → ℕ → Result Decoded
unfolding unpack classify
inspect_at image text_size pc = do
  word ← unpack 4 image pc
  decoded ← classify (length image) pc word
  require (not (any_reserved decoded.registers)) "input uses a reserved host/bridge register"
  require (stays decoded.target text_size) "branch escapes text"
  ok decoded

abbrev pub note_site : List ℕ → ℕ → Bool → List ℕ
note_site sites pc true = sites ++ pc ∷ []
note_site sites pc false = sites

-- `for pc in range(0, text_size, 4)`, with the rounds that are left.
unfoldable pub inspect_from : List ℕ → ℕ → ℕ → ℕ → List ℕ → Result (List ℕ)
unfolding inspect_at
inspect_from image text_size zero pc sites = ok sites
inspect_from image text_size (suc rounds) pc sites = do
  decoded ← inspect_at image text_size pc
  inspect_from image text_size rounds (pc + 4) (note_site sites pc decoded.is_site)

-- `struct.unpack_from("<I", image, text_size - 4)[0]`: below 4 the offset is negative and counts
-- from the end of the image.
unfoldable pub last_word : List ℕ → ℕ → Result ℕ
unfolding unpack
last_word image text_size =
    if leb 4 text_size
    then unpack 4 image (text_size - 4)
    else if text_size == 0 && leb 4 (length image)
    then unpack 4 image (length image - 4)
    else err struct_error

abbrev pub is_empty : List ℕ → Bool
is_empty [] = true
is_empty (x ∷ xs) = false

unfoldable pub inspect_text : List ℕ → ℕ → Result (List ℕ)
unfolding last_word inspect_from
inspect_text image text_size = do
  final ← last_word image text_size
  require (bit_and final 0xfc000000 == 0x14000000)
      "text must end in an unconditional branch, with no fallthrough into constants"
  sites ← inspect_from image text_size ((text_size + 3) / 4) 0 []
  require (not (is_empty sites)) "input has no Linux SVC sites"
  ok sites
