-- ===== src/Adapt/Syscalls.antt =====
-- scripts/bionic_syscalls.py: `call_frame` and `adapt_generated`, which replaces the kernel entry in
-- the generated ARM64 system calls by a call of the run-time. Which characters beyond ASCII are word
-- characters is a parameter.
pub mod Registers
pub mod Generated
use artbox.Base.{
  ℕ, zero, suc, ◌+◌, ◌-◌, ltb, leb, ◌==◌, ◌&&◌, ◌||◌, not, if◌then◌else◌, Bool, true, false, String,
  List, [], ◌∷◌, ◌++◌, length, Result, ok, require, ◌>>=◌, ◌>>◌,
}
use artbox.Base.Text.{codes}
use artbox.Paths.{contains}
use artbox.Sources.Archive.{starts_with}
use artbox.Adapt.Replace.{replace_unique}

abbrev newline : List ℕ
newline = 10 ∷ []

-- A line of the assembly.
abbrev pub line : String → List ℕ
line text = codes text ++ newline

unfoldable pub call_frame : List ℕ → List ℕ
call_frame moves =
    line "    // ARTBox: fixed-width C call; preserve the caller's frame and return address."
    ++ (line "    stp     x29, x30, [sp, #-16]!"
        ++ (line "    .cfi_def_cfa_offset 16"
            ++ (line "    .cfi_offset x29, -16"
                ++ (line "    .cfi_offset x30, -8"
                    ++ (line "    mov     x29, sp"
                        ++ (moves
                            ++ (line "    bl      artbox_bionic_syscall"
                                ++ (line "    ldp     x29, x30, [sp], #16"
                                    ++ (line "    .cfi_def_cfa_offset 0"
                                        ++ (line "    .cfi_restore x29"
                                            ++ line "    .cfi_restore x30"))))))))))

-- An entry of `calls`: `func`, `name` and the number of `params`.
pub record Call : Type 0 where
  pub func : List ℕ
  pub name : List ℕ
  pub params : ℕ

-- What a `mov` of the template reads.
pub data Operand : Type 0 where
  register : ℕ → Operand
  zero_register : Operand
  call_number : List ℕ → Operand

abbrev pub Move : Type 0
Move = ℕ × Operand

-- `for i in reversed(range(count))`
unfoldable pub shift_moves : ℕ → List Move
shift_moves zero = []
shift_moves (suc i) = (i + 1, register i) ∷ shift_moves i

-- `for i in range(first, first + rounds)`
unfoldable pub clear_moves : ℕ → ℕ → List Move
clear_moves first zero = []
clear_moves first (suc rounds) = (first, zero_register) ∷ clear_moves (suc first) rounds

unfoldable pub moves_of : List ℕ → ℕ → List Move
moves_of number count =
    shift_moves count ++ (clear_moves (count + 1) (7 - (count + 1)) ++ (0, call_number number) ∷ [])

-- A register number; those of the template have one digit.
abbrev digit : ℕ → List ℕ
digit i = (48 + i) ∷ []

abbrev operand_text : Operand → List ℕ
operand_text (register i) = codes "x" ++ digit i
operand_text zero_register = codes "xzr"
operand_text (call_number number) = codes "__NR_" ++ number

unfoldable pub moves_text : List Move → List ℕ
moves_text [] = []
moves_text (m ∷ ms) =
    codes "    mov     x"
    ++ (digit m.0 ++ (codes ", " ++ (operand_text m.1 ++ (newline ++ moves_text ms))))

-- `f"ENTRY({function})\n"`
abbrev pub entry_line : List ℕ → List ℕ
entry_line function = codes "ENTRY(" ++ (function ++ (codes ")" ++ newline))

-- `before`
abbrev pub kernel_entry : List ℕ → List ℕ → List ℕ
kernel_entry function number =
    entry_line function
    ++ (codes "    mov     x8, __NR_" ++ (number ++ (newline ++ line "    svc     #0")))

-- What stands there afterwards.
abbrev pub framed_entry : List ℕ → List ℕ → ℕ → List ℕ
framed_entry function number count =
    entry_line function ++ call_frame (moves_text (moves_of number count))

abbrev is_between : ℕ → ℕ → ℕ → Bool
is_between low high c = leb low c && leb c high

abbrev pub is_letter : ℕ → Bool
is_letter c = is_between 65 90 c || is_between 97 122 c || c == 95

-- `\s` of a pattern on `str`.
abbrev pub is_blank : ℕ → Bool
is_blank c =
    is_between 9 13 c
    || is_between 28 32 c
    || c == 0x85
    || c == 0xa0
    || c == 0x1680
    || is_between 0x2000 0x200a c
    || c == 0x2028
    || c == 0x2029
    || c == 0x202f
    || c == 0x205f
    || c == 0x3000

abbrev starts_blank : List ℕ → Bool
starts_blank [] = false
starts_blank (c ∷ cs) = is_blank c

-- The rest of a text that begins with `svc`.
abbrev after_svc : List ℕ → Bool
after_svc (s ∷ v ∷ c ∷ rest) = s == 115 && v == 118 && c == 99 && starts_blank rest
after_svc (s ∷ v ∷ []) = false
after_svc (s ∷ []) = false
after_svc [] = false

module _ (wide : ℕ → Bool) where
  -- `\w` of a pattern on `str`.
  abbrev pub is_word : ℕ → Bool
  is_word c = if ltb c 128 then is_letter c || is_between 48 57 c else wide c

  unfoldable pub all_word : List ℕ → Bool
  all_word [] = true
  all_word (c ∷ cs) = is_word c && all_word cs

  -- `re.fullmatch(r"[A-Za-z_]\w*", text)`
  unfoldable pub is_identifier : List ℕ → Bool
  is_identifier [] = false
  is_identifier (c ∷ cs) = is_letter c && all_word cs

  -- `re.search(r"\bsvc\s", text)`, behind a word character or not.
  unfoldable pub has_svc : Bool → List ℕ → Bool
  has_svc behind_word [] = false
  has_svc behind_word (c ∷ cs) = (not behind_word && after_svc (c ∷ cs)) || has_svc (is_word c) cs

  -- `for call in calls`
  unfoldable pub adapt_calls : List (List ℕ) → List Call → List ℕ → Result (List ℕ)
  adapt_calls seen [] source = ok source
  adapt_calls seen (call ∷ calls) source = do
    require
        (not (
          contains call.func seen
          || not (is_identifier call.func)
          || not (is_identifier call.name)
          || ltb 6 call.params))
        "Unsupported or duplicate ARM64 syscall declaration"
    source' ←
        replace_unique "AOSP syscall template drift or duplicate entry"
          (kernel_entry call.func call.name) (framed_entry call.func call.name call.params) source
    adapt_calls (call.func ∷ seen) calls source'

  unfoldable pub adapt_generated : List ℕ → List Call → Result (List ℕ)
  adapt_generated source calls = do
    adapted ← adapt_calls [] calls source
    require (not (has_svc false adapted))
        "Unadapted kernel entry remains in generated Bionic syscalls"
    ok adapted
