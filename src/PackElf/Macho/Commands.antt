-- ===== src/PackElf/Macho/Commands.antt =====
-- tools/pack_elf.py: the load commands that `macho` writes, as a loader walks them.
use artbox.Base.{
  ℕ, ◌+◌, ◌^◌, ◌≤◌, ◌<◌, Bool, true, false, List, [], ◌∷◌, ◌++◌, length, ok, ◌≡◌, refl, ◌∙◌, arith,
}
use artbox.Base.Bytes.{
  le_at, le_at_ext, to_le, pack_all_fits, fields_le, length-fields_le, le_at-to_le,
}
use artbox.PackElf.Numbers.{page, align_lem}
use artbox.PackElf.Macho.{text_size_of, assembled, macho}
use artbox.PackElf.Macho.Image.{assembled-parts}
use artbox.PackElf.Macho.Encoded.{command_bytes, commands-fits}

-- The walk of a loader over the commands: their kinds and sizes, up to an end.
abbrev pub Walk : List ℕ → ℕ → List (ℕ × ℕ) → ℕ → Type 0
Walk bytes position [] end = position ≡ end
Walk bytes position (c ∷ cs) end =
    (le_at 4 bytes position ≡ c.0)
    × (le_at 4 bytes (position + 4) ≡ c.1)
    × Walk bytes (position + c.1) cs end

abbrev pub kinds : List (ℕ × ℕ)
kinds =
    (0x19, 152) ∷ (0x19, 72) ∷ (0xd, 80) ∷ (0x32, 24) ∷ (0x80000022, 48) ∷ (2, 24) ∷ (0xb, 80) ∷ []

-- The header and the commands of the file.
abbrev header_words : List ℕ
header_words = 0xfeedfacf ∷ 0x100000c ∷ 0 ∷ 6 ∷ 7 ∷ 480 ∷ 0x100085 ∷ 0 ∷ []

abbrev start_bytes : ℕ → ℕ → Bool → List ℕ
start_bytes text_size size ios = fields_le 4 header_words ++ command_bytes text_size size ios

length-command_bytes :
    (text_size size : ℕ) (ios : Bool) → length (command_bytes text_size size ios) ≡ 480
unfolding fields_le to_le
length-command_bytes text_size size true = refl
length-command_bytes text_size size false = refl

length-start_bytes :
    (text_size size : ℕ) (ios : Bool) → length (start_bytes text_size size ios) ≡ 512
unfolding fields_le to_le
length-start_bytes text_size size true = refl
length-start_bytes text_size size false = refl

-- What a loader reads of a file that begins with the header and the commands.
abbrev pub IsLoadable : List ℕ → Type 0
IsLoadable out =
    (le_at 4 out 0 ≡ 0xfeedfacf)
    × (le_at 4 out 12 ≡ 6)
    × (le_at 4 out 16 ≡ 7)
    × (le_at 4 out 20 ≡ 480)
    × Walk out 32 kinds 512

-- Where the segments and the section are mapped: the text from the start of the file at address 0,
-- the guest section one page behind, and the link data behind the text.
abbrev pub IsMapped : ℕ → ℕ → List ℕ → Type 0
IsMapped text_size size out =
    (le_at 8 out 56 ≡ 0)
    × (le_at 8 out 64 ≡ text_size)
    × (le_at 8 out 72 ≡ 0)
    × (le_at 8 out 80 ≡ text_size)
    × (le_at 8 out 136 ≡ page)
    × (le_at 8 out 144 ≡ size)
    × (le_at 4 out 152 ≡ page)
    × (le_at 8 out 208 ≡ text_size)
    × (le_at 8 out 224 ≡ text_size)

started-IsMapped :
    (text_size size : ℕ) (ios : Bool) (out : List ℕ)
    → text_size < 2 ^ 31
    → size < 2 ^ 31
    → ((n j : ℕ) → j + n ≤ 512 → le_at n out j ≡ le_at n (start_bytes text_size size ios) j)
    → IsMapped text_size size out
unfolding fields_le to_le le_at
started-IsMapped text_size size ios out small fits at =
    let t = le_at-to_le 8 text_size (omega arith) in
    let s = le_at-to_le 8 size (omega arith) in
    (
      at 8 56 (omega arith),
      at 8 64 (omega arith) ∙ t,
      at 8 72 (omega arith),
      at 8 80 (omega arith) ∙ t,
      at 8 136 (omega arith),
      at 8 144 (omega arith) ∙ s,
      at 4 152 (omega arith),
      at 8 208 (omega arith) ∙ t,
      at 8 224 (omega arith) ∙ t,
    )

started-IsLoadable :
    (text_size size : ℕ) (ios : Bool) (out : List ℕ)
    → ((j : ℕ) → j + 4 ≤ 512 → le_at 4 out j ≡ le_at 4 (start_bytes text_size size ios) j)
    → IsLoadable out
unfolding fields_le to_le le_at
started-IsLoadable text_size size true out at = (
  at 0 (omega arith),
  at 12 (omega arith),
  at 16 (omega arith),
  at 20 (omega arith),
  (
    at 32 (omega arith),
    at 36 (omega arith),
    (
      at 184 (omega arith),
      at 188 (omega arith),
      (
        at 256 (omega arith),
        at 260 (omega arith),
        (
          at 336 (omega arith),
          at 340 (omega arith),
          (
            at 360 (omega arith),
            at 364 (omega arith),
            (
              at 408 (omega arith),
              at 412 (omega arith),
              (at 432 (omega arith), at 436 (omega arith), refl),
            ),
          ),
        ),
      ),
    ),
  ),
)
started-IsLoadable text_size size false out at = (
  at 0 (omega arith),
  at 12 (omega arith),
  at 16 (omega arith),
  at 20 (omega arith),
  (
    at 32 (omega arith),
    at 36 (omega arith),
    (
      at 184 (omega arith),
      at 188 (omega arith),
      (
        at 256 (omega arith),
        at 260 (omega arith),
        (
          at 336 (omega arith),
          at 340 (omega arith),
          (
            at 360 (omega arith),
            at 364 (omega arith),
            (
              at 408 (omega arith),
              at 412 (omega arith),
              (at 432 (omega arith), at 436 (omega arith), refl),
            ),
          ),
        ),
      ),
    ),
  ),
)

-- For a payload below 2 ** 30 bytes and either platform `macho` succeeds; the file begins with
-- the header of a Mach-O dylib of seven commands, walking them by their sizes meets the
-- expected kinds and ends at the end that the header gives, and the segment and section fields
-- map the text from the start of the file at address 0, the payload in it one page behind, and
-- the link data behind the text.
pub macho_total :
    (payload : List ℕ) (ios : Bool)
    → length payload < 2 ^ 30
    → (out : List ℕ) × (macho payload ios ≡ ok out)
      × IsLoadable out
      × IsMapped (text_size_of payload) (length payload) out
unfolding macho
macho_total payload ios small =
    let text_size = text_size_of payload in
    let (_, above, near) = align_lem 14 (page + length payload) in
    let made = commands-fits text_size (length payload) ios (omega arith) (omega arith) in
    let code = command_bytes text_size (length payload) ios in
    let start = start_bytes text_size (length payload) ios in
    let long = length-command_bytes text_size (length payload) ios in
    let whole = length-start_bytes text_size (length payload) ios in
    let out = assembled start payload text_size in
    let started = (assembled-parts start payload text_size (omega (arith, whole)) above).1 in
    let at : (n j : ℕ) → j + n ≤ 512 → le_at n out j ≡ le_at n start j = λ n j h.
      le_at_ext n out start j j (λ k p.
        let e : 0 + (j + k) ≡ j + k = omega arith in
        rw e at (started (j + k) (omega (arith, whole)))) in
    (
      out,
      rw (made, long, pack_all_fits 4 header_words (omega arith), length-fields_le 4 header_words)
          refl,
      started-IsLoadable text_size (length payload) ios out (at 4),
      started-IsMapped text_size (length payload) ios out (omega arith) (omega arith) at,
    )
