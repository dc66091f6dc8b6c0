-- ===== src/PackElf/Veneer.antt =====
-- tools/pack_elf.py: `veneer`, the 32 instructions that replace one SVC.
use artbox.Base.{
  ℕ, zero, suc, ◌+◌, ◌*◌, ◌^◌, ◌<◌, bit_and, bit_or, ◌==◌, if◌then◌else◌, List, [], ◌∷◌, ◌++◌, map,
  length, Result, ok, require, ◌>>=◌, ◌>>◌, ◌≡◌, refl, arith, sym, ◌∙◌, ap, >>=-eq-ok, ok-injective,
  length-append, require-eq-ok, get_or-append_left, get_or-append_right,
}
use artbox.Base.Int.{pos, negsuc, and_mask, floor_div}
use artbox.Base.Bytes.{
  AllBelow, pack_all, fields_le, pack_all_fits, length-fields_le, le_at, byte_at, le_at-fields_le,
}
use artbox.PackElf.Branch.{branch, branch-decodes, branch_target}

-- `[(reg, reg + 1) for reg in range(1, 17, 2)] + [(17, 30)]`
abbrev pub pairs_from : ℕ → ℕ → List (ℕ × ℕ)
pairs_from zero reg = []
pairs_from (suc n) reg = (reg, reg + 1) ∷ pairs_from n (reg + 2)

abbrev pub pairs : List (ℕ × ℕ)
pairs = pairs_from 8 1 ++ (17, 30) ∷ []

-- `base | immediate << 15 | second << 10 | 31 << 5 | first`
abbrev pub pair_word : ℕ → ℕ → ℕ × ℕ → ℕ
pair_word base immediate (first, second) =
    bit_or (bit_or (bit_or (bit_or base (immediate * 2 ^ 15)) (second * 2 ^ 10)) (31 * 2 ^ 5)) first

-- STP of each pair; the first one makes room on the stack.
abbrev pub save_words : ℕ → List (ℕ × ℕ) → List ℕ
save_words index [] = []
save_words index (pair ∷ rest) =
    pair_word (if index == 0 then 0xa9800000 else 0xa9000000)
      (if index == 0 then and_mask (floor_div (negsuc 159) 8) 127 else index * 2) pair
    ∷ save_words (index + 1) rest

-- LDP of each pair behind the first.
abbrev pub restore_words : ℕ → List (ℕ × ℕ) → List ℕ
restore_words index [] = []
restore_words index (pair ∷ rest) =
    pair_word 0xa9400000 (index * 2) pair ∷ restore_words (index + 1) rest

abbrev pub moves : List (ℕ × ℕ)
moves = (7, 5) ∷ (6, 4) ∷ (5, 3) ∷ (4, 2) ∷ (3, 1) ∷ (2, 0) ∷ (1, 8) ∷ (0, 27) ∷ []

-- `0xaa0003e0 | source << 16 | destination`
abbrev pub move_word : ℕ × ℕ → ℕ
move_word (destination, source) = bit_or (bit_or 0xaa0003e0 (source * 2 ^ 16)) destination

abbrev pub tail_pairs : List (ℕ × ℕ) → List (ℕ × ℕ)
tail_pairs [] = []
tail_pairs (x ∷ xs) = xs

-- The words in front of the last branch.
unfoldable pub body_words : List ℕ
body_words =
    save_words 0 pairs
    ++ (0xd53b4209 ∷ 0xf9004be9 ∷ [])
    ++ map move_word moves
    ++ (0xd63f0380 ∷ 0xf9404be9 ∷ 0xd51b4209 ∷ [])
    ++ restore_words 1 (tail_pairs pairs)
    ++ (pair_word 0xa8c00000 20 (1, 2) ∷ [])

unfoldable pub veneer : ℕ → ℕ → Result (List ℕ)
veneer address resume = do
  back ← branch (address + length body_words * 4) resume
  let words = body_words ++ back ∷ []
  require (length words == 32) "internal veneer frame size mismatch"
  pack_all 4 words

length-body_words : length body_words ≡ 31
unfolding body_words
length-body_words = refl

body_words-fit : AllBelow (256 ^ 4) body_words
unfolding body_words
body_words-fit = omega arith

AllBelow-append : (m : ℕ) (xs ys : List ℕ) → AllBelow m xs → AllBelow m ys → AllBelow m (xs ++ ys)
AllBelow-append m [] ys hx hy = hy
AllBelow-append m (x ∷ xs) ys hx hy = (hx.0, AllBelow-append m xs ys hx.1 hy)

-- A veneer is its 31 words and the branch back, in 128 bytes.
pub veneer-words :
    (address resume : ℕ) {code : List ℕ}
    → veneer address resume ≡ ok code
    → (back : ℕ) × (branch (address + 124) resume ≡ ok back)
      × (code ≡ fields_le 4 (body_words ++ back ∷ []))
      × AllBelow (256 ^ 4) (body_words ++ back ∷ [])
unfolding veneer
veneer-words address resume h =
    let (back, found, h₁) = >>=-eq-ok (branch (address + length body_words * 4) resume) _ h in
    let (_, h₂) = require-eq-ok (length (body_words ++ back ∷ []) == 32) _ _ h₁ in
    let small : back < 2 ^ 32 = (branch-decodes _ resume found).1 in
    let fits = AllBelow-append (256 ^ 4) body_words (back ∷ []) body_words-fit (small, tt) in
    let packed = pack_all_fits 4 (body_words ++ back ∷ []) fits in
    (back, rw length-body_words at found, ok-injective (sym h₂ ∙ packed), fits)

pub length-veneer :
    (address resume : ℕ) {code : List ℕ} → veneer address resume ≡ ok code → length code ≡ 128
length-veneer address resume h =
    let (back, _, e, _) = veneer-words address resume h in
    ap length e
    ∙ length-fields_le 4 (body_words ++ back ∷ [])
    ∙ omega (arith, length-append body_words (back ∷ []), length-body_words)

-- No field of a veneer is refused: it is made whenever the branch back can be encoded.
pub veneer-eq-ok :
    (address resume back : ℕ)
    → branch (address + 124) resume ≡ ok back
    → veneer address resume ≡ ok (fields_le 4 (body_words ++ back ∷ []))
unfolding veneer
veneer-eq-ok address resume back found =
    let small : back < 2 ^ 32 = (branch-decodes _ resume found).1 in
    let fits = AllBelow-append (256 ^ 4) body_words (back ∷ []) body_words-fit (small, tt) in
    let size : length (body_words ++ back ∷ []) ≡ 32 =
      length-append body_words (back ∷ []) ∙ omega (arith, length-body_words) in
    rw (length-body_words, found, size) (pack_all_fits 4 (body_words ++ back ∷ []) fits)

-- The word number k of a veneer: those of the body, then the branch back.
pub word-veneer :
    (address resume : ℕ) {code : List ℕ}
    → veneer address resume ≡ ok code
    → ((k : ℕ) → k < 31 → le_at 4 code (4 * k) ≡ byte_at body_words k)
      × (bit_and (le_at 4 code 124) 0xfc000000 ≡ 0x14000000)
      × (branch_target (address + 124) (le_at 4 code 124) ≡ pos resume)
word-veneer address resume h =
    let (back, found, e, fits) = veneer-words address resume h in
    let words = body_words ++ back ∷ [] in
    let size : length words ≡ 32 =
      length-append body_words (back ∷ []) ∙ omega (arith, length-body_words) in
    let (opcode, _, lands) = branch-decodes _ resume found in
    let last : byte_at words 31 ≡ back =
      get_or-append_right body_words (back ∷ []) 31 0 (omega (arith, length-body_words))
      ∙ rw length-body_words refl in
    let read : le_at 4 (fields_le 4 words) 124 ≡ back =
      le_at-fields_le 4 words 31 (omega arith) fits ∙ last in
    (
      (λ k p. rw e (
          le_at-fields_le 4 words k (omega arith) fits
          ∙ get_or-append_left body_words (back ∷ []) k 0 (omega (arith, length-body_words)))),
      rw (e, read) opcode,
      rw (e, read) lands,
    )
