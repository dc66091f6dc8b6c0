-- ===== src/PackElf/Inspect/Contract.antt =====
-- tools/pack_elf.py: the contract of an accepted text by the fields of the A64 encoding, without the
-- masks and the decoded values of `inspect_text`.
use mathlib.Core.Path.{subst}
use artbox.Base.{
  ◌⊎◌, ℕ, ◌+◌, ◌-◌, ◌*◌, ◌/◌, ◌^◌, ◌≤◌, ◌<◌, bit_and, leb, ◌==◌, ◌||◌, if◌then◌else◌, Bool, true,
  false, List, [], length, Result, ok, ◌≡◌, ◌≢◌, refl, sym, arith, ==_iff, require-elim,
  ok-injective,
}
use artbox.Base.Bytes.{le_at}
use artbox.PackElf.Inspect.{
  Decoded, svc, adr_target, within, classify, any_reserved, stays, last_word, inspect_text,
}
use artbox.PackElf.Inspect.Sites.{
  svc_offsets, unpack-eq-ok, inspect_text-parts, inspect_text-sites, inspect_text-Inspected,
}
use artbox.PackElf.Inspect.Fields.{
  field, IsFree, Lands, mask_fields, branch_target-Lands, short_target-Lands, adr_target-Lands,
  move_fields, transfer_fields, register_fields, immediate_fields, compare_fields, address_fields,
  conditional_fields, low-IsFree, at-IsFree, low_and-IsFree, both-IsFree,
}

-- The instructions that a text may hold at a place, by their encodings.
pub data InContract (size text_size pc word : ℕ) : Type 0 where
  supervisor_call : word ≡ 0xd4000001 → InContract size text_size pc word
  no_operation : word ≡ 0xd503201f → InContract size text_size pc word
  move_wide :
      (field word 23 9 ≡ 0x1a5) ⊎ (field word 23 9 ≡ 0x125)
      → IsFree (field word 0 5)
      → InContract size text_size pc word
  move_register :
      (field word 21 11 ≡ 0x550) × (field word 5 11 ≡ 0x1f)
      → IsFree (field word 0 5)
      → IsFree (field word 16 5)
      → InContract size text_size pc word
  compare_immediate :
      (field word 22 10 ≡ 0x3c4) × (field word 0 5 ≡ 31)
      → IsFree (field word 5 5)
      → InContract size text_size pc word
  compare_register :
      (field word 21 11 ≡ 0x758) × (field word 10 6 ≡ 0) × (field word 0 5 ≡ 31)
      → IsFree (field word 5 5)
      → IsFree (field word 16 5)
      → InContract size text_size pc word
  address :
      (field word 31 1 ≡ 0) × (field word 24 5 ≡ 16)
      → IsFree (field word 0 5)
      → Lands (2 ^ 20) 1 (field word 5 19 * 4 + field word 29 2) pc size
      → InContract size text_size pc word
  jump :
      field word 26 6 ≡ 5
      → Lands (2 ^ 25) 4 (field word 0 26) pc text_size
      → InContract size text_size pc word
  conditional :
      (field word 24 8 ≡ 0x54) × (field word 4 1 ≡ 0)
      → Lands (2 ^ 18) 4 (field word 5 19) pc text_size
      → InContract size text_size pc word
  compare_zero :
      field word 25 6 ≡ 0x1a
      → IsFree (field word 0 5)
      → Lands (2 ^ 18) 4 (field word 5 19) pc text_size
      → InContract size text_size pc word
  load_or_store :
      (field word 22 10 ≡ 0x3e5) ⊎ (field word 22 10 ≡ 0x3e4)
      → IsFree (field word 0 5)
      → IsFree (field word 5 5)
      → InContract size text_size pc word

if-elim :
    {A P : Type 0} (b : Bool) (x y z : A)
    → (if b then x else y) ≡ z
    → (b ≡ true → x ≡ z → P)
    → (b ≡ false → y ≡ z → P)
    → P
if-elim true x y z e first second = first refl e
if-elim false x y z e first second = second refl e

-- What the checks of the decoded values say, where they are those of a word.
abbrev Checked : ℕ → Decoded → Type 0
Checked text_size d = (any_reserved d.registers ≡ false) × (stays d.target text_size ≡ true)

module _ (size text_size pc word : ℕ) where
  -- A word that `classify` accepts and whose decoded values are checked is in the contract.
  classify-InContract :
      (d : Decoded)
      → classify size pc word ≡ ok d
      → Checked text_size d
      → InContract size text_size pc word
  unfolding classify
  classify-InContract d known checked =
      let R : Decoded → Result Decoded = λ (x : Decoded). ok x in
      let on : (x : Decoded) → R x ≡ R d → Checked text_size x =
        λ x e. subst (λ y. Checked text_size y) (sym (ok-injective e)) checked in
      if-elim (word == svc) _ _ _ known (λ t e. supervisor_call ((==_iff _ _).0 t))
        λ _ k₁.
          if-elim (word == 0xd503201f) _ _ _ k₁ (λ t e. no_operation ((==_iff _ _).0 t))
            λ _ k₂.
              if-elim
                (bit_and word 0xff800000 == 0xd2800000 || bit_and word 0xff800000 == 0x92800000) _ _
                _ k₂ (λ t e. move_wide (move_fields word t) (low-IsFree word (on _ e).0))
                λ _ k₃.
                  if-elim (bit_and word 0xffe0ffe0 == 0xaa0003e0) _ _ _ k₃
                    (λ t e.
                      let (low, high) = low_and-IsFree word 16 (on _ e).0 in
                      move_register (register_fields word ((==_iff _ _).0 t)) low high)
                    λ _ k₄.
                      if-elim (bit_and word 0xffc0001f == 0xf100001f) _ _ _ k₄
                        (λ t e.
                          compare_immediate (immediate_fields word ((==_iff _ _).0 t))
                            (at-IsFree word 5 (on _ e).0))
                        λ _ k₅.
                          if-elim (bit_and word 0xffe0fc1f == 0xeb00001f) _ _ _ k₅
                            (λ t e.
                              let (low, high) = both-IsFree word 5 16 (on _ e).0 in
                              compare_register (compare_fields word ((==_iff _ _).0 t)) low high)
                            λ _ k₆.
                              if-elim (bit_and word 0x9f000000 == 0x10000000) _ _ _ k₆
                                (λ t e.
                                  require-elim (within (adr_target pc word) size)
                                    "ADR escapes image" e
                                    λ inside e'.
                                      address (address_fields word ((==_iff _ _).0 t))
                                        (low-IsFree word (on _ e').0)
                                        (adr_target-Lands pc size word inside))
                                λ _ k₇.
                                  if-elim (bit_and word 0xfc000000 == 0x14000000) _ _ _ k₇
                                    (λ t e.
                                      jump
                                        (mask_fields 26 6 word 0 5 0 (omega arith) (omega arith)
                                          ((==_iff _ _).0 t)).0
                                        (branch_target-Lands pc text_size word (on _ e).1))
                                    λ _ k₈.
                                      if-elim (bit_and word 0xff000010 == 0x54000000) _ _ _ k₈
                                        (λ t e.
                                          conditional (conditional_fields word ((==_iff _ _).0 t))
                                            (short_target-Lands pc text_size word (on _ e).1))
                                        λ _ k₉.
                                          if-elim (bit_and word 0x7e000000 == 0x34000000) _ _ _ k₉
                                            (λ t e.
                                              compare_zero
                                                (mask_fields 25 6 word 0 0x1a 0 (omega arith)
                                                  (omega arith) ((==_iff _ _).0 t)).0
                                                (low-IsFree word (on _ e).0)
                                                (short_target-Lands pc text_size word (on _ e).1))
                                            λ _ kA.
                                              if-elim
                                                (bit_and word 0xffc00000 == 0xf9400000
                                                  || bit_and word 0xffc00000 == 0xf9000000)
                                                _ _ _ kA
                                                (λ t e.
                                                  let (low, high) =
                                                    low_and-IsFree word 5 (on _ e).0 in
                                                  load_or_store (transfer_fields word t) low high)
                                                λ _ unknown. cc

-- What an accepted text is: words of the contract up to an unconditional branch, and the sites, of
-- which there are some, are where its supervisor calls stand.
pub record IsAccepted (image : List ℕ) (text_size : ℕ) (sites : List ℕ) : Type 0 where
  pub words :
      (k : ℕ)
      → 4 * k < text_size
      → (4 * k + 4 ≤ length image)
        × InContract (length image) text_size (4 * k) (le_at 4 image (4 * k))
  pub last : 4 ≤ text_size → field (le_at 4 image (text_size - 4)) 26 6 ≡ 5
  pub some_site : sites ≢ []
  pub sites_are : sites ≡ svc_offsets image ((text_size + 3) / 4) 0

last_word-at :
    (image : List ℕ) (text_size final : ℕ)
    → 4 ≤ text_size
    → last_word image text_size ≡ ok final
    → le_at 4 image (text_size - 4) ≡ final
unfolding last_word
last_word-at image text_size final room e =
    let enough : leb 4 text_size ≡ true = ground arith in
    (unpack-eq-ok 4 image (text_size - 4) (rw enough at e)).1

-- In a text that `inspect_text` accepts, every word at a multiple of four lies in the image and
-- is, by the fields of its encoding, SVC #0, NOP, MOVZ or MOVN, MOV or CMP of registers, CMP of
-- an immediate, ADR, B, a conditional branch, CBZ or CBNZ, or LDR or STR with an offset; no
-- register field of the word is 18, 27 or 28, ADR leads into the image and a branch into the
-- text. The last word of a text of four bytes or more is B. The sites are the offsets of the
-- words that are SVC #0, in order, and there is one.
pub inspect_text-IsAccepted :
    (image : List ℕ) (text_size : ℕ) (sites : List ℕ)
    → inspect_text image text_size ≡ ok sites
    → IsAccepted image text_size sites
inspect_text-IsAccepted image text_size sites h =
    let ((final, read, branch), loop, some_site) = inspect_text-parts image text_size h in
    record {
      words = λ k below.
          let (d, seen) = inspect_text-Inspected image text_size h k below in
          (
            seen.inside,
            classify-InContract (length image) text_size (4 * k) (le_at 4 image (4 * k)) d
                seen.known (seen.free, seen.lands),
          );
      last = λ room.
          rw (last_word-at image text_size final room read)
            (mask_fields 26 6 final 0 5 0 (omega arith) (omega arith) branch).0;
      some_site = some_site;
      sites_are = inspect_text-sites image text_size h;
    }
