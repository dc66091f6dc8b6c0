-- ===== src/PackElf/Inspect/Sites.antt =====
-- tools/pack_elf.py: what an accepted text says of its words, and the sites that come back.
use mathlib.Core.List.{append-nil, append_assoc}
use artbox.Base.{
  ℕ, zero, suc, ◌+◌, ◌*◌, ◌/◌, ◌%◌, ◌≤◌, ◌<◌, ◌==◌, if◌then◌else◌, true, false, List, [], ◌∷◌, ◌++◌,
  length, ok, ◌≡◌, refl, ◌≢◌, arith, sym, ◌∙◌, ap, >>=-eq-ok, require-eq-ok, ok-injective, not,
  Bool-cases, inl, inr, ==_iff, bit_and,
}
use artbox.Base.Bytes.{unpack, le_at}
use artbox.PackElf.Inspect.{
  Decoded, svc, classify, inspect_at, inspect_from, inspect_text, last_word, note_site,
  any_reserved, stays, is_empty,
}

pub unpack-eq-ok :
    (n : ℕ) (bytes : List ℕ) (i : ℕ) {v : ℕ}
    → unpack n bytes i ≡ ok v
    → (i + n ≤ length bytes) × (le_at n bytes i ≡ v)
unfolding unpack
unpack-eq-ok n bytes i h = ground arith

classify-site :
    (size pc word : ℕ) (d : Decoded) → classify size pc word ≡ ok d → d.is_site ≡ (word == svc)
unfolding classify
classify-site size pc word d h = ground arith

-- What the checks at one offset establish.
pub record Inspected (image : List ℕ) (text_size pc : ℕ) (d : Decoded) : Type 0 where
  pub inside : pc + 4 ≤ length image
  pub known : classify (length image) pc (le_at 4 image pc) ≡ ok d
  pub free : any_reserved d.registers ≡ false
  pub lands : stays d.target text_size ≡ true

pub inspect_at-Inspected :
    (image : List ℕ) (text_size pc : ℕ) (d : Decoded)
    → inspect_at image text_size pc ≡ ok d
    → Inspected image text_size pc d
unfolding inspect_at
inspect_at-Inspected image text_size pc d h =
    let (word, read, h₁) = >>=-eq-ok (unpack 4 image pc) _ h in
    let (room, e) = unpack-eq-ok 4 image pc read in
    let (found, known, h₂) = >>=-eq-ok (classify (length image) pc word) _ h₁ in
    let (free, h₃) = require-eq-ok (not (any_reserved found.registers)) _ _ h₂ in
    let (lands, h₄) = require-eq-ok (stays found.target text_size) _ _ h₃ in
    let same : found ≡ d = ok-injective h₄ in
    record {
      inside = room;
      known = rw (e, ← same) known;
      free = rw (← same) (ground arith);
      lands = rw (← same) lands;
    }

-- The offsets among the next rounds at which the word is SVC #0.
abbrev pub svc_offsets : List ℕ → ℕ → ℕ → List ℕ
svc_offsets image zero pc = []
svc_offsets image (suc rounds) pc =
    let rest = svc_offsets image rounds (pc + 4) in
    if le_at 4 image pc == svc then pc ∷ rest else rest

inspect_from-svc_offsets :
    (image : List ℕ) (text_size rounds pc : ℕ) (sites : List ℕ) {out : List ℕ}
    → inspect_from image text_size rounds pc sites ≡ ok out
    → out ≡ sites ++ svc_offsets image rounds pc
unfolding inspect_from
inspect_from-svc_offsets image text_size zero pc sites h =
    sym (ok-injective h) ∙ sym (append-nil sites)
inspect_from-svc_offsets image text_size (suc rounds) pc sites {out} h =
    let (d, first, h₁) = >>=-eq-ok (inspect_at image text_size pc) _ h in
    let seen = inspect_at-Inspected image text_size pc d first in
    let kind = classify-site (length image) pc (le_at 4 image pc) d seen.known in
    let ih =
      inspect_from-svc_offsets image text_size rounds (pc + 4) (note_site sites pc d.is_site) h₁ in
    elim (Bool-cases (le_at 4 image pc == svc)) [
      | inl hit ↦
          rw hit
            (ih ∙ rw (kind, hit) (append_assoc sites (pc ∷ []) (svc_offsets image rounds (pc + 4))))
      | inr miss ↦ rw miss (ih ∙ rw (kind, miss) refl)
    ]

-- Every round of an accepted loop was inspected.
inspect_from-Inspected :
    (image : List ℕ) (text_size rounds pc : ℕ) (sites : List ℕ) {out : List ℕ}
    → inspect_from image text_size rounds pc sites ≡ ok out
    → (k : ℕ) → k < rounds
    → (d : Decoded) × Inspected image text_size (pc + 4 * k) d
unfolding inspect_from
inspect_from-Inspected image text_size zero pc sites h k p = absurd (omega arith)
inspect_from-Inspected image text_size (suc rounds) pc sites h zero p =
    let (d, first, _) = >>=-eq-ok (inspect_at image text_size pc) _ h in
    let e : pc + 4 * 0 ≡ pc = omega arith in
    (d, rw e (inspect_at-Inspected image text_size pc d first))
inspect_from-Inspected image text_size (suc rounds) pc sites h (suc k) p =
    let (d, _, h₁) = >>=-eq-ok (inspect_at image text_size pc) _ h in
    let e : pc + 4 * suc k ≡ pc + 4 + 4 * k = omega arith in
    rw e (
      inspect_from-Inspected image text_size rounds (pc + 4) (note_site sites pc d.is_site) h₁ k
        (omega arith))

-- The three parts of a successful inspection.
pub inspect_text-parts :
    (image : List ℕ) (text_size : ℕ) {sites : List ℕ}
    → inspect_text image text_size ≡ ok sites
    → ((final : ℕ) × (last_word image text_size ≡ ok final)
        × (bit_and final 0xfc000000 ≡ 0x14000000))
      × (inspect_from image text_size ((text_size + 3) / 4) 0 [] ≡ ok sites)
      × (sites ≢ [])
unfolding inspect_text
inspect_text-parts image text_size {sites} h =
    let (final, read, h₁) = >>=-eq-ok (last_word image text_size) _ h in
    let (branch, h₂) = require-eq-ok (bit_and final 0xfc000000 == 0x14000000) _ _ h₁ in
    let (found, loop, h₃) =
      >>=-eq-ok (inspect_from image text_size ((text_size + 3) / 4) 0 []) _ h₂ in
    let (some_site, h₄) = require-eq-ok (not (is_empty found)) _ _ h₃ in
    let same : found ≡ sites = ok-injective h₄ in
    (
      (final, read, (==_iff _ _).0 branch),
      rw (← same) loop,
      (λ e. ground (arith, ap is_empty (same ∙ e))),
    )

-- The sites that `inspect_text` returns are the offsets, in order, of the words of the text
-- that are SVC #0.
pub inspect_text-sites :
    (image : List ℕ) (text_size : ℕ) {sites : List ℕ}
    → inspect_text image text_size ≡ ok sites
    → sites ≡ svc_offsets image ((text_size + 3) / 4) 0
inspect_text-sites image text_size h =
    inspect_from-svc_offsets image text_size ((text_size + 3) / 4) 0 []
      (inspect_text-parts image text_size h).1

-- Every word at a multiple of four was inspected.
pub inspect_text-Inspected :
    (image : List ℕ) (text_size : ℕ) {sites : List ℕ}
    → inspect_text image text_size ≡ ok sites
    → (k : ℕ) → 4 * k < text_size
    → (d : Decoded) × Inspected image text_size (4 * k) d
inspect_text-Inspected image text_size h k p =
    let e : 0 + 4 * k ≡ 4 * k = omega arith in
    rw e at (
      inspect_from-Inspected image text_size ((text_size + 3) / 4) 0 []
        (inspect_text-parts image text_size h).1 k (omega arith))

-- Sites in order from an offset on, each an SVC of the text that lies within the image.
abbrev pub SitesFrom : List ℕ → ℕ → ℕ → List ℕ → Type 0
SitesFrom image text_size low [] = Unit {0}
SitesFrom image text_size low (s ∷ ss) =
    (low ≤ s)
    × (s < text_size)
    × (s % 4 ≡ 0)
    × (s + 4 ≤ length image)
    × (le_at 4 image s ≡ svc)
    × SitesFrom image text_size (s + 4) ss

pub SitesFrom-weaken :
    (image : List ℕ) (text_size low low' : ℕ) (sites : List ℕ)
    → low' ≤ low
    → SitesFrom image text_size low sites
    → SitesFrom image text_size low' sites
SitesFrom-weaken image text_size low low' [] le h = tt
SitesFrom-weaken image text_size low low' (s ∷ ss) le h = (omega arith, h.1, h.2, h.3, h.4, h.5)

inspect_from-SitesFrom :
    (image : List ℕ) (text_size rounds pc : ℕ) (sites : List ℕ) {out : List ℕ}
    → pc % 4 ≡ 0
    → pc + 4 * rounds < text_size + 4
    → inspect_from image text_size rounds pc sites ≡ ok out
    → SitesFrom image text_size pc (svc_offsets image rounds pc)
unfolding inspect_from
inspect_from-SitesFrom image text_size zero pc sites aligned bound h = tt
inspect_from-SitesFrom image text_size (suc rounds) pc sites aligned bound h =
    let (d, first, h₁) = >>=-eq-ok (inspect_at image text_size pc) _ h in
    let seen = inspect_at-Inspected image text_size pc d first in
    let ih =
      inspect_from-SitesFrom image text_size rounds (pc + 4) (note_site sites pc d.is_site)
        (omega arith) (omega arith) h₁ in
    elim (Bool-cases (le_at 4 image pc == svc)) [
      | inl hit ↦ rw hit (omega arith, omega arith, aligned, seen.inside, (==_iff _ _).0 hit, ih)
      | inr miss ↦ rw miss (
          SitesFrom-weaken image text_size (pc + 4) pc (svc_offsets image rounds (pc + 4))
            (omega arith) ih)
    ]

pub inspect_text-SitesFrom :
    (image : List ℕ) (text_size : ℕ) {sites : List ℕ}
    → inspect_text image text_size ≡ ok sites
    → SitesFrom image text_size 0 sites
inspect_text-SitesFrom image text_size h = rw (inspect_text-sites image text_size h) (
    inspect_from-SitesFrom image text_size ((text_size + 3) / 4) 0 [] refl (omega arith)
      (inspect_text-parts image text_size h).1)
