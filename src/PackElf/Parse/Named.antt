-- ===== src/PackElf/Parse/Named.antt =====
-- tools/pack_elf.py: where the sections that `parse_elf` finds by name stand in the file.
use artbox.Base.{
  ◌==◌, ℕ, zero, suc, ◌+◌, ◌*◌, ◌<◌, ltb, leb, ◌≡◌, sym, ap, ◌∙◌, none, some, List, [], ◌∷◌, ◌++◌,
  length, drop, ok, arith, not, >>=-elim, require-elim, require-eq-ok, ok-injective, Bool-cases,
  Option-cases, inl, inr, ==_iff, if◌then◌else◌, bit_and, ◌-◌, ◌||◌,
}
use artbox.Base.Text.{◌≟◌, ≟_iff}
use artbox.Paths.Laws.{Every, Every-append}
use artbox.Elf.{Program, Section, read_section, section_at}
use artbox.PackElf.Sections.{
  truncated, Names, find_name, is_some, named, nth, read_sections, until_zero, all_ascii,
  section_name, check_allocated, add_section, add_sections,
}

-- A section of a table, by its number, whose name in the bytes of the name table ends with a zero.
pub record IsNamed (bytes strings : List ℕ) (shoff shnum : ℕ) (e : List ℕ × ℕ × Section)
    : Type 0 where
  pub numbered : e.1 < shnum
  pub stands : e.2 ≡ section_at bytes (shoff + e.1 * 64)
  pub behind : List ℕ
  pub spelled : drop (e.2).name strings ≡ e.0 ++ (0 ∷ behind)

some-injective : {name name' : List ℕ} → some name ≡ some name' → name ≡ name'
some-injective e = cc

no_name : {name : List ℕ} → none ≡ some name → ⊥
no_name e = cc

until_zero-split :
    (bytes name : List ℕ)
    → until_zero bytes ≡ some name
    → (behind : List ℕ) × (bytes ≡ name ++ (0 ∷ behind))
unfolding until_zero
until_zero-split [] name e = cc
until_zero-split (b ∷ bs) name e = elim (Bool-cases (b == 0)) [
  | inl end ↦
      let same : [] ≡ name = some-injective (rw end at e) in
      (bs, rw (sym same) (ap (λ (c : ℕ). c ∷ bs) ((==_iff b 0).0 end)))
  | inr more ↦ elim (Option-cases (until_zero bs)) [
    | inl open_end ↦ absurd (no_name (rw (more, open_end) at e))
    | inr (rest, found) ↦
        let same : (b ∷ rest) ≡ name = some-injective (rw (more, found) at e) in
        let (behind, split) = until_zero-split bs rest found in
        (behind, rw (sym same) (ap (λ (cs : List ℕ). b ∷ cs) split))
  ]
]

section_name-split :
    (strings : List ℕ) (nameoff : ℕ) (name : List ℕ)
    → section_name strings nameoff ≡ ok name
    → (behind : List ℕ) × (drop nameoff strings ≡ name ++ (0 ∷ behind))
unfolding section_name
section_name-split strings nameoff name e =
    require-elim (ltb nameoff (length strings)) "invalid section name offset" e λ _ e₁.
      elim (Option-cases (until_zero (drop nameoff strings))) [
        | inl open_end ↦ cc (rw open_end at e₁)
        | inr (found, ended) ↦
            require-elim (all_ascii found) "UnicodeDecodeError" (rw ended at e₁) λ _ is.
              until_zero-split (drop nameoff strings) name
                (ended ∙ ap (λ (n : List ℕ). some n) (ok-injective is))
      ]

module _ (bytes : List ℕ) where
  read_section-at :
      (at : ℕ) (s : Section) → read_section truncated bytes at ≡ ok s → s ≡ section_at bytes at
  unfolding read_section
  read_section-at at s e =
      sym (ok-injective (require-eq-ok (leb (at + 64) (length bytes)) truncated _ e).1)

  no_section : {A : Type 0} (s : Section) (k : ℕ) → nth [] k ≡ ok s → A
  no_section s k e = cc

  pub nth-read_sections :
      (n at k : ℕ) (sections : List Section) (s : Section)
      → read_sections bytes n at ≡ ok sections
      → nth sections k ≡ ok s
      → s ≡ section_at bytes (at + k * 64)
  unfolding read_sections
  nth-read_sections zero at k sections s e held = no_section s k (rw (sym (ok-injective e)) at held)
  nth-read_sections (suc n) at k sections s e held =
      >>=-elim (read_section truncated bytes at) e λ first read e₁.
        >>=-elim (read_sections bytes n (at + 64)) e₁ λ rest others e₂.
          found first rest k read (λ i h. nth-read_sections n (at + 64) i rest s others h)
            (rw (sym (ok-injective e₂)) at held)
    where
      found :
          (first : Section) (rest : List Section) (k : ℕ)
          → read_section truncated bytes at ≡ ok first
          → ((i : ℕ) → nth rest i ≡ ok s → s ≡ section_at bytes (at + 64 + i * 64))
          → nth (first ∷ rest) k ≡ ok s
          → s ≡ section_at bytes (at + k * 64)
      found first rest zero read later h =
          let e : at + 0 * 64 ≡ at = omega arith in
          rw e (sym (ok-injective h) ∙ read_section-at at first read)
      found first rest (suc k) read later h =
          let e : at + suc k * 64 ≡ at + 64 + k * 64 = omega arith in rw e (later k h)

  module _ (p : Program) (strings : List ℕ) (shoff shnum : ℕ) where
    add_section-Every :
        (names names' : Names) (index : ℕ) (s : Section)
        → index < shnum
        → s ≡ section_at bytes (shoff + index * 64)
        → Every (IsNamed bytes strings shoff shnum) names
        → add_section bytes p strings names index s ≡ ok names'
        → Every (IsNamed bytes strings shoff shnum) names'
    unfolding add_section
    add_section-Every names names' index s few stands all e =
        >>=-elim (section_name strings s.name) e λ name spelled e₁.
          require-elim (not (is_some (find_name name names))) "duplicate section name" e₁ λ _ e₂.
            require-elim (leb s.stype 4) "unsupported section type" e₂ λ _ e₃.
              require-elim (leb (s.offset + s.size) (length bytes)) "section outside file" e₃
                λ _ e₄.
                  >>=-elim (if bit_and s.sflags 2 == 0 then ok tt else check_allocated p name s) e₄
                    λ _ _ e₅.
                      require-elim (s.alignment == 0 || bit_and s.alignment (s.alignment - 1) == 0)
                        "invalid section alignment" e₅
                        λ _ is.
                          let (behind, split) = section_name-split strings s.name name spelled in
                          rw (sym (ok-injective is)) (
                            Every-append (IsNamed bytes strings shoff shnum) names (name, index, s)
                              all
                              (record {
                                numbered = few;
                                stands = stands;
                                behind = behind;
                                spelled = split;
                              }))

    pub add_sections-Every :
        (n index : ℕ) (sections : List Section) (names names' : Names)
        → index + n ≡ shnum
        → read_sections bytes n (shoff + index * 64) ≡ ok sections
        → Every (IsNamed bytes strings shoff shnum) names
        → add_sections bytes p strings names index sections ≡ ok names'
        → Every (IsNamed bytes strings shoff shnum) names'
    unfolding read_sections add_sections
    add_sections-Every zero index sections names names' many read all e =
        let none_left : [] ≡ sections = ok-injective read in
        rw (sym (ok-injective (rw (sym none_left) at e))) all
    add_sections-Every (suc n) index sections names names' many read all e =
        >>=-elim (read_section truncated bytes (shoff + index * 64)) read λ first head r₁.
          >>=-elim (read_sections bytes n (shoff + index * 64 + 64)) r₁ λ rest others r₂.
            let is : (first ∷ rest) ≡ sections = ok-injective r₂ in
            >>=-elim (add_section bytes p strings names index first) (rw (sym is) at e)
              λ next added e₁.
                let at : shoff + index * 64 + 64 ≡ shoff + (index + 1) * 64 = omega arith in
                add_sections-Every n (index + 1) rest next names' (omega arith) (rw at at others)
                  (add_section-Every names next index first (omega arith)
                    (read_section-at (shoff + index * 64) first head) all added)
                  e₁

    pub named-IsNamed :
        (name : List ℕ) (names : Names) (found : ℕ × Section)
        → Every (IsNamed bytes strings shoff shnum) names
        → named name names ≡ ok found
        → IsNamed bytes strings shoff shnum (name, found.0, found.1)
    unfolding find_name ◌≟◌
    named-IsNamed name [] found all e = cc
    named-IsNamed name ((n, index, section) ∷ rest) found all e = elim (Bool-cases (n ≟ name)) [
      | inl same ↦
          let is : (index, section) ≡ found = ok-injective (rw (same, named) at e) in
          rw (sym is, sym ((≟_iff n name).0 same)) all.0
      | inr other ↦ named-IsNamed name rest found all.1 (rw (other, named) at e)
    ]
