-- ===== src/WrapDynamic/Found.antt =====
-- tools/wrap_dynamic.py: what the checks of `pack_layout` establish of the segments.
use artbox.Base.{
  ℕ, zero, suc, ◌+◌, ◌*◌, ◌≤◌, ◌<◌, ltb, leb, ◌==◌, if◌then◌else◌, List, [], ◌∷◌, ◌++◌, length, ok,
  ◌≡◌, refl, sym, ap, ◌∙◌, arith, >>=-elim, require-elim, ok-injective, Bool-cases, inl, inr, ◌⊎◌,
  ltb→lt, ltb-false,
}
use mathlib.Core.List.{append-nil, append_assoc}
use artbox.Elf.{Header, Program, read_program, read_header, program_at}
use artbox.WrapDynamic.Segments.{
  limit, truncated, Segment, Tables, no_tables, segment_of, check_program, file_program,
  read_tables,
}
use artbox.WrapDynamic.Layout.{
  check_header, sorted_pair, two_loads, check_loads, check_tls, check_dynamic, find_segments,
}

-- The loadable segments of a file, by its program headers.
unfoldable pub add_load : Program → ℕ → List Segment → List Segment
add_load p index rest = if p.ptype == 1 then segment_of index p ∷ rest else rest

unfoldable pub load_headers : List ℕ → ℕ → ℕ → ℕ → List Segment
load_headers bytes phoff zero index = []
load_headers bytes phoff (suc rounds) index =
    add_load (program_at bytes (phoff + index * 56)) index
      (load_headers bytes phoff rounds (index + 1))

abbrev pub InFile : List ℕ → Segment → Type 0
InFile bytes s = (s.offset + s.file_size ≤ length bytes) × (s.file_size ≤ s.memory_size)

abbrev pub AllInFile : List ℕ → List Segment → Type 0
AllInFile bytes [] = Unit {0}
AllInFile bytes (s ∷ ss) = InFile bytes s × AllInFile bytes ss

program_facts :
    (bytes : List ℕ) (p : Program) {u : Unit {0}}
    → check_program bytes p ≡ ok u
    → (p.offset + p.size ≤ length bytes) × (p.size ≤ p.memory)
unfolding check_program
program_facts bytes p e = ground arith

file_program-loads :
    (t t' : Tables) (index : ℕ) (p : Program)
    → file_program t index p ≡ ok t'
    → t'.loads ≡ (if p.ptype == 1 then t.loads ++ segment_of index p ∷ [] else t.loads)
unfolding file_program
file_program-loads t t' index p e = ground arith

read_program-eq-ok :
    (bytes : List ℕ) (i : ℕ) {p : Program}
    → read_program truncated bytes i ≡ ok p
    → program_at bytes i ≡ p
unfolding read_program
read_program-eq-ok bytes i e =
    require-elim (leb (i + 56) (length bytes)) truncated e λ _ rest. ok-injective rest

program-loads :
    (bytes : List ℕ) (t t' : Tables) (index : ℕ) (p : Program) {u : Unit {0}}
    (all rest : List Segment)
    → check_program bytes p ≡ ok u
    → file_program t index p ≡ ok t'
    → all ≡ t'.loads ++ rest
    → AllInFile bytes rest
    → (all ≡ t.loads ++ add_load p index rest) × AllInFile bytes (add_load p index rest)
unfolding add_load
program-loads bytes t t' index p all rest checked filed ih bounded =
    let loads = file_program-loads t t' index p filed in
    let facts = program_facts bytes p checked in
    elim (Bool-cases (p.ptype == 1)) [
      | inl load ↦ rw load (
        ih ∙ rw (loads, load) (append_assoc t.loads (segment_of index p ∷ []) rest),
        (facts, bounded),
      )
      | inr other ↦ rw other (ih ∙ rw (loads, other) refl, bounded)
    ]

read_tables-loads :
    (bytes : List ℕ) (phoff rounds index : ℕ) (t t' : Tables)
    → read_tables bytes phoff rounds index t ≡ ok t'
    → (t'.loads ≡ t.loads ++ load_headers bytes phoff rounds index)
      × AllInFile bytes (load_headers bytes phoff rounds index)
unfolding read_tables load_headers
read_tables-loads bytes phoff zero index t t' e =
    (ap (λ (x : Tables). x.loads) (sym (ok-injective e)) ∙ sym (append-nil t.loads), tt)
read_tables-loads bytes phoff (suc rounds) index t t' e =
    >>=-elim (read_program truncated bytes (phoff + index * 56)) e λ p read e₁.
      >>=-elim (check_program bytes p) e₁ λ _ checked e₂.
        >>=-elim (file_program t index p) e₂ λ next filed e₃.
          let (ih, bounded) = read_tables-loads bytes phoff rounds (index + 1) next t' e₃ in
          rw (read_program-eq-ok bytes (phoff + index * 56) read) (
            program-loads bytes t next index p t'.loads
              (load_headers bytes phoff rounds (index + 1)) checked filed ih bounded)

-- What the checks of the loads establish.
pub record Facts (h : Header) (code writable : Segment) : Type 0 where
  pub permissions : (code.flags ≡ 5) × (writable.flags ≡ 6)
  pub start : (code.address ≡ 0) × (code.offset ≡ 0)
  pub order : (code.file_size ≤ writable.address) × (code.file_size ≤ writable.offset)
  pub bounded : writable.address + writable.memory_size ≤ limit
  pub entry : h.entry < code.file_size

load-Facts :
    (h : Header) (loads : List Segment) (code writable : Segment) {u : Unit {0}}
    → check_loads h loads code writable ≡ ok u
    → Facts h code writable
unfolding check_loads
load-Facts h loads code writable e = record {
  permissions = ground arith;
  start = ground arith;
  order = ground arith;
  bounded = ground arith;
  entry = ground arith;
}

-- The two loads in the order of their addresses.
abbrev pub IsSortedPair : List Segment → Segment → Segment → Type 0
IsSortedPair loads code writable =
    ((loads ≡ code ∷ writable ∷ []) ⊎ (loads ≡ writable ∷ code ∷ []))
    × (code.address ≤ writable.address)

sorted_pair-sorted :
    (a b code writable : Segment)
    → sorted_pair a b ≡ (code, writable)
    → IsSortedPair (a ∷ b ∷ []) code writable
sorted_pair-sorted a b code writable e = elim (Bool-cases (ltb b.address a.address)) [
  | inl swapped ↦
      let pair : (b, a) ≡ (code, writable) = rw swapped at e in
      rw (sym (ap (λ x. x.0) pair), sym (ap (λ x. x.1) pair))
        (inr refl, omega (arith, ltb→lt b.address a.address swapped))
  | inr kept ↦
      let pair : (a, b) ≡ (code, writable) = rw kept at e in
      rw (sym (ap (λ x. x.0) pair), sym (ap (λ x. x.1) pair))
        (inl refl, ltb-false b.address a.address kept)
]

two_loads-sorted :
    (loads dynamic : List Segment) {code writable table : Segment}
    → two_loads loads dynamic ≡ ok (code, writable, table)
    → IsSortedPair loads code writable
unfolding two_loads
two_loads-sorted (a ∷ b ∷ []) (d ∷ []) {code} {writable} e = sorted_pair-sorted a b code writable cc
two_loads-sorted [] dynamic e = cc
two_loads-sorted (a ∷ []) dynamic e = cc
two_loads-sorted (a ∷ b ∷ c ∷ rest) dynamic e = cc
two_loads-sorted (a ∷ b ∷ []) [] e = cc
two_loads-sorted (a ∷ b ∷ []) (c ∷ d ∷ rest) e = cc

pair-InFile :
    (bytes : List ℕ) (loads : List Segment) (code writable : Segment)
    → IsSortedPair loads code writable
    → AllInFile bytes loads
    → InFile bytes code × InFile bytes writable
pair-InFile bytes loads code writable ((inl e), order) all =
    let both : AllInFile bytes (code ∷ writable ∷ []) = rw e at all in (both.0, both.1.0)
pair-InFile bytes loads code writable ((inr e), order) all =
    let both : AllInFile bytes (writable ∷ code ∷ []) = rw e at all in (both.1.0, both.0)

pub record Found (bytes : List ℕ) (h : Header) (code writable : Segment) : Type 0 where
  pub header : read_header truncated bytes ≡ ok h
  pub pair : IsSortedPair (load_headers bytes h.phoff h.phnum 0) code writable
  pub in_file : InFile bytes code × InFile bytes writable
  pub facts : Facts h code writable

pub find_segments-Found :
    (bytes : List ℕ) (segments : Segment × Segment × Segment)
    → find_segments bytes ≡ ok segments
    → (h : Header) × Found bytes h segments.0 segments.1
unfolding find_segments
find_segments-Found bytes segments e =
    require-elim (leb (length bytes) limit) "ELF exceeds the controlled wrapper size limit" e
      λ _ e₁. >>=-elim (read_header truncated bytes) e₁ λ h read e₂.
        >>=-elim (check_header bytes h) e₂ λ _ _ e₃.
          >>=-elim (read_tables bytes h.phoff h.phnum 0 no_tables) e₃ λ t tables e₄.
            >>=-elim (two_loads t.loads t.dynamic) e₄ λ three split e₅.
              >>=-elim (check_loads h t.loads three.0 three.1) e₅ λ _ checked e₆.
                require-elim (leb (length t.tls) 1) "Duplicate TLS template" e₆ λ _ e₇.
                  >>=-elim (check_tls three.1 t.tls) e₇ λ _ _ e₈.
                    >>=-elim (check_dynamic three.1 three.2) e₈ λ _ _ e₉.
                      let same : three ≡ segments = ok-injective e₉ in
                      let (loads, bounded) =
                        read_tables-loads bytes h.phoff h.phnum 0 no_tables t tables in
                      let pair = rw loads at (two_loads-sorted t.loads t.dynamic split) in
                      rw (sym same) (
                        h,
                        record {
                          header = read;
                          pair = pair;
                          in_file =
                              pair-InFile bytes (load_headers bytes h.phoff h.phnum 0) three.0
                                three.1 pair bounded;
                          facts = load-Facts h t.loads three.0 three.1 checked;
                        },
                      )
