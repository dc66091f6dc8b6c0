-- ===== src/Jdk/Loop.antt =====
-- scripts/jdk.py: `extract`, what the loop over the members leaves.
use artbox.Base.{
  ℕ, ◌||◌, ◌&&◌, not, true, false, some, List, [], ◌∷◌, length, ltb, ◌*◌, ok, require, ◌>>◌, ◌≡◌,
  ◌⊎◌, inl, inr, refl, sym, arith, Bool-cases, >>=-elim, require-elim, ok-injective,
}
use artbox.Base.Int.{pos, ltb_ℤ, ◌+ℤ◌}
use artbox.Base.Text.{◌≟◌, ≟_iff}
use artbox.Paths.{dot, contains, parts}
use artbox.Paths.Laws.{Every}
use artbox.Sources.Archive.{is_unsafe, first_is, rest_of}
use artbox.Sources.Plan.{IsInside, not-true}
use artbox.Tree.{file_at, paths_of}
use artbox.Tree.Writes.{≟-refl, file_at-write_file_same, file_at-eq-none}
use artbox.Jdk.{
  Entry, Extraction, is_directory_kind, extract_below, extract_at, extract_entry, extract_entries,
}
use artbox.Tree.Growth.{Grows, write_file-Grows, paths_of-write_file-Every, write_file-origin}
use artbox.Jdk.Kinds.{relative, IsFile, Kept, IsKind, extract_kind-IsKind, below_root}

-- The bytes of a file are those of a file entry.
abbrev pub HasContent : List ℕ → List Entry → Type 0
HasContent c [] = ⊥
HasContent c (e ∷ es) = (IsFile e × (c ≡ e.content)) ⊎ HasContent c es

pub record IsState (fold : List ℕ → List ℕ) (x : Extraction) : Type 0 where
  pub within : Every IsInside (paths_of x.disk.files)
  pub keyed : Every (λ path. contains (fold path) x.seen ≡ true) (paths_of x.disk.files)
  pub linked : Every IsInside (paths_of x.links)

record IsStep (fold : List ℕ → List ℕ) (e : Entry) (x x' : Extraction) : Type 0 where
  state : IsState fold x'
  grows : Grows x.disk.files x'.disk.files
  kept : Kept e x'.disk.files
  origin :
      (path c : List ℕ)
      → file_at path x'.disk.files ≡ some c
      → (file_at path x.disk.files ≡ some c) ⊎ (IsFile e × (c ≡ e.content))

more_seen :
    (fold : List ℕ → List ℕ) (key : List ℕ) (seen : List (List ℕ)) (paths : List (List ℕ))
    → Every (λ path. contains (fold path) seen ≡ true) paths
    → Every (λ path. contains (fold path) (key ∷ seen) ≡ true) paths
unfolding contains
more_seen fold key seen [] h = tt
more_seen fold key seen (p ∷ ps) h = (ground arith, more_seen fold key seen ps h.1)

unseen_path :
    (fold : List ℕ → List ℕ) (path : List ℕ) (seen paths : List (List ℕ))
    → contains (fold path) seen ≡ false
    → Every (λ p. contains (fold p) seen ≡ true) paths
    → contains path paths ≡ false
unfolding contains
unseen_path fold path seen [] fresh h = refl
unseen_path fold path seen (p ∷ ps) fresh h = elim (Bool-cases (path ≟ p)) [
  | inl same ↦ let e : path ≡ p = (≟_iff path p).0 same in cc (fresh, rw (sym e) at h.0)
  | inr other ↦ rw other (unseen_path fold path seen ps fresh h.1)
]

module _ (fold : List ℕ → List ℕ) (root : List ℕ) where
  kind-IsStep :
      (e : Entry) (x x' : Extraction)
      → IsInside (relative e)
      → IsState fold x
      → contains (fold (relative e)) x.seen ≡ false
      → IsKind
          (relative e)
          e
          (record {
            disk = x.disk;
            seen = fold (relative e) ∷ x.seen;
            links = x.links;
            total = x.total +ℤ e.size;
          })
          x'
      → IsStep fold e x x'
  unfolding contains
  kind-IsStep e x x' safe s fresh k =
      let path = relative e in
      let keys = more_seen fold (fold path) x.seen (paths_of x.disk.files) s.keyed in
      let absent =
        file_at-eq-none path x.disk.files
          (unseen_path fold path x.seen (paths_of x.disk.files) fresh s.keyed) in
      elim k.outcome [
        | inl (same, other) ↦ record {
          state = record {
            within = rw same s.within;
            keyed = rw (same, k.seen) keys;
            linked = k.links safe s.linked;
          };
          grows = λ p c held. rw same held;
          kept = λ file. absurd (other file);
          origin = λ p c held. inl (rw same at held);
        }
        | inr (file, written, sized) ↦ record {
          state = record {
            within =
                rw written
                  (paths_of-write_file-Every IsInside path e.content x.disk.files safe s.within);
            keyed =
                rw (written, k.seen)
                  (paths_of-write_file-Every (λ p. contains (fold p) (fold path ∷ x.seen) ≡ true)
                    path e.content x.disk.files (rw (≟-refl (fold path)) refl) keys);
            linked = k.links safe s.linked;
          };
          grows =
              λ p c held. rw written (write_file-Grows path e.content x.disk.files absent p c held);
          kept = λ _. (rw written (file_at-write_file_same path e.content x.disk.files), sized);
          origin = λ p c held.
              elim (write_file-origin path e.content p c x.disk.files (rw written at held)) [
                | inl before ↦ inl before
                | inr here ↦ inr (file, here)
              ];
        }
      ]

  entry-IsStep :
      (e : Entry) (x x' : Extraction)
      → IsState fold x
      → extract_entry fold root e x ≡ ok x'
      → IsStep fold e x x'
  unfolding extract_entry extract_at extract_below
  entry-IsStep e x x' s returned =
      require-elim (not (is_unsafe e.name) && first_is root (parts e.name))
        "Unsafe JDK archive path" returned
        λ safe rest. elim (Bool-cases (relative e ≟ dot)) [
          | inl at_root ↦
              let rest' : (require (is_directory_kind e.kind) "JDK root is not a directory" >> ok x)
                  ≡ ok x' =
                rw at_root at rest in
              require-elim (is_directory_kind e.kind) "JDK root is not a directory" rest'
                λ dir last.
                  let same : x ≡ x' = ok-injective last in
                  let no_file : IsFile e → ⊥ = λ file. cc (rw file at dir) in
                  rw (sym same) (record {
                    state = s;
                    grows = λ p c held. held;
                    kept = λ file. absurd (no_file file);
                    origin = λ p c held. inl held;
                  })
          | inr below ↦
              let rest' : extract_below fold root (relative e) e x ≡ ok x' = rw below at rest in
              require-elim (not (contains (fold (relative e)) x.seen)) "Duplicate JDK archive path"
                rest'
                λ fresh rest₁.
                  require-elim
                    (not (
                      ltb_ℤ e.size (pos 0)
                      || ltb_ℤ (pos (1024 * 1024 * 1024)) (x.total +ℤ e.size)
                      || ltb 100000 (length (fold (relative e) ∷ x.seen))))
                    "JDK extraction exceeds bounds" rest₁
                    λ _ rest₂.
                      let safe' : is_unsafe e.name ≡ false = ground arith in
                      let made : Extraction = record {
                        disk = x.disk;
                        seen = fold (relative e) ∷ x.seen;
                        links = x.links;
                        total = x.total +ℤ e.size;
                      } in
                      kind-IsStep e x x'
                        (below_root e.name (rest_of (parts e.name)) safe' refl below) s
                        (not-true fresh)
                        (extract_kind-IsKind e.kind root (relative e) e made x' refl rest₂)
        ]

  pub record IsLoop (entries : List Entry) (x x' : Extraction) : Type 0 where
    pub state : IsState fold x'
    pub grows : Grows x.disk.files x'.disk.files
    pub kept : Every (λ e. Kept e x'.disk.files) entries
    pub origin :
        (path c : List ℕ)
        → file_at path x'.disk.files ≡ some c
        → (file_at path x.disk.files ≡ some c) ⊎ HasContent c entries

  pub entries-IsLoop :
      (entries : List Entry) (x x' : Extraction)
      → IsState fold x
      → extract_entries fold root entries x ≡ ok x'
      → IsLoop entries x x'
  unfolding extract_entries
  entries-IsLoop [] x x' s returned =
      let same : x ≡ x' = ok-injective returned in
      rw (sym same)
        (record { state = s; grows = λ p c held. held; kept = tt; origin = λ p c held. inl held })
  entries-IsLoop (e ∷ es) x x' s returned =
      >>=-elim (extract_entry fold root e x) returned λ next first rest.
        let step = entry-IsStep e x next s first in
        let loop = entries-IsLoop es next x' step.state rest in
        record {
          state = loop.state;
          grows = λ p c held. loop.grows p c (step.grows p c held);
          kept = (
            (λ file.
                let (held, sized) = step.kept file in
                (loop.grows (relative e) e.content held, sized)),
            loop.kept,
          );
          origin = λ p c held. elim (loop.origin p c held) [
            | inr later ↦ inr (inr later)
            | inl before ↦ elim (step.origin p c before) [
              | inl old ↦ inl old
              | inr here ↦ inr (inl here)
            ]
          ];
        }
