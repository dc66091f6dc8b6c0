-- ===== src/Jdk/Extracted.antt =====
-- scripts/jdk.py: what `extract` leaves in the directory.
use artbox.Base.{
  ℕ, zero, suc, ◌||◌, not, Bool, true, false, Option, none, some, List, [], ◌∷◌, ok, require, ◌>>◌,
  ◌≡◌, inl, inr, refl, sym, ap, ◌∙◌, Option-cases, >>=-elim, require-elim, ok-injective,
}
use artbox.Paths.{contains}
use artbox.Paths.Laws.{Every}
use artbox.Sources.Plan.{IsInside, not-true}
use artbox.Tree.{Tree, file_at, write_file, paths_of, is_some}
use artbox.Tree.Writes.{file_at-write_file_same}
use artbox.Tree.Disk.{Disk, exists, write_new, mode_at, is_directory_at}
use artbox.Jdk.{
  Entry, Extraction, no_extraction, extract_entries, resolve_alias, copy_alias, copy_aliases,
  extract,
}
use artbox.Tree.Growth.{
  Grows, write_file-Grows, paths_of-write_file-Every, write_file-origin, write_new-files,
  copy_mode-files,
}
use artbox.Jdk.Kinds.{relative, Kept}
use artbox.Jdk.Loop.{HasContent, entries-IsLoop}

-- The links from a target to one that is no link.
pub data Chain (links : List (List ℕ × List ℕ)) : List ℕ → List ℕ → Type 0 where
  ends : (target : List ℕ) → file_at target links ≡ none → Chain links target target
  goes :
      (target next last : List ℕ)
      → file_at target links ≡ some next
      → Chain links next last
      → Chain links target last

-- A target that is no link, and one that is.
stops :
    (links : List (List ℕ × List ℕ)) (left : ℕ) (visited : List (List ℕ)) (target last : List ℕ)
    → file_at target links ≡ none
    → resolve_alias links left visited target ≡ ok last
    → target ≡ last
unfolding resolve_alias
stops links zero visited target last free e = ok-injective (rw (free, resolve_alias) at e)
stops links (suc left) visited target last free e = ok-injective (rw (free, resolve_alias) at e)

never :
    (links : List (List ℕ × List ℕ)) (visited : List (List ℕ)) (target next last : List ℕ)
    → file_at target links ≡ some next
    → resolve_alias links 0 visited target ≡ ok last
    → false ≡ true
unfolding resolve_alias
never links visited target next last held e = cc (rw (held, resolve_alias) at e)

goes_on :
    (links : List (List ℕ × List ℕ)) (left : ℕ) (visited : List (List ℕ))
    (target next last : List ℕ)
    → file_at target links ≡ some next
    → resolve_alias links (suc left) visited target ≡ ok last
    → (require (not (contains target visited)) "JDK alias cycle"
        >> resolve_alias links left (target ∷ visited) next)
      ≡ ok last
unfolding resolve_alias
goes_on links left visited target next last held e = rw (held, resolve_alias) at e

resolve_alias-Chain :
    (links : List (List ℕ × List ℕ)) (left : ℕ) (visited : List (List ℕ)) (target last : List ℕ)
    → resolve_alias links left visited target ≡ ok last
    → Chain links target last
resolve_alias-Chain links zero visited target last e = elim (Option-cases (file_at target links)) [
  | inr (next, held) ↦ cc (never links visited target next last held e)
  | inl free ↦
      let same : target ≡ last = stops links zero visited target last free e in
      rw (sym same) (Chain.ends target free)
]
resolve_alias-Chain links (suc left) visited target last e =
    elim (Option-cases (file_at target links)) [
      | inl free ↦
          let same : target ≡ last = stops links (suc left) visited target last free e in
          rw (sym same) (Chain.ends target free)
      | inr (next, held) ↦
          require-elim (not (contains target visited)) "JDK alias cycle"
            (goes_on links left visited target next last held e)
            λ _ rest.
              Chain.goes target next last held
                (resolve_alias-Chain links left (target ∷ visited) next last rest)
    ]

-- What is left of an alias that was copied.
pub record IsAliased (links : List (List ℕ × List ℕ)) (files : Tree) (l : List ℕ × List ℕ)
    : Type 0 where
  pub source : List ℕ
  pub chain : Chain links l.1 source
  pub contents : List ℕ
  pub held : file_at source files ≡ some contents
  pub copied : file_at l.0 files ≡ some contents

no_file : (o : Option (List ℕ)) (b : Bool) → (is_some o || b) ≡ false → o ≡ none
no_file none b h = refl
no_file (some c) b h = cc

copy_alias-facts :
    (name target : List ℕ) (disk disk' : Disk) (o : Option (List ℕ))
    → copy_alias name target disk o ≡ ok disk'
    → (c : List ℕ) × (o ≡ some c)
      × (file_at name disk.files ≡ none)
      × (disk'.files ≡ write_file name c disk.files)
unfolding copy_alias exists
copy_alias-facts name target disk disk' none e = cc
copy_alias-facts name target disk disk' (some c) e =
    require-elim (not (exists name disk)) "JDK alias is not an internal file" e λ free rest.
      >>=-elim (write_new name c disk) rest λ written wrote last. (
        c,
        refl,
        no_file (file_at name disk.files) (is_directory_at name disk) (not-true free),
        ap (λ (d : Disk). d.files) (sym (ok-injective last))
            ∙ copy_mode-files (mode_at target disk.modes) name written
            ∙ write_new-files name c disk written wrote,
      )

record IsCopied (links ls : List (List ℕ × List ℕ)) (disk disk' : Disk) : Type 0 where
  within :
      Every IsInside (paths_of disk.files)
      → Every IsInside (paths_of ls)
      → Every IsInside (paths_of disk'.files)
  grows : Grows disk.files disk'.files
  aliased : Every (IsAliased links disk'.files) ls
  origin :
      (path c : List ℕ)
      → file_at path disk'.files ≡ some c
      → (p : List ℕ) × (file_at p disk.files ≡ some c)

copy_aliases-IsCopied :
    (links ls : List (List ℕ × List ℕ)) (disk disk' : Disk)
    → copy_aliases links ls disk ≡ ok disk'
    → IsCopied links ls disk disk'
unfolding copy_aliases paths_of
copy_aliases-IsCopied links [] disk disk' e = rw (sym (ok-injective e)) (record {
  within = λ all _. all;
  grows = λ p c held. held;
  aliased = tt;
  origin = λ p c held. (p, held);
})
copy_aliases-IsCopied links (l ∷ ls) disk disk' e =
    >>=-elim (resolve_alias links 31 (l.0 ∷ []) l.1) e λ target resolved e₁.
      >>=-elim (copy_alias l.0 target disk (file_at target disk.files)) e₁ λ next copied e₂.
        let (c, held, free, files) =
          copy_alias-facts l.0 target disk next (file_at target disk.files) copied in
        let rest = copy_aliases-IsCopied links ls next disk' e₂ in
        let step : Grows disk.files next.files =
          λ p d h. rw files (write_file-Grows l.0 c disk.files free p d h) in
        record {
          within = λ all names.
              rest.within
                (rw files (paths_of-write_file-Every IsInside l.0 c disk.files names.0 all))
                names.1;
          grows = λ p d h. rest.grows p d (step p d h);
          aliased = (
            record {
              source = target;
              chain = resolve_alias-Chain links 31 (l.0 ∷ []) l.1 target resolved;
              contents = c;
              held = rest.grows target c (step target c held);
              copied = rest.grows l.0 c (rw files (file_at-write_file_same l.0 c disk.files));
            },
            rest.aliased,
          );
          origin = λ p d h.
              let (q, before) = rest.origin p d h in
              elim (write_file-origin l.0 c q d disk.files (rw files at before)) [
                | inl old ↦ (q, old)
                | inr same ↦ (target, rw same held)
              ];
        }

grown_entries :
    (entries : List Entry) (files files' : Tree)
    → Grows files files'
    → Every (λ e. Kept e files) entries
    → Every (λ e. Kept e files') entries
grown_entries [] files files' grows h = tt
grown_entries (e ∷ es) files files' grows h = (
  (λ file. let (held, sized) = h.0 file in (grows (relative e) e.content held, sized)),
  grown_entries es files files' grows h.1,
)

-- What `extract` promises of the directory that it was given empty.
pub record IsExtracted (fold : List ℕ → List ℕ) (root : List ℕ) (entries : List Entry) (disk : Disk)
    : Type 0 where
  pub within : Every IsInside (paths_of disk.files)
  pub kept : Every (λ e. Kept e disk.files) entries
  pub origin : (path c : List ℕ) → file_at path disk.files ≡ some c → HasContent c entries
  pub loaded : Extraction
  pub read : extract_entries fold root entries no_extraction ≡ ok loaded
  pub aliased : Every (IsAliased loaded.links disk.files) loaded.links

-- When `extract` of the JDK returns, every file that it has written lies inside of the
-- directory, at a path without dot-dot, colon and backslash; each file entry is there with its
-- bytes, as many as the archive gives, no file holds bytes other than those of a file entry,
-- and each recorded link is a copy of the file at the end of its links.
pub extract-IsExtracted :
    (fold : List ℕ → List ℕ) (root : List ℕ) (entries : List Entry) (disk : Disk)
    → extract fold root entries ≡ ok disk
    → IsExtracted fold root entries disk
unfolding extract file_at paths_of
extract-IsExtracted fold root entries disk e =
    >>=-elim (extract_entries fold root entries no_extraction) e λ x loaded rest.
      let loop =
        entries-IsLoop fold root entries no_extraction x
          (record { within = tt; keyed = tt; linked = tt }) loaded in
      let copied = copy_aliases-IsCopied x.links x.links x.disk disk rest in
      record {
        within = copied.within loop.state.within loop.state.linked;
        kept = grown_entries entries x.disk.files disk.files copied.grows loop.kept;
        origin = λ p c held.
            let (q, before) = copied.origin p c held in
            elim (loop.origin q c before) [ inl never ↦ cc | inr found ↦ found ];
        loaded = x;
        read = loaded;
        aliased = copied.aliased;
      }
