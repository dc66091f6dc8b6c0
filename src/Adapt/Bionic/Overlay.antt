-- ===== src/Adapt/Bionic/Overlay.antt =====
-- scripts/bionic_adapt.py: what `adapt_sources` writes when it returns.
use artbox.Base.{
  ℕ, ◌&&◌, ◌||◌, not, Bool, true, false, Option, none, some, List, [], ◌∷◌, ok, ◌≡◌, refl, sym, ap,
  ◌∙◌, arith, inl, inr, Bool-cases, >>=-elim, require-elim, ok-injective,
}
use artbox.Base.Text.{codes, ◌≟◌, ≟_iff}
use artbox.Base.Utf8.{decode, encode}
use artbox.Paths.{is_nil, contains, parts, as_posix}
use artbox.Paths.Laws.{Every}
use artbox.Sources.Plan.{Distinct, not-true}
use artbox.Tree.{Tree, file_at, paths_of, files_below, copy_tree}
use artbox.Tree.Writes.{file_at-write_all_other, write_all-Every, file_at-copy_all, or_else, ≟-refl}
use artbox.Adapt.Replace.{replace_unique}
use artbox.Adapt.Unique.{IsReplaced, replace_unique-IsReplaced, AreFresh, fresh_other, fresh_less}
use artbox.Adapt.Bionic.{
  Replacement, Edit, Adapted, is_relative_to, is_unsafe_edit, apply_all, input_of, adapt_file,
  adapt_files, writes_of, adapt_sources,
}

-- One replacement after the other, each at the only place that its context has.
abbrev pub AllReplaced : List Replacement → List ℕ → List ℕ → Type 0
AllReplaced [] text text' = text ≡ text'
AllReplaced (r ∷ rs) text text' =
    (next : List ℕ) × IsReplaced r.0 r.1 text next × AllReplaced rs next text'

apply_all-AllReplaced :
    (rs : List Replacement) (text text' : List ℕ)
    → apply_all rs text ≡ ok text'
    → AllReplaced rs text text'
unfolding apply_all
apply_all-AllReplaced [] text text' e = ok-injective e
apply_all-AllReplaced (r ∷ rs) text text' e =
    >>=-elim (replace_unique "Bionic patch context is missing or ambiguous" r.0 r.1 text) e
      λ next replaced rest. (
        next,
        replace_unique-IsReplaced "Bionic patch context is missing or ambiguous" r.0 r.1 text next
            replaced,
        apply_all-AllReplaced rs next text' rest,
      )

-- What is written for an edit.
pub record IsEdited (digest : List ℕ → List ℕ) (source : Tree) (edit : Edit) (adapted : Adapted)
    : Type 0 where
  pub safe : is_unsafe_edit edit.path ≡ false
  pub named : adapted.path ≡ as_posix (parts edit.path)
  pub original : List ℕ
  pub held : file_at adapted.path source ≡ some original
  pub upstream : adapted.upstream_sha256 ≡ digest original
  pub pinned : edit.sha256 ≡ digest original
  pub before : List ℕ
  pub decoded : decode original ≡ ok before
  pub after : List ℕ
  pub replaced : AllReplaced edit.replacements before after
  pub encoded : encode after ≡ ok adapted.contents
  pub recorded : adapted.adapted_sha256 ≡ digest adapted.contents

abbrev pub AllEdited : (List ℕ → List ℕ) → Tree → List Edit → List Adapted → Type 0
AllEdited digest source [] [] = Unit
AllEdited digest source [] (a ∷ rest) = ⊥
AllEdited digest source (e ∷ es) [] = ⊥
AllEdited digest source (e ∷ es) (a ∷ rest) =
    IsEdited digest source e a × AllEdited digest source es rest

input_of-held :
    (stays : Bool) (o : Option (List ℕ)) (bytes : List ℕ)
    → input_of stays o ≡ ok bytes
    → o ≡ some bytes
unfolding input_of
input_of-held stays none bytes e = cc
input_of-held stays (some b) bytes e =
    require-elim stays "Invalid Bionic patch input" e
      λ _ rest. ap (λ (x : List ℕ). some x) (ok-injective rest)

-- The folded paths of what is written.
abbrev pub folded : (List ℕ → List ℕ) → List Adapted → List (List ℕ)
folded fold [] = []
folded fold (a ∷ rest) = fold a.path ∷ folded fold rest

contains-folded :
    (fold : List ℕ → List ℕ) (path : List ℕ) (all : List Adapted)
    → contains (fold path) (folded fold all) ≡ false
    → contains path (paths_of (writes_of all)) ≡ false
unfolding contains paths_of writes_of
contains-folded fold path [] h = refl
contains-folded fold path (a ∷ rest) h = elim (Bool-cases (path ≟ a.path)) [
  | inr other ↦ rw other (contains-folded fold path rest (ground arith))
  | inl same ↦
      let e : path ≡ a.path = (≟_iff path a.path).0 same in
      let equal : (fold path ≟ fold a.path) ≡ true = rw e (≟-refl (fold a.path)) in
      cc (rw equal at h)
]

folded-Distinct :
    (fold : List ℕ → List ℕ) (all : List Adapted)
    → Distinct (folded fold all)
    → Distinct (paths_of (writes_of all))
unfolding paths_of writes_of
folded-Distinct fold [] d = tt
folded-Distinct fold (a ∷ rest) d =
    (contains-folded fold a.path rest d.0, folded-Distinct fold rest d.1)

module _ (digest : List ℕ → List ℕ) (source_stays overlay_stays : List ℕ → Bool)
    (source : Tree) where
  adapt_file-IsEdited :
      (edit : Edit) (adapted : Adapted)
      → is_unsafe_edit edit.path ≡ false
      → adapt_file digest source_stays overlay_stays source (as_posix (parts edit.path)) edit
        ≡ ok adapted
      → IsEdited digest source edit adapted
  unfolding adapt_file
  adapt_file-IsEdited edit adapted safe e =
      let name = as_posix (parts edit.path) in
      let stays = source_stays name && overlay_stays name in
      >>=-elim (input_of stays (file_at name source)) e λ original held e₁.
        require-elim (digest original ≟ edit.sha256) "Bionic patch source hash changed" e₁
          λ same e₂. >>=-elim (decode original) e₂ λ before decoded e₃.
            >>=-elim (apply_all edit.replacements before) e₃ λ after applied e₄.
              >>=-elim (encode after) e₄ λ contents encoded e₅. rw (sym (ok-injective e₅)) (record {
                safe = safe;
                named = refl;
                original = original;
                held = input_of-held stays (file_at name source) original held;
                upstream = refl;
                pinned = sym ((≟_iff (digest original) edit.sha256).0 same);
                before = before;
                decoded = decoded;
                after = after;
                replaced = apply_all-AllReplaced edit.replacements before after applied;
                encoded = encoded;
                recorded = refl;
              })

  adapt_files-AllEdited :
      (fold : List ℕ → List ℕ) (seen : List (List ℕ)) (edits : List Edit) (adapted : List Adapted)
      → adapt_files digest source_stays overlay_stays source fold seen edits ≡ ok adapted
      → AllEdited digest source edits adapted
        × AreFresh seen (folded fold adapted)
        × Distinct (folded fold adapted)
  unfolding adapt_files
  adapt_files-AllEdited fold seen [] adapted e = rw (sym (ok-injective e)) (tt, tt, tt)
  adapt_files-AllEdited fold seen (edit ∷ edits) adapted e =
      let name = as_posix (parts edit.path) in
      require-elim (not (is_unsafe_edit edit.path)) "Unsafe Bionic patch path" e λ safe e₁.
        require-elim (not (contains (fold name) seen)) "Duplicate Bionic patch path" e₁ λ fresh e₂.
          >>=-elim (adapt_file digest source_stays overlay_stays source name edit) e₂
            λ first made e₃.
              >>=-elim
                (adapt_files digest source_stays overlay_stays source fold (fold name ∷ seen) edits)
                e₃
                λ rest others e₄.
                  let is = adapt_file-IsEdited edit first (not-true safe) made in
                  let (all, unseen, distinct) =
                    adapt_files-AllEdited fold (fold name ∷ seen) edits rest others in
                  let key : fold first.path ≡ fold name = ap (λ (p : List ℕ). fold p) is.named in
                  rw (sym (ok-injective e₄)) (
                    (is, all),
                    (
                      rw key (not-true fresh),
                      fresh_less (fold name) seen (folded fold rest) unseen,
                    ),
                    (rw key (fresh_other (fold name) seen (folded fold rest) unseen), distinct),
                  )

-- What `adapt_sources` promises of the overlay that it leaves.
pub record IsOverlay (fold digest : List ℕ → List ℕ) (source overlay : Tree) (edits : List Edit)
    (adapted : List Adapted) (overlay' : Tree) : Type 0 where
  pub edited : AllEdited digest source edits adapted
  pub distinct : Distinct (folded fold adapted)
  pub written : Every (λ f. file_at f.0 overlay' ≡ some f.1) (writes_of adapted)
  pub copied :
      (path : List ℕ)
      → contains path (paths_of (writes_of adapted)) ≡ false
      → file_at path overlay'
        ≡ or_else (file_at path (files_below (codes "libc/platform") source)) (file_at path overlay)

-- When `adapt_sources` of Bionic returns, each edit in order has one record and one file: its
-- path is relative, without dot-dot, colon and backslash, the source holds a file there whose
-- hash is the pinned one, the text is its UTF-8 decoding with each replacement made at the only
-- place that does not overlap where its context occurs, and the overlay holds the encoding of
-- that text, whose hash is recorded; folded paths are distinct, and at every other path the
-- overlay holds what it held, or the source file below libc/platform.
pub adapt_sources-IsOverlay :
    (fold digest : List ℕ → List ℕ) (source_stays overlay_stays : List ℕ → Bool)
    (source_path overlay_path : List (List ℕ)) (source overlay : Tree) (edits : List Edit)
    (result : List Adapted × Tree)
    → adapt_sources fold digest source_stays overlay_stays source_path overlay_path source overlay
        edits
      ≡ ok result
    → IsOverlay fold digest source overlay edits result.0 result.1
unfolding adapt_sources copy_tree
adapt_sources-IsOverlay fold digest source_stays overlay_stays source_path overlay_path source
      overlay edits result e =
    let below = files_below (codes "libc/platform") source in
    require-elim
      (not (is_relative_to source_path overlay_path || is_relative_to overlay_path source_path))
      "The Bionic overlay must be separate from its original source" e
      λ _ e₁.
        >>=-elim (adapt_files digest source_stays overlay_stays source fold [] edits) e₁
          λ adapted made e₂.
            >>=-elim (copy_tree (codes "libc/platform") source overlay) e₂ λ copied copy e₃.
              require-elim (not (is_nil below)) "FileNotFoundError" copy λ _ e₄.
                let (all, _, distinct) =
                  adapt_files-AllEdited digest source_stays overlay_stays source fold [] edits
                    adapted made in
                rw (sym (ok-injective e₃)) (record {
                  edited = all;
                  distinct = distinct;
                  written =
                      write_all-Every (writes_of adapted) copied
                        (folded-Distinct fold adapted distinct);
                  copied = λ path other.
                      file_at-write_all_other path (writes_of adapted) copied other
                      ∙ rw (sym (ok-injective e₄)) (file_at-copy_all path below overlay);
                })
