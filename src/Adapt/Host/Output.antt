-- ===== src/Adapt/Host/Output.antt =====
-- scripts/art_host_adapt.py: what the output holds when `adapt_sources` returns.
use artbox.Base.{
  ℕ, ◌||◌, not, Bool, true, false, Option-cases, List, [], ◌∷◌, ok, ◌≡◌, refl, sym, ap₂, ◌∙◌, arith,
  inl, inr, Bool-cases, >>=-elim, require-elim, ok-injective,
}
use artbox.Base.Text.{◌≟◌, ≟_iff}
use artbox.Paths.{contains, parts, as_posix}
use artbox.Paths.Laws.{Every}
use artbox.Sources.Plan.{Distinct}
use artbox.Tree.{File, Tree, file_at, write_all, paths_of}
use artbox.Tree.Writes.{file_at-write_all, file_at-eq-none, contains-paths_of}
use artbox.Adapt.Bionic.{Edit, is_relative_to}
use artbox.Adapt.Host.{
  Item, HostRecord, load_selection, edit_files, all_contained, placed, host_sources,
}
use artbox.Adapt.Host.Loaded.{AllLoaded, load_selection-AllLoaded, paths_of-Distinct}
use artbox.Adapt.Host.Edited.{AllHosted, edit_paths, edit_files-Edited}

all_contained-absent :
    (path : List ℕ) (paths names : List (List ℕ))
    → all_contained paths names ≡ true
    → contains path names ≡ false
    → contains path paths ≡ false
unfolding all_contained contains
all_contained-absent path [] names h absent = refl
all_contained-absent path (p ∷ ps) names h absent = elim (Bool-cases (path ≟ p)) [
  | inl same ↦
      let e : path ≡ p = (≟_iff path p).0 same in
      let present : contains p names ≡ true = ground arith in cc (rw (sym e) at present)
  | inr other ↦ rw other (all_contained-absent path ps names (ground arith) absent)
]

-- A path that is spelled as `as_posix` spells it.
abbrev pub IsCanonical : List ℕ → Type 0
IsCanonical path = as_posix (parts path) ≡ path

placed-same : (fs : List File) → Every IsCanonical (paths_of fs) → placed fs ≡ fs
unfolding placed paths_of
placed-same [] h = refl
placed-same (f ∷ fs) h =
    ap₂ (λ (p : List ℕ) (rest : List File). (p, f.1) ∷ rest) h.0 (placed-same fs h.1)

loaded-IsCanonical :
    (digest : List ℕ → List ℕ) (source : Tree) (items : List Item) (fs : List File)
    → Every (λ i. IsCanonical i.path) items
    → AllLoaded digest source items fs
    → Every IsCanonical (paths_of fs)
unfolding paths_of
loaded-IsCanonical digest source [] [] c all = tt
loaded-IsCanonical digest source [] (f ∷ fs) c all = absurd all
loaded-IsCanonical digest source (i ∷ is) [] c all = absurd all
loaded-IsCanonical digest source (i ∷ is) (f ∷ fs) c all =
    (rw all.0.named c.0, loaded-IsCanonical digest source is fs c.1 all.1)

AllHosted-later :
    (digest : List ℕ → List ℕ) (before after later : List File) (edits : List Edit)
    (records : List HostRecord)
    → ((path : List ℕ) → file_at path later ≡ file_at path after)
    → AllHosted digest before after edits records
    → AllHosted digest before later edits records
AllHosted-later digest before after later [] [] same h = h
AllHosted-later digest before after later [] (r ∷ rs) same h = h
AllHosted-later digest before after later (e ∷ es) [] same h = h
AllHosted-later digest before after later (e ∷ es) (r ∷ rs) same h = (
  record {
    original = h.0.original;
    held = h.0.held;
    pinned = h.0.pinned;
    text = h.0.text;
    decoded = h.0.decoded;
    text' = h.0.text';
    edited = h.0.edited;
    replaced = h.0.replaced;
    contents = h.0.contents;
    encoded = h.0.encoded;
    left = same e.path ∙ h.0.left;
    recorded = h.0.recorded;
  },
  AllHosted-later digest before after later es rs same h.1,
)

-- Written over a tree that holds no other path, the files are all that is there.
written_alone :
    (files : List File) (tree : Tree) (path : List ℕ)
    → Distinct (paths_of files)
    → all_contained (paths_of tree) (paths_of files) ≡ true
    → file_at path (write_all files tree) ≡ file_at path files
written_alone files tree path distinct inside = elim (Option-cases (file_at path files)) [
  | inr (contents, held) ↦ file_at-write_all path files tree distinct ∙ rw held refl
  | inl absent ↦
      let outside = file_at-eq-none path tree (
        all_contained-absent path (paths_of tree) (paths_of files) inside
          (contains-paths_of path files absent)) in
      file_at-write_all path files tree distinct ∙ rw (absent, outside) refl
]

pub record IsOutput (digest : List ℕ → List ℕ) (source : Tree) (selection : List Item)
    (edits : List Edit) (records : List HostRecord) (output' : Tree) : Type 0 where
  pub loaded : List File
  pub selected : AllLoaded digest source selection loaded
  pub once : Distinct (paths_of loaded)
  pub edited_once : Distinct (edit_paths edits)
  pub hosted : AllHosted digest loaded output' edits records
  pub unedited :
      (path : List ℕ)
      → contains path (edit_paths edits) ≡ false
      → file_at path output' ≡ file_at path loaded

-- When `adapt_sources` of the ART host build returns for a selection of normalised paths, the
-- output holds the selected files and no others: each selected file has the pinned hash in the
-- source, paths are distinct, a file without an edit is as it was, and each edit, of a distinct
-- selected path, leaves the encoding of the text with every replacement made at the only place
-- of its context, and a record of both hashes.
pub host_sources-IsOutput :
    (fold digest : List ℕ → List ℕ) (source_stays output_stays : List ℕ → Bool)
    (source_path output_path : List (List ℕ)) (source output : Tree) (selection : List Item)
    (edits : List Edit) (result : List HostRecord × Tree)
    → Every (λ i. IsCanonical i.path) selection
    → host_sources fold digest source_stays output_stays source_path output_path source output
        selection edits
      ≡ ok result
    → IsOutput digest source selection edits result.0 result.1
unfolding host_sources
host_sources-IsOutput fold digest source_stays output_stays source_path output_path source output
      selection edits result canonical e =
    require-elim
      (not (is_relative_to source_path output_path || is_relative_to output_path source_path))
      "ART host sources must be separate from the original cache" e
      λ _ e₁.
        >>=-elim (load_selection digest source_stays output_stays source fold [] selection) e₁
          λ loaded made e₂. >>=-elim (edit_files digest [] loaded edits) e₂ λ edited changed e₃.
            require-elim (all_contained (paths_of output) (paths_of edited.1))
              "ART host source tree contains files outside this selection" e₃
              λ inside e₄.
                let (selected, _, distinct) =
                  load_selection-AllLoaded digest source_stays output_stays source fold [] selection
                    loaded made in
                let once = paths_of-Distinct fold loaded distinct in
                let (hosted, kept, same, _, edited_once) =
                  edit_files-Edited digest [] loaded edits edited changed in
                let spelled =
                  loaded-IsCanonical digest source selection loaded canonical selected in
                let alone : (path : List ℕ)
                    → file_at path (write_all (placed edited.1) output) ≡ file_at path edited.1 =
                  λ path.
                    rw (placed-same edited.1 (rw same spelled))
                      (written_alone edited.1 output path (rw same once) inside) in
                rw (sym (ok-injective e₄)) (record {
                  loaded = loaded;
                  selected = selected;
                  once = once;
                  edited_once = edited_once;
                  hosted =
                      AllHosted-later digest loaded edited.1 (write_all (placed edited.1) output)
                        edits edited.0 alone hosted;
                  unedited = λ path h. alone path ∙ kept path h;
                })
