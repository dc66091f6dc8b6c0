-- ===== src/Adapt/Storage/Stored.antt =====
-- scripts/art_storage_adapt.py: that the header in the output is the one that art_reference_adapt.py
-- makes.
use artbox.Base.{
  ℕ, ◌==◌, ◌&&◌, not, Bool, true, some, String, List, [], ◌∷◌, ok, ◌≡◌, sym, >>=-elim, require-elim,
}
use artbox.Base.Text.{◌≟◌}
use artbox.Paths.{is_nil}
use artbox.Paths.Laws.{Every}
use artbox.Tree.{Tree, file_at}
use artbox.Tree.Writes.{≟-refl}
use artbox.Adapt.Replace.{count, replace_unique}
use artbox.Adapt.Bionic.{Replacement, Edit}
use artbox.Adapt.Host.{Item, HostRecord, edit_text}
use artbox.Adapt.Host.Edited.{IsHosted, AllHosted}
use artbox.Adapt.Host.Output.{IsCanonical, IsOutput, host_sources-IsOutput}
use artbox.Adapt.Storage.{
  reference_path, reference_sha256, reference_replacements, replace_each, adapt_reference,
  reference_edit, adapt_storage,
}

-- What is replaced does not depend on the message.
replace_unique-same :
    (message other : String) (before after text text' : List ℕ)
    → replace_unique message before after text ≡ ok text'
    → replace_unique other before after text ≡ ok text'
unfolding replace_unique
replace_unique-same message other before after text text' e =
    require-elim (not (is_nil before) && count before text == 1) message e
      λ passed rest. rw passed rest

edit_text-replace_each :
    (rs : List Replacement) (text text' : List ℕ)
    → edit_text rs text ≡ ok text'
    → replace_each rs text ≡ ok text'
unfolding edit_text replace_each
edit_text-replace_each [] text text' e = e
edit_text-replace_each (r ∷ rs) text text' e =
    >>=-elim (replace_unique "ART adaptation context is missing or ambiguous" r.0 r.1 text) e
      λ next first rest.
        rw
          (replace_unique-same "ART adaptation context is missing or ambiguous"
            "ART reference adaptation context is missing or ambiguous" r.0 r.1 text next first)
          (edit_text-replace_each rs next text' rest)

-- The header in the output is what `adapt` makes of the header in the selection.
pub record IsReference (digest : List ℕ → List ℕ) (before after : Tree) : Type 0 where
  pub original : List ℕ
  pub contents : List ℕ
  pub held : file_at reference_path before ≡ some original
  pub adapted : adapt_reference digest original ≡ ok contents
  pub left : file_at reference_path after ≡ some contents

first-IsReference :
    (digest : List ℕ → List ℕ) (before after : Tree) (boundary : List Edit)
    (records : List HostRecord)
    → AllHosted digest before after (reference_edit ∷ boundary) records
    → IsReference digest before after
unfolding adapt_reference
first-IsReference digest before after boundary [] h = absurd h
first-IsReference digest before after boundary (r ∷ rs) h =
    let first : IsHosted digest before after reference_edit r = h.0 in
    let same : (digest first.original ≟ reference_sha256) ≡ true =
      rw (sym first.pinned) (≟-refl reference_sha256) in
    let each = edit_text-replace_each reference_replacements first.text first.text' first.edited in
    record {
      original = first.original;
      contents = first.contents;
      held = first.held;
      adapted = rw (same, first.decoded, each) first.encoded;
      left = first.left;
    }

-- When `adapt_storage` returns for a selection of normalised paths, the output is what the
-- adaptation of ART sources promises for the reference edit and those of the boundary, and the
-- header of references in it is what `adapt` of the reference adaptation makes of the header in
-- the selection.
pub adapt_storage-IsStored :
    (fold digest : List ℕ → List ℕ) (source_stays output_stays : List ℕ → Bool)
    (source_path output_path : List (List ℕ)) (source output : Tree) (selection : List Item)
    (boundary : List Edit) (result : List HostRecord × Tree)
    → Every (λ i. IsCanonical i.path) selection
    → adapt_storage fold digest source_stays output_stays source_path output_path source output
        selection boundary
      ≡ ok result
    → (out : IsOutput digest source selection (reference_edit ∷ boundary) result.0 result.1)
      × IsReference digest out.loaded result.1
unfolding adapt_storage
adapt_storage-IsStored fold digest source_stays output_stays source_path output_path source output
      selection boundary result canonical e =
    let out =
      host_sources-IsOutput fold digest source_stays output_stays source_path output_path source
        output selection (reference_edit ∷ boundary) result canonical e in
    (out, first-IsReference digest out.loaded result.1 boundary result.0 out.hosted)
