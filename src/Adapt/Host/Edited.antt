-- ===== src/Adapt/Host/Edited.antt =====
-- scripts/art_host_adapt.py: what the edits of `adapt_sources` leave in the selection.
use artbox.Base.{
  ℕ, not, false, Option, none, some, List, [], ◌∷◌, ok, ◌≡◌, refl, sym, ap, ◌∙◌, arith, >>=-elim,
  require-elim, ok-injective,
}
use artbox.Base.Text.{◌≟◌, ≟_iff}
use artbox.Base.Utf8.{decode, encode}
use artbox.Paths.{contains}
use artbox.Sources.Plan.{Distinct, not-true}
use artbox.Tree.{File, file_at, write_file, paths_of}
use artbox.Tree.Writes.{file_at-write_file_same, file_at-write_file_other, paths_of-write_file}
use artbox.Adapt.Replace.{replace_unique}
use artbox.Adapt.Unique.{replace_unique-IsReplaced, AreFresh, fresh_other, fresh_less}
use artbox.Adapt.Bionic.{Replacement, Edit}
use artbox.Adapt.Bionic.Overlay.{AllReplaced}
use artbox.Adapt.Host.{HostRecord, edit_text, selected_bytes, edit_files}

edit_text-AllReplaced :
    (rs : List Replacement) (text text' : List ℕ)
    → edit_text rs text ≡ ok text'
    → AllReplaced rs text text'
unfolding edit_text
edit_text-AllReplaced [] text text' e = ok-injective e
edit_text-AllReplaced (r ∷ rs) text text' e =
    >>=-elim (replace_unique "ART adaptation context is missing or ambiguous" r.0 r.1 text) e
      λ next replaced rest. (
        next,
        replace_unique-IsReplaced "ART adaptation context is missing or ambiguous" r.0 r.1 text next
            replaced,
        edit_text-AllReplaced rs next text' rest,
      )

-- What is left in `prepared` for an edit, against what was there first.
pub record IsHosted (digest : List ℕ → List ℕ) (before after : List File) (edit : Edit)
    (entry : HostRecord) : Type 0 where
  pub original : List ℕ
  pub held : file_at edit.path before ≡ some original
  pub pinned : edit.sha256 ≡ digest original
  pub text : List ℕ
  pub decoded : decode original ≡ ok text
  pub text' : List ℕ
  pub edited : edit_text edit.replacements text ≡ ok text'
  pub replaced : AllReplaced edit.replacements text text'
  pub contents : List ℕ
  pub encoded : encode text' ≡ ok contents
  pub left : file_at edit.path after ≡ some contents
  pub recorded :
      entry
      ≡ record { path = edit.path; upstream_sha256 = edit.sha256; adapted_sha256 = digest contents }

abbrev pub AllHosted :
    (List ℕ → List ℕ) → List File → List File → List Edit → List HostRecord → Type 0
AllHosted digest before after [] [] = Unit
AllHosted digest before after [] (r ∷ rs) = ⊥
AllHosted digest before after (e ∷ es) [] = ⊥
AllHosted digest before after (e ∷ es) (r ∷ rs) =
    IsHosted digest before after e r × AllHosted digest before after es rs

abbrev pub edit_paths : List Edit → List (List ℕ)
edit_paths [] = []
edit_paths (e ∷ es) = e.path ∷ edit_paths es

module _ (digest : List ℕ → List ℕ) where
  -- An edit of another path before makes no difference.
  AllHosted-earlier :
      (path contents : List ℕ) (edited : List (List ℕ)) (before after : List File)
      (edits : List Edit) (records : List HostRecord)
      → AreFresh (path ∷ edited) (edit_paths edits)
      → AllHosted digest (write_file path contents before) after edits records
      → AllHosted digest before after edits records
  unfolding contains
  AllHosted-earlier path contents edited before after [] [] fresh h = h
  AllHosted-earlier path contents edited before after [] (r ∷ rs) fresh h = h
  AllHosted-earlier path contents edited before after (e ∷ es) [] fresh h = h
  AllHosted-earlier path contents edited before after (e ∷ es) (r ∷ rs) fresh h =
      let other : (e.path ≟ path) ≡ false = ground arith in
      (
        record {
          original = h.0.original;
          held = sym (file_at-write_file_other e.path path contents before other) ∙ h.0.held;
          pinned = h.0.pinned;
          text = h.0.text;
          decoded = h.0.decoded;
          text' = h.0.text';
          edited = h.0.edited;
          replaced = h.0.replaced;
          contents = h.0.contents;
          encoded = h.0.encoded;
          left = h.0.left;
          recorded = h.0.recorded;
        },
        AllHosted-earlier path contents edited before after es rs fresh.1 h.1,
      )

  selected_bytes-facts :
      (edited : List (List ℕ)) (edit : Edit) (o : Option (List ℕ)) (original : List ℕ)
      → selected_bytes digest edited edit o ≡ ok original
      → (o ≡ some original) × (contains edit.path edited ≡ false) × (edit.sha256 ≡ digest original)
  unfolding selected_bytes
  selected_bytes-facts edited edit none original e = cc
  selected_bytes-facts edited edit (some bytes) original e =
      require-elim (not (contains edit.path edited))
        "ART adaptation is duplicate or outside the selection" e
        λ fresh e₁.
          require-elim (digest bytes ≟ edit.sha256) "ART adaptation source hash changed" e₁
            λ same e₂.
              let is : bytes ≡ original = ok-injective e₂ in
              (
                ap (λ (b : List ℕ). some b) is,
                not-true fresh,
                sym ((≟_iff (digest bytes) edit.sha256).0 same) ∙ ap digest is,
              )

  abbrev pub Edited : List (List ℕ) → List File → List Edit → List HostRecord × List File → Type 0
  Edited edited prepared edits result =
      AllHosted digest prepared result.1 edits result.0
      × ((path : List ℕ)
          → contains path (edit_paths edits) ≡ false
          → file_at path result.1 ≡ file_at path prepared)
      × (paths_of result.1 ≡ paths_of prepared)
      × AreFresh edited (edit_paths edits)
      × Distinct (edit_paths edits)

  pub edit_files-Edited :
      (edited : List (List ℕ)) (prepared : List File) (edits : List Edit)
      (result : List HostRecord × List File)
      → edit_files digest edited prepared edits ≡ ok result
      → Edited edited prepared edits result
  unfolding edit_files contains
  edit_files-Edited edited prepared [] result e =
      rw (sym (ok-injective e)) (tt, (λ path h. refl), refl, tt, tt)
  edit_files-Edited edited prepared (edit ∷ edits) result e =
      >>=-elim (selected_bytes digest edited edit (file_at edit.path prepared)) e
        λ original selected e₁. >>=-elim (decode original) e₁ λ text decoded e₂.
          >>=-elim (edit_text edit.replacements text) e₂ λ text' applied e₃.
            >>=-elim (encode text') e₃ λ contents encoded e₄.
              let next = write_file edit.path contents prepared in
              >>=-elim (edit_files digest (edit.path ∷ edited) next edits) e₄ λ rest others e₅.
                let (held, fresh, pinned) =
                  selected_bytes-facts edited edit (file_at edit.path prepared) original selected in
                let (all, kept, same, unseen, distinct) =
                  edit_files-Edited (edit.path ∷ edited) next edits rest others in
                let paths = edit_paths edits in
                let absent = fresh_other edit.path edited paths unseen in
                rw (sym (ok-injective e₅)) (
                  (
                    record {
                      original = original;
                      held = held;
                      pinned = pinned;
                      text = text;
                      decoded = decoded;
                      text' = text';
                      edited = applied;
                      replaced = edit_text-AllReplaced edit.replacements text text' applied;
                      contents = contents;
                      encoded = encoded;
                      left =
                          kept edit.path absent
                          ∙ file_at-write_file_same edit.path contents prepared;
                      recorded = refl;
                    },
                    AllHosted-earlier edit.path contents edited prepared rest.1 edits rest.0 unseen
                        all,
                  ),
                  (λ path h.
                      kept path (ground arith)
                      ∙ file_at-write_file_other path edit.path contents prepared (ground arith)),
                  same ∙ paths_of-write_file edit.path contents original prepared held,
                  (fresh, fresh_less edit.path edited paths unseen),
                  (absent, distinct),
                )
