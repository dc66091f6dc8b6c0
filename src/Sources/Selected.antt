-- ===== src/Sources/Selected.antt =====
-- scripts/sources.py: what a pinned selection is after its checks, and what is written of an archive
-- for it.
use artbox.Base.{
  ℕ, ◌&&◌, ◌||◌, not, true, false, Option, none, some, List, [], ◌∷◌, ◌++◌, ok, ◌≡◌, refl, sym, ap,
  ◌∙◌, arith, >>=-elim, require-elim, ok-injective, and-eq-true,
}
use mathlib.Core.List.{append-nil}
use artbox.Base.Int.{pos, ltb_ℤ}
use artbox.Base.Text.{codes, ◌≟◌, ≟_iff}
use artbox.Paths.{is_nil, contains, parts, join_slash, as_posix, parents}
use artbox.Paths.Laws.{Every, Every-append, parts-IsPart}
use artbox.Sources.Archive.{is_unsafe}
use artbox.Sources.Plan.{IsInside, Distinct, Distinct-append, not-true, not-false, three}
use artbox.Sources.Selection.{
  Pin, Spec, is_hex, is_name, Selected, keys_of, pin_of, any_selected, check_nested, check_pin,
  select_pins, check_notice, select_files,
}

abbrev pub pins_of : Selected → List Pin
pins_of [] = []
pins_of (s ∷ ss) = s.1 ∷ pins_of ss

-- A pin under its folded path.
pub record IsPin (fold : List ℕ → List ℕ) (s : List ℕ × Pin) : Type 0 where
  pub keyed : s.0 ≡ fold s.1.path
  pub inside : IsInside s.1.path
  pub positive : ltb_ℤ s.1.bytes (pos 0) ≡ false
  pub hashed : is_hex 64 s.1.sha256 ≡ true

pub record IsSelection (fold : List ℕ → List ℕ) (spec : Spec) (selected : Selected) : Type 0 where
  pub pins : Every (IsPin fold) selected
  pub whole : pins_of selected ≡ spec.files
  pub distinct : Distinct (keys_of selected)
  pub apart :
      Every (λ key. any_selected (parents key) (keys_of selected) ≡ false) (keys_of selected)
  pub notice :
      (pin : Pin) × (pin_of (fold spec.notice) selected ≡ some pin)
      × (pin.path ≡ spec.notice)
      × (pin.sha256 ≡ spec.notice_sha256)

as_posix-join : (ws : List (List ℕ)) → is_nil ws ≡ false → as_posix ws ≡ join_slash ws
unfolding as_posix
as_posix-join [] h = cc
as_posix-join (w ∷ ws) h = refl

-- A path that is spelled as its components are.
canonical-IsInside :
    (path : List ℕ) → is_unsafe path ≡ false → as_posix (parts path) ≡ path → IsInside path
canonical-IsInside path safe e = record {
  words = parts path;
  spelled = sym e ∙ as_posix-join (parts path) (ground arith);
  some_word = ground arith;
  safe = parts-IsPart path (ground arith) (ground arith) (ground arith);
}

keys_of-append :
    (ss : Selected) (s : List ℕ × Pin) → keys_of (ss ++ s ∷ []) ≡ keys_of ss ++ s.0 ∷ []
unfolding keys_of
keys_of-append [] s = refl
keys_of-append (x ∷ xs) s = ap (λ (ks : List (List ℕ)). x.0 ∷ ks) (keys_of-append xs s)

pins_of-append :
    (ss : Selected) (s : List ℕ × Pin) (pins : List Pin)
    → pins_of (ss ++ s ∷ []) ++ pins ≡ pins_of ss ++ s.1 ∷ pins
pins_of-append [] s pins = refl
pins_of-append (x ∷ xs) s pins = ap (λ (ps : List Pin). x.1 ∷ ps) (pins_of-append xs s pins)

module _ (fold : List ℕ → List ℕ) where
  check_pin-IsPin :
      (selected : Selected) (pin : Pin) {u : Unit {0}}
      → check_pin fold selected pin ≡ ok u
      → IsPin fold (fold pin.path, pin) × (contains (fold pin.path) (keys_of selected) ≡ false)
  unfolding check_pin
  check_pin-IsPin selected pin e =
      require-elim
        (not (
          is_unsafe pin.path
          || not (as_posix (parts pin.path) ≟ pin.path)
          || fold pin.path ≟ codes ".artbox-source.json"))
        "Unsafe pinned source file path" e
        λ path e₁.
          require-elim
            (not (
              contains (fold pin.path) (keys_of selected)
              || ltb_ℤ pin.bytes (pos 0)
              || not (is_hex 64 pin.sha256)))
            "Duplicate or invalid pinned source file" e₁
            λ valid _.
              let (safe, canonical, _) = three path in
              let (fresh, positive, hashed) = three valid in
              (
                record {
                  keyed = refl;
                  positive = positive;
                  hashed = not-false hashed;
                  inside =
                      canonical-IsInside pin.path safe
                        ((≟_iff (as_posix (parts pin.path)) pin.path).0 (not-false canonical));
                },
                fresh,
              )

  select_pins-IsPin :
      (pins : List Pin) (selected out : Selected)
      → Every (IsPin fold) selected
      → Distinct (keys_of selected)
      → select_pins fold selected pins ≡ ok out
      → Every (IsPin fold) out × Distinct (keys_of out) × (pins_of out ≡ pins_of selected ++ pins)
  unfolding select_pins
  select_pins-IsPin [] selected out every distinct e =
      rw (sym (ok-injective e)) (every, distinct, sym (append-nil (pins_of selected)))
  select_pins-IsPin (pin ∷ pins) selected out every distinct e =
      >>=-elim (check_pin fold selected pin) e λ _ checked e₁.
        let (is, fresh) = check_pin-IsPin selected pin checked in
        let (all, apart, whole) =
          select_pins-IsPin pins (selected ++ (fold pin.path, pin) ∷ []) out
            (Every-append (IsPin fold) selected (fold pin.path, pin) every is)
            (rw (keys_of-append selected (fold pin.path, pin))
              (Distinct-append (keys_of selected) (fold pin.path) distinct fresh))
            e₁ in
        (all, apart, whole ∙ pins_of-append selected (fold pin.path, pin) pins)

  nested-apart :
      (rest all : List (List ℕ)) {u : Unit {0}}
      → check_nested rest all ≡ ok u
      → Every (λ key. any_selected (parents key) all ≡ false) rest
  unfolding check_nested
  nested-apart [] all e = tt
  nested-apart (key ∷ rest) all e =
      require-elim (not (any_selected (parents key) all))
        "Pinned source file occupies a directory path" e
        λ apart e₁. (not-true apart, nested-apart rest all e₁)

  check_notice-found :
      (spec : Spec) (found : Option Pin) {u : Unit {0}}
      → check_notice fold spec found ≡ ok u
      → (pin : Pin) × (found ≡ some pin)
        × (pin.path ≡ spec.notice)
        × (pin.sha256 ≡ spec.notice_sha256)
  unfolding check_notice
  check_notice-found spec none e = cc
  check_notice-found spec (some pin) e =
      let (path, digest) =
        and-eq-true (pin.path ≟ spec.notice) (pin.sha256 ≟ spec.notice_sha256) (ground arith) in
      (
        pin,
        refl,
        (≟_iff pin.path spec.notice).0 path,
        (≟_iff pin.sha256 spec.notice_sha256).0 digest,
      )

  -- The selection that `obtain_files` accepts has every pin of the spec, in order, under its
  -- folded path; the paths are canonical and stay inside the tree, keys are distinct, no key is
  -- a parent of another, sizes are not negative, each hash is 64 hexadecimal digits, and the
  -- reviewed notice is among them with its hash.
  pub select_files-IsSelection :
      (name : List ℕ) (spec : Spec) (selected : Selected)
      → select_files fold name spec ≡ ok selected
      → IsSelection fold spec selected
  unfolding select_files keys_of
  select_files-IsSelection name spec selected e =
      require-elim (is_name name && is_hex 40 spec.commit) "Invalid pinned source name or commit" e
        λ _ e₁. >>=-elim (select_pins fold [] spec.files) e₁ λ found pins e₂.
          require-elim (not (is_nil found)) "Empty pinned source selection" e₂ λ _ e₃.
            >>=-elim (check_nested (keys_of found) (keys_of found)) e₃ λ _ nested e₄.
              >>=-elim (check_notice fold spec (pin_of (fold spec.notice) found)) e₄ λ _ notice e₅.
                let (every, distinct, whole) = select_pins-IsPin spec.files [] found tt tt pins in
                rw (sym (ok-injective e₅)) (record {
                  pins = every;
                  whole = whole;
                  distinct = distinct;
                  apart = nested-apart (keys_of found) (keys_of found) nested;
                  notice = check_notice-found spec (pin_of (fold spec.notice) found) notice;
                })
