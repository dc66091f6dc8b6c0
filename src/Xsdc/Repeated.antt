-- ===== src/Xsdc/Repeated.antt =====
-- scripts/xsdc.py: what the runs of `prepare` show when they all pass.
use artbox.Base.{
  ℕ, ◌&&◌, not, if◌then◌else◌, Bool, true, false, Option, none, some, List, [], ◌∷◌, ◌++◌, Result,
  ok, err, ◌≡◌, sym, ap, ◌∙◌, inl, inr, Bool-cases, and-eq-true, ok-injective,
}
use artbox.Base.Text.{codes, ◌≟◌, ≟_iff}
use artbox.Paths.{has_char}
use artbox.Paths.Laws.{Every}
use artbox.Sources.Plan.{not-true}
use artbox.Tree.{file_at}
use artbox.Tree.Disk.{Disk}
use artbox.Shell.{Command, is_zero}
use artbox.Shell.Returns.{>>=-returned, demand-returned, give-returned, change-returned}
use artbox.Xsdc.{Listing, Hashes}
use artbox.Xsdc.Rounds.{
  Answer, Work, found_in, or_no_file, to_line_feeds, or_key, note_answer, place_disk, ask_for,
  run_words, put_generated, keep_file,
}

pub or_no_file-some : (o : Option (List ℕ)) (c : List ℕ) → or_no_file o ≡ ok c → o ≡ some c
or_no_file-some none c e = cc
or_no_file-some (some d) c e = ap some (ok-injective e)

pub or_key-some : (o : Option (List ℕ)) (c : List ℕ) → or_key o ≡ ok c → o ≡ some c
or_key-some none c e = cc
or_key-some (some d) c e = ap some (ok-injective e)

-- The file of an attempt has, with its line ends normalized, the pinned digest and no CR.
pub record IsNormal (digest : List ℕ → List ℕ) (pin : List ℕ × List ℕ) (raw : Listing)
    (contents : List ℕ) : Type 0 where
  pub found : found_in pin.0 raw ≡ some contents
  pub clean : has_char 13 (to_line_feeds contents) ≡ false
  pub hashed : digest (to_line_feeds contents) ≡ pin.1

-- A digest of `raw_hashes` is that of the file in the listing.
abbrev pub IsHash : (List ℕ → List ℕ) → Listing → List ℕ × List ℕ → Type 0
IsHash digest raw e = (c : List ℕ) × (found_in e.0 raw ≡ some c) × (e.1 ≡ digest c)

module _ (digest : List ℕ → List ℕ) (raw : Listing) where
  pub Every-append :
      (hashes : Hashes) (e : List ℕ × List ℕ)
      → Every (IsHash digest raw) hashes
      → IsHash digest raw e
      → Every (IsHash digest raw) (hashes ++ e ∷ [])
  Every-append [] e all last = (last, tt)
  Every-append (h ∷ hs) e all last = (all.0, Every-append hs e all.1 last)

  pub file_at-IsHash :
      (name h : List ℕ) (hashes : Hashes)
      → Every (IsHash digest raw) hashes
      → file_at name hashes ≡ some h
      → IsHash digest raw (name, h)
  unfolding file_at
  file_at-IsHash name h [] all e = cc
  file_at-IsHash name h (x ∷ xs) all e = elim (Bool-cases (name ≟ x.0)) [
    | inl same ↦
        let is : name ≡ x.0 = (≟_iff name x.0).0 same in
        let (c, found, hash) = all.0 in (c, rw is found, cc (rw same at e, hash))
    | inr other ↦ file_at-IsHash name h xs all.1 (rw other at e)
  ]

module _ (digest : List ℕ → List ℕ) (is_alias stays_below : List ℕ → Bool)
    (respond : List (Command × Result Answer) → Command → Result Answer) where
  ask_for-returned :
      (words : Command) (s after : Work) (answer : Answer) (r : Result Answer)
      → note_answer words s r ≡ (after, ok answer)
      → record s { asked = (words, ok answer) ∷ s.asked } ≡ after
  ask_for-returned words s after answer r e =
      let is : r ≡ ok answer = ap (λ (x : Work × Result Answer). x.1) e in
      rw is at (ap (λ (x : Work × Result Answer). x.0) e)

  pub run_words-returned :
      (words : Command) (label : List ℕ) (negative : Bool) (s after : Work) (answer : Answer)
      → run_words digest is_alias stays_below respond words label negative s ≡ (after, ok answer)
      → (after.asked ≡ (words, ok answer) ∷ s.asked)
        × (after.raw_hashes ≡ s.raw_hashes)
        × ((if is_zero answer.ran.code then not negative else negative) ≡ true)
  unfolding run_words
  run_words-returned words label negative s after answer e =
      >>=-returned (ask_for digest is_alias stays_below respond words) _ e λ given s₁ asked r₁.
        demand-returned (if is_zero given.ran.code then not negative else negative) _ _
          (change-returned _ _ (change-returned _ _ r₁))
          λ ended last.
            let same : given ≡ answer =
              ok-injective (ap (λ (x : Work × Result Answer). x.1) last) in
            let state = ap (λ (x : Work × Result Answer). x.0) last in
            let noted = ask_for-returned words s s₁ given (respond s.asked words) asked in
            (
              sym (ap (λ (t : Work). t.asked) state)
                  ∙ sym (ap (λ (t : Work). t.asked) noted)
                  ∙ ap (λ (a : Answer). (words, ok a) ∷ s.asked) same,
              sym (ap (λ (t : Work). t.raw_hashes) state)
                  ∙ sym (ap (λ (t : Work). t.raw_hashes) noted),
              rw same at ended,
            )

  place_disk-returned :
      (r : Result Disk) (s after : Work) (u : Unit {0})
      → place_disk r s ≡ (after, ok u)
      → (after.asked ≡ s.asked) × (after.raw_hashes ≡ s.raw_hashes)
  place_disk-returned (err message) s after u e = cc
  place_disk-returned (ok disk) s after u e =
      let state = ap (λ (x : Work × Result (Unit {0})). x.0) e in
      (sym (ap (λ (t : Work). t.asked) state), sym (ap (λ (t : Work). t.raw_hashes) state))

  pub keep_file-returned :
      (name expected : List ℕ) (raw : Listing) (s after : Work) (u : Unit {0})
      → keep_file digest is_alias stays_below respond name expected raw s ≡ (after, ok u)
      → (contents : List ℕ) × IsNormal digest (name, expected) raw contents
        × (after.asked ≡ s.asked)
        × (after.raw_hashes ≡ s.raw_hashes ++ (name, digest contents) ∷ [])
  unfolding keep_file
  keep_file-returned name expected raw s after u e =
      give-returned (or_no_file (found_in name raw)) _ e λ contents read r₁.
        demand-returned
          (not (has_char 13 (to_line_feeds contents)) && digest (to_line_feeds contents) ≟ expected)
          _ _ r₁
          λ normal r₂.
            >>=-returned
              (put_generated digest is_alias stays_below respond (codes "raw-generated/" ++ name)
                contents)
              _ (change-returned _ _ r₂)
              λ v s₁ first r₃.
                let (asked₁, hashes₁) = place_disk-returned _ _ s₁ v first in
                let (asked₂, hashes₂) = place_disk-returned _ s₁ after u r₃ in
                let (clean, hashed) =
                  and-eq-true (not (has_char 13 (to_line_feeds contents)))
                    (digest (to_line_feeds contents) ≟ expected) normal in
                (
                  contents,
                  record {
                    found = or_no_file-some (found_in name raw) contents read;
                    clean = not-true clean;
                    hashed = (≟_iff (digest (to_line_feeds contents)) expected).0 hashed;
                  },
                  asked₂ ∙ asked₁,
                  hashes₂ ∙ hashes₁,
                )
