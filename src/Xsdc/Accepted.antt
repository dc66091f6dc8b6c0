-- ===== src/Xsdc/Accepted.antt =====
-- scripts/xsdc.py: that two generations which pass agree with the pin and with each other.
use artbox.Base.{
  ℕ, ◌&&◌, not, if◌then◌else◌, Bool, true, false, Option, some, List, [], ◌∷◌, Result, ok, ◌≡◌,
  refl, sym, ap, ◌∙◌, and-eq-true, ok-injective,
}
use artbox.Base.Text.{◌≟◌, ≟_iff}
use artbox.Paths.{has_char}
use artbox.Paths.Laws.{Every}
use artbox.Sources.Plan.{not-true}
use artbox.Tree.{file_at, paths_of}
use artbox.Shell.{give, Command, is_zero}
use artbox.Shell.Returns.{>>=-returned, demand-returned, give-returned, demand-true}
use artbox.Xsdc.{Listing, Hashes, listed_files}
use artbox.Xsdc.Rounds.{
  Answer, Work, found_in, or_no_file, to_line_feeds, same_set_of, or_key, run_words, keep_file,
  keep_files, compare_file, compare_files, attempt,
}
use artbox.Xsdc.Repeated.{
  or_no_file-some, or_key-some, IsNormal, IsHash, Every-append, file_at-IsHash, run_words-returned,
  keep_file-returned,
}

-- Both attempts wrote the file, with one digest; normalized, both are the pinned source without CR.
pub record IsReproduced (digest : List ℕ → List ℕ) (one two : Listing) (pin : List ℕ × List ℕ)
    : Type 0 where
  pub contents : List ℕ
  pub again : List ℕ
  pub first : IsNormal digest pin one contents
  pub second : IsNormal digest pin two again
  pub repeated : digest contents ≡ digest again

abbrev IsKept : (List ℕ → List ℕ) → Listing → List ℕ × List ℕ → Type 0
IsKept digest raw pin = (contents : List ℕ) × IsNormal digest pin raw contents

abbrev IsCompared : (List ℕ → List ℕ) → Listing → Hashes → List ℕ × List ℕ → Type 0
IsCompared digest raw hashes pin =
    (again : List ℕ) × IsNormal digest pin raw again × (file_at pin.0 hashes ≡ some (digest again))

found_once : {o : Option (List ℕ)} {c d : List ℕ} → o ≡ some c → o ≡ some d → c ≡ d
found_once first second = cc

pub zero_exit : (b : Bool) → (if b then true else false) ≡ true → b ≡ true
zero_exit true e = refl
zero_exit false e = cc

pub nonzero_exit : (b : Bool) → (if b then false else true) ≡ true → b ≡ false
nonzero_exit true e = cc
nonzero_exit false e = refl

module _ (digest : List ℕ → List ℕ) (is_alias stays_below : List ℕ → Bool)
    (respond : List (Command × Result Answer) → Command → Result Answer) where
  pub keep_files-returned :
      (pins : Hashes) (raw : Listing) (s after : Work) (u : Unit {0})
      → keep_files digest is_alias stays_below respond pins raw s ≡ (after, ok u)
      → Every (IsHash digest raw) s.raw_hashes
      → Every (IsKept digest raw) pins
        × (after.asked ≡ s.asked)
        × Every (IsHash digest raw) after.raw_hashes
  unfolding keep_files
  keep_files-returned [] raw s after u e held =
      let state = ap (λ (x : Work × Result (Unit {0})). x.0) e in
      (tt, sym (ap (λ (t : Work). t.asked) state), rw state at held)
  keep_files-returned (p ∷ ps) raw s after u e held =
      >>=-returned (keep_file digest is_alias stays_below respond p.0 p.1 raw) _ e
        λ v s₁ first rest.
          let (contents, normal, asked₁, hashes₁) =
            keep_file-returned digest is_alias stays_below respond p.0 p.1 raw s s₁ v first in
          let held₁ : Every (IsHash digest raw) s₁.raw_hashes = rw hashes₁ (
            Every-append digest raw s.raw_hashes (p.0, digest contents) held
              (contents, normal.found, refl)) in
          let (kept, asked₂, hashes₂) = keep_files-returned ps raw s₁ after u rest held₁ in
          (((contents, normal), kept), asked₂ ∙ asked₁, hashes₂)

  compare_file-returned :
      (name expected : List ℕ) (raw : Listing) (s after : Work) (u : Unit {0})
      → compare_file digest is_alias stays_below respond name expected raw s ≡ (after, ok u)
      → IsCompared digest raw s.raw_hashes (name, expected) × (s ≡ after)
  unfolding compare_file
  compare_file-returned name expected raw s after u e =
      give-returned (or_no_file (found_in name raw)) _ e λ again read r₁.
        demand-returned
          (not (has_char 13 (to_line_feeds again)) && digest (to_line_feeds again) ≟ expected) _ _
          r₁
          λ normal r₂.
            >>=-returned (λ (s : Work). give (or_key (file_at name s.raw_hashes)) s) _ r₂
              λ known s₁ looked r₃.
                let there =
                  or_key-some (file_at name s.raw_hashes) known
                    (ap (λ (x : Work × Result (List ℕ)). x.1) looked) in
                let same_state = ap (λ (x : Work × Result (List ℕ)). x.0) looked in
                let (last, equal) =
                  demand-true (known ≟ digest again) "XSdc generation is not repeatable" s₁ after u
                    r₃ in
                let is : known ≡ digest again = (≟_iff known (digest again)).0 equal in
                let (clean, hashed) =
                  and-eq-true (not (has_char 13 (to_line_feeds again)))
                    (digest (to_line_feeds again) ≟ expected) normal in
                (
                  (
                    again,
                    record {
                      found = or_no_file-some (found_in name raw) again read;
                      clean = not-true clean;
                      hashed = (≟_iff (digest (to_line_feeds again)) expected).0 hashed;
                    },
                    there ∙ ap some is,
                  ),
                  same_state ∙ last,
                )

  pub compare_files-returned :
      (pins : Hashes) (raw : Listing) (s after : Work) (u : Unit {0})
      → compare_files digest is_alias stays_below respond pins raw s ≡ (after, ok u)
      → Every (IsCompared digest raw s.raw_hashes) pins × (s ≡ after)
  unfolding compare_files
  compare_files-returned [] raw s after u e = (tt, ap (λ (x : Work × Result (Unit {0})). x.0) e)
  compare_files-returned (p ∷ ps) raw s after u e =
      >>=-returned (compare_file digest is_alias stays_below respond p.0 p.1 raw) _ e
        λ v s₁ first rest.
          let (compared, same) = compare_file-returned p.0 p.1 raw s s₁ v first in
          let (all, last) = compare_files-returned ps raw s₁ after u rest in
          ((compared, rw (sym same) at all), same ∙ last)

  pub reproduced :
      (pins : Hashes) (one two : Listing) (hashes : Hashes)
      → Every (IsHash digest one) hashes
      → Every (IsKept digest one) pins
      → Every (IsCompared digest two hashes) pins
      → Every (IsReproduced digest one two) pins
  reproduced [] one two hashes held kept compared = tt
  reproduced (p ∷ ps) one two hashes held kept compared =
      let (contents, normal) = kept.0 in
      let (again, normal', there) = compared.0 in
      let (c, found, hash) = file_at-IsHash digest one p.0 (digest again) hashes held there in
      (
        record {
          contents = c;
          again = again;
          first = record {
            found = found;
            clean = rw (found_once found normal.found) normal.clean;
            hashed = rw (found_once found normal.found) normal.hashed;
          };
          second = normal';
          repeated = sym hash;
        },
        reproduced ps one two hashes held kept.1 compared.1,
      )

  pub attempt-returned :
      (words : Command) (label : List ℕ) (pins : Hashes) (s after : Work) (raw : Listing)
      → attempt digest is_alias stays_below respond words label pins s ≡ (after, ok raw)
      → (answer : Answer) × (hashes : Hashes) × (answer.listing ≡ raw)
        × (listed_files digest raw ≡ ok hashes)
        × (same_set_of (paths_of hashes) (paths_of pins) ≡ true)
        × (is_zero answer.ran.code ≡ true)
        × (after.asked ≡ (words, ok answer) ∷ s.asked)
        × (after.raw_hashes ≡ s.raw_hashes)
  unfolding attempt
  attempt-returned words label pins s after raw e =
      >>=-returned (run_words digest is_alias stays_below respond words label false) _ e
        λ answer s₁ ran r₁.
          give-returned (listed_files digest answer.listing) _ r₁ λ hashes listed r₂.
            demand-returned (same_set_of (paths_of hashes) (paths_of pins)) _ _ r₂ λ same last.
              let (asked, held, ended) =
                run_words-returned digest is_alias stays_below respond words label false s s₁ answer
                  ran in
              let is : answer.listing ≡ raw =
                ok-injective (ap (λ (x : Work × Result Listing). x.1) last) in
              let state = ap (λ (x : Work × Result Listing). x.0) last in
              (
                answer,
                hashes,
                is,
                rw is at listed,
                same,
                zero_exit (is_zero answer.ran.code) ended,
                sym (ap (λ (t : Work). t.asked) state) ∙ asked,
                sym (ap (λ (t : Work). t.raw_hashes) state) ∙ held,
              )
