-- ===== src/Adapt/Unique.antt =====
-- What a replacement in scripts/bionic_adapt.py does to a text that holds its context once.
use artbox.Base.{
  ℕ, zero, suc, ◌-◌, ◌==◌, ◌&&◌, not, true, false, String, List, [], ◌∷◌, ◌++◌, length, drop, ok,
  ◌≡◌, refl, sym, ap, arith, inl, inr, Bool-cases, and-eq-true, ==_iff, require-elim, ok-injective,
}
use artbox.Base.Text.{◌≟◌}
use artbox.Paths.{is_nil, contains}
use artbox.Paths.Laws.{Every}
use artbox.Sources.Plan.{≟-sym}
use artbox.Sources.Archive.{starts_with}
use artbox.Adapt.Replace.{count_from, count, replace_first, replace_unique}

-- No occurrence begins in the first of three parts of a text.
abbrev pub NoneBegins : List ℕ → List ℕ → List ℕ → Type 0
NoneBegins before [] rest = Unit
NoneBegins before (c ∷ cs) rest =
    (starts_with (c ∷ (cs ++ rest)) before ≡ false) × NoneBegins before cs rest

-- A text with one occurrence, its first, and the text with another in its place.
pub record IsReplaced (before after text text' : List ℕ) : Type 0 where
  pub front : List ℕ
  pub behind : List ℕ
  pub whole : text ≡ front ++ (before ++ behind)
  pub replaced : text' ≡ front ++ (after ++ behind)
  pub first : NoneBegins before front (before ++ behind)
  pub last : count_from 0 before behind ≡ 0

starts_with-split :
    (text before : List ℕ)
    → starts_with text before ≡ true
    → text ≡ before ++ drop (length before) text
unfolding starts_with
starts_with-split text [] h = refl
starts_with-split [] (c ∷ cs) h = cc
starts_with-split (t ∷ ts) (c ∷ cs) h =
    let (same, rest) = and-eq-true (t == c) (starts_with ts cs) h in
    let e : t ≡ c = (==_iff t c).0 same in
    rw e (ap (λ (xs : List ℕ). c ∷ xs) (starts_with-split ts cs rest))

count_from-covered :
    (n : ℕ) (before text : List ℕ) → count_from n before text ≡ count_from 0 before (drop n text)
unfolding count_from
count_from-covered zero before text = refl
count_from-covered (suc n) before [] = refl
count_from-covered (suc n) before (c ∷ cs) = count_from-covered n before cs

drop-pred :
    (c d : ℕ) (cs ds : List ℕ) → drop (length (d ∷ ds) - 1) cs ≡ drop (length (d ∷ ds)) (c ∷ cs)
drop-pred c d cs ds = let e : length (d ∷ ds) - 1 ≡ length ds = omega arith in rw e refl

pub replace_first-IsReplaced :
    (d : ℕ) (ds after text : List ℕ)
    → count_from 0 (d ∷ ds) text ≡ 1
    → IsReplaced (d ∷ ds) after text (replace_first (d ∷ ds) after text)
unfolding count_from replace_first
replace_first-IsReplaced d ds after [] h = absurd (omega arith)
replace_first-IsReplaced d ds after (c ∷ cs) h = elim (Bool-cases (starts_with (c ∷ cs) (d ∷ ds))) [
  | inl here ↦
      let one : suc (count_from (length (d ∷ ds) - 1) (d ∷ ds) cs) ≡ 1 = rw here at h in
      rw here (record {
        front = [];
        behind = drop (length (d ∷ ds)) (c ∷ cs);
        whole = starts_with-split (c ∷ cs) (d ∷ ds) here;
        replaced = refl;
        first = tt;
        last =
            let none : count_from (length (d ∷ ds) - 1) (d ∷ ds) cs ≡ 0 = omega arith in
            rw (count_from-covered (length (d ∷ ds) - 1) (d ∷ ds) cs, drop-pred c d cs ds) at none;
      })
  | inr later ↦
      let one : count_from 0 (d ∷ ds) cs ≡ 1 = rw later at h in
      let rest = replace_first-IsReplaced d ds after cs one in
      rw later (record {
        front = c ∷ rest.front;
        behind = rest.behind;
        whole = ap (λ (xs : List ℕ). c ∷ xs) rest.whole;
        replaced = ap (λ (xs : List ℕ). c ∷ xs) rest.replaced;
        first = (rw rest.whole at later, rest.first);
        last = rest.last;
      })
]

pub replace_unique-IsReplaced :
    (message : String) (before after text text' : List ℕ)
    → replace_unique message before after text ≡ ok text'
    → IsReplaced before after text text'
unfolding replace_unique
replace_unique-IsReplaced message [] after text text' e = cc
replace_unique-IsReplaced message (d ∷ ds) after text text' e =
    require-elim (not (is_nil (d ∷ ds)) && count (d ∷ ds) text == 1) message e λ passed rest.
      rw (sym (ok-injective rest)) (
        replace_first-IsReplaced d ds after text ((==_iff (count_from 0 (d ∷ ds) text) 1).0 passed))

-- No key was seen before.
abbrev pub AreFresh : List (List ℕ) → List (List ℕ) → Type 0
AreFresh seen keys = Every (λ key. contains key seen ≡ false) keys

pub fresh_other :
    (key : List ℕ) (seen keys : List (List ℕ))
    → AreFresh (key ∷ seen) keys
    → contains key keys ≡ false
unfolding contains
fresh_other key seen [] h = refl
fresh_other key seen (k ∷ ks) h =
    let differs : (key ≟ k) ≡ false = ≟-sym k key (ground arith) in
    rw (differs, fresh_other key seen ks h.1) refl

pub fresh_less :
    (key : List ℕ) (seen keys : List (List ℕ)) → AreFresh (key ∷ seen) keys → AreFresh seen keys
unfolding contains
fresh_less key seen [] h = tt
fresh_less key seen (k ∷ ks) h = (ground arith, fresh_less key seen ks h.1)
