-- ===== src/Reference/Member.antt =====
-- scripts/binder_reference.py: where the data member of an archive lies, and that the rounds suffice to
-- find it.
use artbox.Base.{
  ℕ, zero, suc, ◌+◌, ◌%◌, ◌≤◌, ltb, ◌||◌, not, none, some, List, [], ◌∷◌, length, take, drop,
  Result, ok, err, require, ◌>>=◌, ◌≡◌, refl, sym, ap, ◌∙◌, arith, inl, inr, Bool-cases, >>=-elim,
  require-elim, ok-injective,
}
use artbox.Base.Int.{pos, pos_part, ltb_ℤ}
use artbox.Base.Text.{codes, ◌≟◌}
use artbox.Reference.Archive.{
  is_data, is_found, Data, read_member_header, note_data, next_member, read_members, data_member,
  or_unsupported,
}

nothing_left : (n : ℕ) (bytes : List ℕ) → length bytes ≤ n → take 60 (drop n bytes) ≡ []
nothing_left zero [] h = refl
nothing_left zero (b ∷ bs) h = absurd (omega arith)
nothing_left (suc n) [] h = refl
nothing_left (suc n) (b ∷ bs) h = nothing_left n bs (omega arith)

>>=-cong :
    {A B : Type 0} (m : Result A) (f g : A → Result B)
    → ((a : A) → f a ≡ g a)
    → (m >>= f) ≡ (m >>= g)
>>=-cong (ok a) f g same = same a
>>=-cong (err e) f g same = refl

next_member-cong :
    (f g : ℕ → Data → Result Data) (archive : List ℕ) (position : ℕ) (found : Data)
    (header : List ℕ)
    → ((next : ℕ) (noted : Data) → position + 60 ≤ next → f next noted ≡ g next noted)
    → next_member f archive position found header ≡ next_member g archive position found header
unfolding next_member
next_member-cong f g archive position found [] same = refl
next_member-cong f g archive position found (b ∷ bs) same =
    >>=-cong (read_member_header (b ∷ bs)) _ _ λ member.
      >>=-cong
        (require
          (not (ltb_ℤ member.1 (pos 0) || ltb (length archive) (position + 60 + pos_part member.1)))
          "Debian member escapes archive")
        _ _
        λ _. >>=-cong (note_data member.0 (position + 60) (pos_part member.1) found) _ _ λ noted.
          same (position + 60 + (pos_part member.1 + pos_part member.1 % 2)) noted (omega arith)

-- More rounds than bytes do not change the outcome.
read_members-rounds :
    (rounds more : ℕ) (archive : List ℕ) (position : ℕ) (found : Data)
    → length archive ≤ position + rounds
    → rounds ≤ more
    → read_members (suc rounds) archive position found
      ≡ read_members (suc more) archive position found
unfolding read_members next_member
read_members-rounds zero more archive position found h many =
    let done = nothing_left position archive (omega (arith, h)) in
    let last : (f : ℕ → Data → Result Data)
        → next_member f archive position found (take 60 (drop position archive)) ≡ ok found =
      λ f. ap (λ header. next_member f archive position found header) done in
    last (λ next noted. read_members zero archive next noted)
    ∙ sym (last λ next noted. read_members more archive next noted)
read_members-rounds (suc rounds) zero archive position found h many = absurd (omega (arith, many))
read_members-rounds (suc rounds) (suc more) archive position found h many =
    next_member-cong _ _ archive position found (take 60 (drop position archive)) λ next noted far.
      read_members-rounds rounds more archive next noted (omega (arith, h, far))
        (omega (arith, many))

-- A data member lies in the archive.
abbrev pub IsInside : List ℕ → Data → Type 0
IsInside archive none = Unit {0}
IsInside archive (some (offset, size)) = offset + size ≤ length archive

note_data-IsInside :
    (name archive : List ℕ) (offset size : ℕ) (found noted : Data)
    → offset + size ≤ length archive
    → IsInside archive found
    → note_data name offset size found ≡ ok noted
    → IsInside archive noted
unfolding note_data
note_data-IsInside name archive offset size found noted fits held e =
    elim (Bool-cases (is_data name)) [
      | inr other ↦ let same : found ≡ noted = ok-injective (rw other at e) in rw (sym same) held
      | inl data' ↦
          require-elim (not (is_found found)) "Duplicate Debian data member" (rw data' at e)
            λ _ e₁. rw (sym (ok-injective e₁)) fits
    ]

next_member-IsInside :
    (f : ℕ → Data → Result Data) (archive : List ℕ) (position : ℕ) (found last : Data)
    (header : List ℕ)
    → ((next : ℕ) (noted : Data)
        → IsInside archive noted
        → f next noted ≡ ok last
        → IsInside archive last)
    → IsInside archive found
    → next_member f archive position found header ≡ ok last
    → IsInside archive last
unfolding next_member
next_member-IsInside f archive position found last [] rest held e = rw (sym (ok-injective e)) held
next_member-IsInside f archive position found last (b ∷ bs) rest held e =
    >>=-elim (read_member_header (b ∷ bs)) e λ member _ e₁.
      require-elim
        (not (ltb_ℤ member.1 (pos 0) || ltb (length archive) (position + 60 + pos_part member.1)))
        "Debian member escapes archive" e₁
        λ fits e₂.
          >>=-elim (note_data member.0 (position + 60) (pos_part member.1) found) e₂
            λ noted known e₃.
              rest (position + 60 + (pos_part member.1 + pos_part member.1 % 2)) noted
                (note_data-IsInside member.0 archive (position + 60) (pos_part member.1) found noted
                  (ground (arith, fits)) held known)
                e₃

read_members-IsInside :
    (rounds : ℕ) (archive : List ℕ) (position : ℕ) (found last : Data)
    → IsInside archive found
    → read_members rounds archive position found ≡ ok last
    → IsInside archive last
unfolding read_members
read_members-IsInside zero archive position found last held e = cc
read_members-IsInside (suc rounds) archive position found last held e =
    next_member-IsInside (λ next noted. read_members rounds archive next noted) archive position
      found last (take 60 (drop position archive))
      (λ next noted inside e₁. read_members-IsInside rounds archive next noted last inside e₁) held
      e

-- The data member lies in the archive, and more rounds find the same.
pub record IsPlaced (archive : List ℕ) (place : ℕ × ℕ) : Type 0 where
  pub bounded : place.0 + place.1 ≤ length archive
  pub found :
      (extra : ℕ) → read_members (suc (length archive + extra)) archive 8 none ≡ ok (some place)

pub data_member-IsPlaced :
    (archive : List ℕ) (place : ℕ × ℕ) → data_member archive ≡ ok place → IsPlaced archive place
unfolding data_member
data_member-IsPlaced archive place e =
    require-elim (take 8 archive ≟ codes "!<arch>\n") "Expected a Debian ar archive" e λ _ e₁.
      >>=-elim (read_members (suc (length archive)) archive 8 none) e₁ λ last read e₂.
        let is : last ≡ some place = unsupported last place e₂ in
        let inside : IsInside archive (some place) =
          rw is at (read_members-IsInside (suc (length archive)) archive 8 none last tt read) in
        record {
          bounded = inside;
          found = λ extra.
              sym (
                read_members-rounds (length archive) (length archive + extra) archive 8 none
                  (omega arith) (omega arith))
              ∙ read
              ∙ ap (λ (d : Data). ok d) is;
        }
  where
    unsupported : (last : Data) (place : ℕ × ℕ) → or_unsupported last ≡ ok place → last ≡ some place
    unsupported none place h = cc
    unsupported (some found) place h = ap (λ (p : ℕ × ℕ). some p) (ok-injective h)
