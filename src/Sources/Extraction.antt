-- ===== src/Sources/Extraction.antt =====
-- scripts/sources.py: `unpack` as a whole, up to the writing of the files.
use artbox.Base.{
  ℕ, ◌*◌, ◌≤◌, true, false, some, List, [], ◌∷◌, length, ok, ◌≡◌, refl, arith, ◌⊎◌, inl, inr,
  Bool-cases, >>=-elim,
}
use artbox.Base.Text.{◌≟◌, ≟_iff}
use artbox.Base.Int.{pos, ltb_ℤ}
use artbox.Paths.{contains, parents}
use artbox.Paths.Laws.{Every}
use artbox.Sources.Archive.{
  Kind, is_regular, is_directory, is_symlink, Member, Plan, no_plan, add_members,
}
use artbox.Sources.Aliases.{lookup, plan_copies}
use artbox.Sources.Plan.{IsInside, keys, Distinct, sizes, IsEntry, planned-IsPlan}
use artbox.Sources.Copies.{Entries, In, Leads, IsCopied, copies_of-IsCopies}

-- What is extracted, by the entries of the archive.
pub record IsExtraction (fold : List ℕ → List ℕ) (exclude : List (List ℕ)) (members : List Member)
    (copies : Entries) : Type 0 where
  pub plan : Plan
  pub planned : add_members fold exclude no_plan members ≡ ok plan
  pub bounded :
      (length plan.entries ≤ 100000)
      × (ltb_ℤ (pos (512 * 1024 * 1024)) (sizes (pos 0) plan.entries) ≡ false)
  pub copied : (c : List ℕ × Member) → In c copies → IsInside c.0 × IsCopied plan.entries c
  pub distinct : Distinct (keys fold copies)
  pub apart :
      (c d : List ℕ × Member) → In c copies → In d copies → contains c.0 (parents d.0) ≡ false
  pub complete :
      (e : List ℕ × Member) → In e plan.entries → is_regular e.1.kind ≡ true → In e copies

Every-In :
    (P : List ℕ × Member → Type 0) (es : Entries) (e : List ℕ × Member) → Every P es → In e es → P e
Every-In P [] e h i = absurd i
Every-In P (x ∷ xs) e h (inl same) = rw same h.0
Every-In P (x ∷ xs) e h (inr there) = Every-In P xs e h.1 there

≟-refl : (x : List ℕ) → (x ≟ x) ≡ true
≟-refl x = (≟_iff x x).1 refl

In-contains :
    (fold : List ℕ → List ℕ) (es : Entries) (e : List ℕ × Member)
    → In e es
    → contains (fold e.0) (keys fold es) ≡ true
unfolding contains
In-contains fold [] e i = absurd i
In-contains fold (x ∷ xs) e (inl same) = rw (same, ≟-refl (fold x.0)) refl
In-contains fold (x ∷ xs) e (inr there) = ground (arith, In-contains fold xs e there)

-- An entry is found under its path, since paths are distinct.
lookup-In :
    (fold : List ℕ → List ℕ) (es : Entries) (e : List ℕ × Member)
    → Distinct (keys fold es)
    → In e es
    → lookup e.0 es ≡ some e.1
unfolding lookup
lookup-In fold [] e d i = absurd i
lookup-In fold (x ∷ xs) e d (inl same) = rw (same, ≟-refl x.0) refl
lookup-In fold (x ∷ xs) e d (inr there) = elim (Bool-cases (e.0 ≟ x.0)) [
  | inr differs ↦ rw differs (lookup-In fold xs e d.1 there)
  | inl same ↦
      let twice : contains (fold x.0) (keys fold xs) ≡ true =
        rw ((≟_iff e.0 x.0).0 same) at (In-contains fold xs e there) in
      cc (twice, d.0)
]

no_directory :
    (kind : Kind) → (is_regular kind ≡ true) ⊎ (is_symlink kind ≡ true) → is_directory kind ≡ false
no_directory Kind.regular h = refl
no_directory Kind.directory (inl h) = cc
no_directory Kind.directory (inr h) = cc
no_directory Kind.symlink h = refl
no_directory Kind.other h = refl

Leads-no_directory :
    (entries : Entries) (n : ℕ) (current : List ℕ) (member last : Member)
    → Leads entries n current member last
    → is_regular last.kind ≡ true
    → is_directory member.kind ≡ false
Leads-no_directory entries n current member last (Leads.arrived c m plain) regular =
    no_directory member.kind (inl regular)
Leads-no_directory entries n current member last (Leads.hop k c m found l link here rest) regular =
    no_directory member.kind (inr link)

apart-of :
    (fold : List ℕ → List ℕ) (entries : Entries) (c d : List ℕ × Member)
    → Distinct (keys fold entries)
    → IsCopied entries c
    → IsCopied entries d
    → contains c.0 (parents d.0) ≡ false
apart-of fold entries c d distinct one other = elim (Bool-cases (contains c.0 (parents d.0))) [
  | inr outside ↦ outside
  | inl above ↦
      let found = lookup-In fold entries (c.0, one.own) distinct one.listed in
      let no = Leads-no_directory entries one.chain.0 c.0 one.own c.1 one.chain.2 one.source in
      cc (no, other.clear c.0 one.own above found)
]

-- What `unpack` would write of an archive that it accepts are regular files at relative paths
-- without empty, dot and dot-dot components, colons and backslashes, each of which the archive
-- has at that path or reaches from there by at most 32 links; folded paths are distinct, no
-- copy lies above another, the entries are at most 100,000 of 512 MiB together, and every
-- regular entry is copied as it is.
pub plan_copies-IsExtraction :
    (fold : List ℕ → List ℕ) (exclude : List (List ℕ)) (members : List Member) (copies : Entries)
    → plan_copies fold exclude members ≡ ok copies
    → IsExtraction fold exclude members copies
unfolding plan_copies
plan_copies-IsExtraction fold exclude members copies e =
    >>=-elim (add_members fold exclude no_plan members) e λ plan planned e₁.
      let p = planned-IsPlan fold exclude members plan planned in
      let all = copies_of-IsCopies fold plan.entries plan.entries copies (λ x h. h) e₁ in
      let distinct : Distinct (keys fold plan.entries) = rw p.named at p.distinct in
      record {
        plan = plan;
        planned = planned;
        bounded = (p.few, rw p.summed p.bounded);
        copied = λ c h.
            let here = all.copied c h in
            ((Every-In IsEntry plan.entries (c.0, here.own) p.entry here.listed).0, here);
        distinct = all.distinct distinct;
        apart =
            λ c d h k. apart-of fold plan.entries c d distinct (all.copied c h) (all.copied d k);
        complete = all.complete;
      }
