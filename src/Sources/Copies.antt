-- ===== src/Sources/Copies.antt =====
-- scripts/sources.py: `unpack`, what is copied where.
use artbox.Base.{
  ℕ, zero, suc, ◌≤◌, ◌||◌, not, true, false, some, List, [], ◌∷◌, ◌++◌, ok, ◌>>=◌, ◌>>◌, ◌≡◌, refl,
  sym, arith, ◌⊎◌, inl, inr, Bool-cases, Option-cases, >>=-elim, require-elim, ok-injective,
  require,
}
use artbox.Base.Text.{◌≟◌, ≟_iff}
use artbox.Paths.{slash, dot_dot, has_char, is_absolute, contains, parents}
use artbox.Sources.Archive.{Kind, is_regular, is_directory, is_symlink, Member, starts_with}
use artbox.Sources.Aliases.{
  lookup, check_parent, check_parents, link_target, follow, resolve, copies_of,
}
use artbox.Sources.Plan.{keys, Distinct}

abbrev pub Entries : Type 0
Entries = List (List ℕ × Member)

abbrev pub In : List ℕ × Member → Entries → Type 0
In e [] = ⊥
In e (x ∷ xs) = (e ≡ x) ⊎ In e xs

-- A chain of links of a length from a path's member to a member that is no link.
pub data Leads (entries : Entries) : ℕ → List ℕ → Member → Member → Type 0 where
  arrived :
      (current : List ℕ) (member : Member)
      → is_symlink member.kind ≡ false
      → Leads entries 0 current member member
  hop :
      (n : ℕ) (current : List ℕ) (member found last : Member)
      → is_symlink member.kind ≡ true
      → lookup (link_target current member.linkname) entries ≡ some found
      → Leads entries n (link_target current member.linkname) found last
      → Leads entries (suc n) current member last

follow-found :
    (entries : Entries) (current : List ℕ) (member : Member) (next : List ℕ × Member)
    → follow entries current member ≡ ok next
    → (next.0 ≡ link_target current member.linkname)
      × (lookup (link_target current member.linkname) entries ≡ some next.1)
unfolding follow
follow-found entries current member next e =
    let target = link_target current member.linkname in
    require-elim
      (not
        (is_absolute member.linkname || has_char 58 member.linkname || has_char 92 member.linkname))
      "Unsafe source alias" e
      λ _ e₁.
        require-elim (not (target ≟ dot_dot || starts_with target (dot_dot ++ slash ∷ [])))
          "Source alias escapes the extracted tree" e₁
          λ _ e₂. elim (Option-cases (lookup target entries)) [
            | inl missing ↦ cc (rw missing at e₂)
            | inr (found, here) ↦
                let e₃ : (require (not (is_directory found.kind))
                        "Directory aliases require an explicit source selection"
                      >> ok (target, found))
                    ≡ ok next =
                  rw here at e₂ in
                require-elim (not (is_directory found.kind))
                  "Directory aliases require an explicit source selection" e₃
                  λ _ e₄. rw (sym (ok-injective e₄)) (refl, here)
          ]

pub resolve-Leads :
    (entries : Entries) (left : ℕ) (seen : List (List ℕ)) (current : List ℕ) (member last : Member)
    → resolve entries left seen current member ≡ ok last
    → (n : ℕ) × (n ≤ left) × Leads entries n current member last
unfolding resolve
resolve-Leads entries zero seen current member last e = elim (Bool-cases (is_symlink member.kind)) [
  | inl link ↦ cc (rw link at e)
  | inr plain ↦
      let same : member ≡ last = ok-injective (rw plain at e) in
      rw (sym same) (0, omega arith, Leads.arrived current member plain)
]
resolve-Leads entries (suc left) seen current member last e =
    elim (Bool-cases (is_symlink member.kind)) [
      | inr plain ↦
          let same : member ≡ last = ok-injective (rw (plain, resolve) at e) in
          rw (sym same) (0, omega arith, Leads.arrived current member plain)
      | inl link ↦
          let e₀ : (require (not (contains current seen)) "Source alias cycle"
                >> (follow entries current member >>= λ next.
                    resolve entries left (current ∷ seen) next.0 next.1))
              ≡ ok last =
            rw (link, resolve) at e in
          require-elim (not (contains current seen)) "Source alias cycle" e₀ λ _ e₁.
            >>=-elim (follow entries current member) e₁ λ next followed e₂.
              let (place, found) = follow-found entries current member next followed in
              let (n, few, leads) =
                resolve-Leads entries left (current ∷ seen) next.0 next.1 last e₂ in
              (
                suc n,
                omega (arith, few),
                Leads.hop n current member next.1 last link found (rw place at leads),
              )
    ]

check_parent-clear :
    (entries : Entries) (parent : List ℕ) {u : Unit {0}} (ancestor : Member)
    → check_parent entries parent ≡ ok u
    → lookup parent entries ≡ some ancestor
    → is_directory ancestor.kind ≡ true
unfolding check_parent
check_parent-clear entries parent ancestor e found = ground arith

-- No ancestor is a file of the archive.
check_parents-clear :
    (entries : Entries) (above : List (List ℕ)) {u : Unit {0}} (path : List ℕ) (ancestor : Member)
    → check_parents entries above ≡ ok u
    → contains path above ≡ true
    → lookup path entries ≡ some ancestor
    → is_directory ancestor.kind ≡ true
unfolding check_parents contains
check_parents-clear entries [] path ancestor e h found = cc
check_parents-clear entries (parent ∷ above) path ancestor e h found =
    >>=-elim (check_parent entries parent) e λ _ here rest. elim (Bool-cases (path ≟ parent)) [
      | inl same ↦
          check_parent-clear entries parent ancestor here (rw ((≟_iff path parent).0 same) at found)
      | inr differs ↦ check_parents-clear entries above path ancestor rest (ground arith) found
    ]

-- One copy: a regular file at a path inside of the tree, which the archive has there or which a
-- chain of at most 32 links leads to from there, with no file above it.
pub record IsCopied (entries : Entries) (copy : List ℕ × Member) : Type 0 where
  pub source : is_regular copy.1.kind ≡ true
  pub own : Member
  pub listed : In (copy.0, own) entries
  pub chain : (n : ℕ) × (n ≤ 32) × Leads entries n copy.0 own copy.1
  pub clear :
      (path : List ℕ) (ancestor : Member)
      → contains path (parents copy.0) ≡ true
      → lookup path entries ≡ some ancestor
      → is_directory ancestor.kind ≡ true

-- The copies of a part of the entries.
pub record IsCopies (fold : List ℕ → List ℕ) (entries part copies : Entries) : Type 0 where
  pub copied : (c : List ℕ × Member) → In c copies → IsCopied entries c
  pub within :
      (key : List ℕ)
      → contains key (keys fold part) ≡ false
      → contains key (keys fold copies) ≡ false
  pub distinct : Distinct (keys fold part) → Distinct (keys fold copies)
  pub complete : (e : List ℕ × Member) → In e part → is_regular e.1.kind ≡ true → In e copies

regular-no_link : (kind : Kind) → is_regular kind ≡ true → is_symlink kind ≡ false
regular-no_link Kind.regular h = refl
regular-no_link Kind.directory h = refl
regular-no_link Kind.symlink h = cc
regular-no_link Kind.other h = refl

-- A regular file is its own source.
resolve-regular :
    (entries : Entries) (seen : List (List ℕ)) (current : List ℕ) (member last : Member)
    → is_regular member.kind ≡ true
    → resolve entries 32 seen current member ≡ ok last
    → member ≡ last
unfolding resolve
resolve-regular entries seen current member last regular e =
    ok-injective (rw (regular-no_link member.kind regular, resolve) at e)

module _ (fold : List ℕ → List ℕ) (entries : Entries) where
  own-irregular :
      (x : List ℕ × Member) (source : Member)
      → resolve entries 32 [] x.0 x.1 ≡ ok source
      → is_regular source.kind ≡ false
      → is_regular x.1.kind ≡ false
  own-irregular x source resolved irregular = elim (Bool-cases (is_regular x.1.kind)) [
    | inr plain ↦ plain
    | inl is ↦ rw (resolve-regular entries [] x.0 x.1 source is resolved) irregular
  ]

  keep-IsCopies :
      (x : List ℕ × Member) (part copies : Entries) (source : Member)
      → IsCopied entries (x.0, source)
      → IsCopies fold entries part copies
      → (is_regular x.1.kind ≡ true → x.1 ≡ source)
      → IsCopies fold entries (x ∷ part) ((x.0, source) ∷ copies)
  unfolding contains
  keep-IsCopies x part copies source here ih itself = record {
    copied = λ c h. elim h [ inl same ↦ rw same here | inr there ↦ ih.copied c there ];
    within = λ key h. ground (arith, ih.within key);
    distinct = λ d. (ih.within (fold x.0) d.0, ih.distinct d.1);
    complete = λ e h regular. elim h [
      | inl same ↦
          let is : is_regular x.1.kind ≡ true = rw same at regular in
          inl (rw (sym (itself is)) same)
      | inr there ↦ inr (ih.complete e there regular)
    ];
  }

  drop-IsCopies :
      (x : List ℕ × Member) (part copies : Entries)
      → IsCopies fold entries part copies
      → is_regular x.1.kind ≡ false
      → IsCopies fold entries (x ∷ part) copies
  unfolding contains
  drop-IsCopies x part copies ih irregular = record {
    copied = ih.copied;
    within = λ key h. ih.within key (ground arith);
    distinct = λ d. ih.distinct d.1;
    complete = λ e h regular. elim h [
      | inl same ↦ let is : is_regular x.1.kind ≡ true = rw same at regular in cc
      | inr there ↦ ih.complete e there regular
    ];
  }

  pub copies_of-IsCopies :
      (part copies : Entries)
      → ((e : List ℕ × Member) → In e part → In e entries)
      → copies_of entries part ≡ ok copies
      → IsCopies fold entries part copies
  unfolding copies_of
  copies_of-IsCopies [] copies sub e = rw (sym (ok-injective e)) (record {
    copied = λ c h. absurd h;
    within = λ key h. h;
    distinct = λ d. d;
    complete = λ x h r. h;
  })
  copies_of-IsCopies (x ∷ part) copies sub e =
      >>=-elim (check_parents entries (parents x.0)) e λ _ checked e₁.
        >>=-elim (resolve entries 32 [] x.0 x.1) e₁ λ source resolved e₂.
          >>=-elim (copies_of entries part) e₂ λ rest copied e₃.
            let ih = copies_of-IsCopies part rest (λ y h. sub y (inr h)) copied in
            elim (Bool-cases (is_regular source.kind)) [
              | inl regular ↦
                  let same : (x.0, source) ∷ rest ≡ copies = ok-injective (rw regular at e₃) in
                  rw (sym same) (
                    keep-IsCopies x part rest source
                      (record {
                        source = regular;
                        own = x.1;
                        listed = sub x (inl refl);
                        chain = resolve-Leads entries 32 [] x.0 x.1 source resolved;
                        clear = λ path ancestor above found.
                            check_parents-clear entries (parents x.0) path ancestor checked above
                              found;
                      })
                      ih (λ is. resolve-regular entries [] x.0 x.1 source is resolved))
              | inr irregular ↦
                  let same : rest ≡ copies = ok-injective (rw irregular at e₃) in
                  rw (sym same)
                    (drop-IsCopies x part rest ih (own-irregular x source resolved irregular))
            ]
