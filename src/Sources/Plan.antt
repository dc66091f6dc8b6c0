-- ===== src/Sources/Plan.antt =====
-- scripts/sources.py: `unpack`, what holds of the plan before anything is written.
use artbox.Base.{
  ℕ, suc, ◌*◌, ◌≤◌, ltb, ◌||◌, not, Bool, true, false, some, List, [], ◌∷◌, ◌++◌, length, ok, ◌≡◌,
  refl, sym, ap, ◌∙◌, arith, inl, inr, Bool-cases, >>=-elim, require-elim, ok-injective,
  length-append, ltb-false,
}
use artbox.Base.Int.{ℤ, pos, ltb_ℤ, ◌+ℤ◌}
use artbox.Base.Text.{◌≟◌, ≟_iff}
use artbox.Paths.{is_nil, contains, parts, join_slash, as_posix}
use artbox.Paths.Laws.{Every, Every-append, IsPart, parts-IsPart}
use artbox.Sources.Archive.{
  is_regular, is_directory, is_symlink, Member, Plan, no_plan, is_unsafe, is_excluded, root_of,
  first_is, add_entry, add_below, rest_of, add_member, add_members,
}

-- A path of one component or more that stays inside the tree.
pub record IsInside (name : List ℕ) : Type 0 where
  pub words : List (List ℕ)
  pub spelled : name ≡ join_slash words
  pub some_word : is_nil words ≡ false
  pub safe : Every IsPart words

module _ (fold : List ℕ → List ℕ) where
  abbrev pub keys : List (List ℕ × Member) → List (List ℕ)
  keys [] = []
  keys (e ∷ es) = fold e.0 ∷ keys es

abbrev pub Distinct : List (List ℕ) → Type 0
Distinct [] = Unit
Distinct (x ∷ xs) = (contains x xs ≡ false) × Distinct xs

-- The sum of the sizes, from the first entry on.
abbrev pub sizes : ℤ → List (List ℕ × Member) → ℤ
sizes total [] = total
sizes total (e ∷ es) = sizes (total +ℤ e.1.size) es

abbrev pub IsEntry : List ℕ × Member → Type 0
IsEntry e = IsInside e.0 × (ltb_ℤ e.1.size (pos 0) ≡ false)

pub record IsPlan (fold : List ℕ → List ℕ) (plan : Plan) : Type 0 where
  pub entry : Every IsEntry plan.entries
  pub named : plan.names ≡ keys fold plan.entries
  pub distinct : Distinct plan.names
  pub few : length plan.entries ≤ 100000
  pub summed : sizes (pos 0) plan.entries ≡ plan.total
  pub bounded : ltb_ℤ (pos (512 * 1024 * 1024)) plan.total ≡ false

pub keys-append :
    (fold : List ℕ → List ℕ) (xs : List (List ℕ × Member)) (y : List ℕ × Member)
    → keys fold xs ++ fold y.0 ∷ [] ≡ keys fold (xs ++ y ∷ [])
keys-append fold [] y = refl
keys-append fold (x ∷ xs) y = ap (λ ks. fold x.0 ∷ ks) (keys-append fold xs y)

length-keys :
    (fold : List ℕ → List ℕ) (xs : List (List ℕ × Member)) → length (keys fold xs) ≡ length xs
length-keys fold [] = refl
length-keys fold (x ∷ xs) = ap suc (length-keys fold xs)

sizes-append :
    (total : ℤ) (xs : List (List ℕ × Member)) (y : List ℕ × Member)
    → sizes total (xs ++ y ∷ []) ≡ sizes total xs +ℤ y.1.size
sizes-append total [] y = refl
sizes-append total (x ∷ xs) y = sizes-append (total +ℤ x.1.size) xs y

pub ≟-sym : (x y : List ℕ) → (x ≟ y) ≡ false → (y ≟ x) ≡ false
≟-sym x y h = elim (Bool-cases (y ≟ x)) [
  | inr differs ↦ differs
  | inl equal ↦ cc (h, (≟_iff x y).1 (sym ((≟_iff y x).0 equal)))
]

contains-append :
    (x y : List ℕ) (xs : List (List ℕ))
    → contains x xs ≡ false
    → (x ≟ y) ≡ false
    → contains x (xs ++ y ∷ []) ≡ false
unfolding contains
contains-append x y [] h p = rw p refl
contains-append x y (z ∷ zs) h p = ground (arith, contains-append x y zs)

pub Distinct-append :
    (xs : List (List ℕ)) (y : List ℕ)
    → Distinct xs
    → contains y xs ≡ false
    → Distinct (xs ++ y ∷ [])
unfolding contains
Distinct-append [] y d h = (refl, tt)
Distinct-append (x ∷ xs) y d h =
    (contains-append x y xs d.0 (≟-sym y x (ground arith)), Distinct-append xs y d.1 (ground arith))

rest_of-Every : (ws : List (List ℕ)) → Every IsPart ws → Every IsPart (rest_of ws)
rest_of-Every [] h = h
rest_of-Every (w ∷ ws) h = h.1

pub not-true : {b : Bool} → not b ≡ true → b ≡ false
not-true h = ground arith

pub not-false : {b : Bool} → not b ≡ false → b ≡ true
not-false h = ground arith

pub three : {a b c : Bool} → not (a || b || c) ≡ true → (a ≡ false) × (b ≡ false) × (c ≡ false)
three h = ground arith

pub inside :
    (name w : List ℕ) (ws : List (List ℕ))
    → is_unsafe name ≡ false
    → rest_of (parts name) ≡ w ∷ ws
    → IsInside (as_posix (w ∷ ws))
unfolding as_posix
inside name w ws safe e = record {
  words = w ∷ ws;
  spelled = refl;
  some_word = refl;
  safe =
      let all = parts-IsPart name (ground arith) (ground arith) (ground arith) in
      rw e at (rest_of-Every (parts name) all);
}

module _ (fold : List ℕ → List ℕ) where
  add_entry-IsPlan :
      (plan plan' : Plan) (prefix name : List ℕ) (member : Member)
      → IsInside name
      → IsPlan fold plan
      → add_entry fold plan prefix name member ≡ ok plan'
      → IsPlan fold plan'
  unfolding add_entry
  add_entry-IsPlan plan plan' prefix name member safe p e =
      require-elim (not (contains (fold name) plan.names)) "Duplicate source archive path" e
        λ fresh e₁.
          require-elim
            (is_regular member.kind || is_directory member.kind || is_symlink member.kind)
            "Unsupported source archive member type" e₁
            λ _ e₂.
              require-elim
                (not (
                  ltb_ℤ member.size (pos 0)
                  || ltb_ℤ (pos (512 * 1024 * 1024)) (plan.total +ℤ member.size)
                  || ltb 100000 (length (plan.names ++ fold name ∷ []))))
                "Source archive exceeds extraction bounds" e₂
                λ bounds e₃.
                  let (positive, total, few) = three bounds in
                  rw (sym (ok-injective e₃)) (record {
                    entry =
                        Every-append IsEntry plan.entries (name, member) p.entry (safe, positive);
                    named = rw p.named (keys-append fold plan.entries (name, member));
                    distinct = Distinct-append plan.names (fold name) p.distinct (not-true fresh);
                    few = omega (
                      arith,
                      ltb-false 100000 (length (plan.names ++ fold name ∷ [])) few,
                      length-append plan.names (fold name ∷ []),
                      length-append plan.entries ((name, member) ∷ []),
                      ap (λ (ks : List (List ℕ)). length ks) p.named,
                      length-keys fold plan.entries,
                    );
                    summed = sizes-append (pos 0) plan.entries (name, member) ∙ rw p.summed refl;
                    bounded = total;
                  })

  -- Members that are not kept leave everything but the prefix.
  moved-IsPlan :
      (plan : Plan) (prefix : List ℕ)
      → IsPlan fold plan
      → IsPlan fold (record plan { prefix = some prefix })
  moved-IsPlan plan prefix p = record {
    entry = p.entry;
    named = p.named;
    distinct = p.distinct;
    few = p.few;
    summed = p.summed;
    bounded = p.bounded;
  }

  add_below-IsPlan :
      (exclude : List (List ℕ)) (plan plan' : Plan) (prefix : List ℕ) (words : List (List ℕ))
      (member : Member)
      → is_unsafe member.name ≡ false
      → rest_of (parts member.name) ≡ words
      → IsPlan fold plan
      → add_below fold exclude plan prefix words member ≡ ok plan'
      → IsPlan fold plan'
  unfolding add_below
  add_below-IsPlan exclude plan plan' prefix [] member safe words p e =
      require-elim (is_directory member.kind) "Source archive root is not a directory" e
        λ _ e₁. rw (sym (ok-injective e₁)) (moved-IsPlan plan prefix p)
  add_below-IsPlan exclude plan plan' prefix (w ∷ ws) member safe words p e =
      elim (Bool-cases (is_excluded exclude (as_posix (w ∷ ws)))) [
        | inl excluded ↦
            let same : (record plan { prefix = some prefix }) ≡ plan' =
              ok-injective (rw excluded at e) in
            rw (sym same) (moved-IsPlan plan prefix p)
        | inr kept ↦
            add_entry-IsPlan plan plan' prefix (as_posix (w ∷ ws)) member
              (inside member.name w ws safe words) p (rw kept at e)
      ]

  add_members-IsPlan :
      (exclude : List (List ℕ)) (members : List Member) (plan plan' : Plan)
      → IsPlan fold plan
      → add_members fold exclude plan members ≡ ok plan'
      → IsPlan fold plan'
  unfolding add_members add_member
  add_members-IsPlan exclude [] plan plan' p e = rw (sym (ok-injective e)) p
  add_members-IsPlan exclude (member ∷ members) plan plan' p e =
      let prefix = root_of plan.prefix (parts member.name) in
      >>=-elim (add_member fold exclude plan member) e λ next added e₁.
        require-elim (not (is_unsafe member.name)) "Unsafe source archive path" added λ safe e₂.
          require-elim (first_is prefix (parts member.name)) "Source archive has multiple roots" e₂
            λ _ e₃.
              add_members-IsPlan exclude members next plan'
                (add_below-IsPlan exclude plan next prefix (rest_of (parts member.name)) member
                  (not-true safe) refl p e₃)
                e₁

  pub planned-IsPlan :
      (exclude : List (List ℕ)) (members : List Member) (plan : Plan)
      → add_members fold exclude no_plan members ≡ ok plan
      → IsPlan fold plan
  planned-IsPlan exclude members plan e =
      add_members-IsPlan exclude members no_plan plan
        (record {
          entry = tt;
          named = refl;
          distinct = tt;
          few = omega arith;
          summed = refl;
          bounded = refl;
        })
        e
