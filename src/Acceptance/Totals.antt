-- ===== src/Acceptance/Totals.antt =====
-- scripts/m2_acceptance.py: no group is dropped, and success is what it says.
use artbox.Base.{
  ◌+◌, ◌*◌, ◌≤◌, ◌<◌, leb, ◌==◌, ◌||◌, not, true, false, Option, none, some, List, [], ◌∷◌, ok, ◌≡◌,
  ◌⊎◌, Option-cases, refl, sym, ap, ◌∙◌, ◌↔◌, inl, inr, arith, Bool-cases, >>=-elim, ok-injective,
  and-eq-true, leb→le, le→leb, ==_iff,
}
use artbox.Base.Int.{pos, negsuc}
use artbox.Paths.Laws.{Every}
use artbox.Acceptance.Score.{
  Json, Case, Contract, Table, value_of, count_of, is_true, sum_counts, check_contract, expected_of,
  is_missing, agrees, all_agree, Group, group_of, groups_of, sum_of, mandatory_passed, Score,
  evaluate,
}

-- Every expected value was observed.
abbrev pub AllMet : Table → Table → Type 0
AllMet observed expected = Every (λ e. value_of e.0 observed ≡ some e.1) expected

-- Every expected key was observed, with some value.
abbrev pub AllPresent : Table → Table → Type 0
AllPresent observed expected =
    Every (λ e. (value : Json) × (value_of e.0 observed ≡ some value)) expected

-- Some expected key was not observed.
abbrev pub Lacks : Table → Table → Type 0
Lacks observed [] = ⊥
Lacks observed (e ∷ es) = (value_of e.0 observed ≡ none) ⊎ Lacks observed es

-- The three outcomes of a group: all of its count passed, failed or was not executed.
pub record IsGroup (observed : Table) (c : Case) (g : Group) : Type 0 where
  pub same : g.entry ≡ c
  pub expected : Table
  pub known : expected_of c ≡ ok expected
  pub split : g.passed + g.failed + g.unexecuted ≡ count_of c.count
  pub met : 0 < g.passed → AllMet observed expected
  pub unmet :
      0 < g.failed → is_missing observed expected ≡ false × (all_agree observed expected ≡ false)
  pub missing : 0 < g.unexecuted → is_missing observed expected ≡ true
  pub present : 0 < g.failed → AllPresent observed expected
  pub lacking : 0 < g.unexecuted → Lacks observed expected

abbrev pub AreGroups : Table → List Case → List Group → Type 0
AreGroups observed [] [] = Unit {0}
AreGroups observed [] (g ∷ gs) = ⊥
AreGroups observed (c ∷ cs) [] = ⊥
AreGroups observed (c ∷ cs) (g ∷ gs) = IsGroup observed c g × AreGroups observed cs gs

-- A mandatory group passed in full.
abbrev pub IsPassed : Group → Type 0
IsPassed g = is_true g.entry.mandatory ≡ true → g.passed ≡ count_of g.entry.count

pub record IsScore (contract : Contract) (observed : Table) (score : Score) : Type 0 where
  pub total : (score.total ≡ 328) × (sum_counts contract.cases ≡ 328)
  pub groups : AreGroups observed contract.cases score.groups
  pub split : score.passed + score.failed + score.unexecuted ≡ score.total
  pub success : (score.success ≡ true) ↔ (
      (contract.minimum_percent * score.total ≤ 100 * score.passed) × Every IsPassed score.groups)

agrees-equal :
    (found : Option Json) (wanted : Json) → agrees found wanted ≡ true → found ≡ some wanted
agrees-equal none wanted h = cc
agrees-equal (some (Json.integer (pos m))) (Json.integer (pos n)) h =
    ap (λ k. some (Json.integer (pos k))) ((==_iff m n).0 h)
agrees-equal (some (Json.integer (negsuc m))) (Json.integer (negsuc n)) h =
    ap (λ k. some (Json.integer (negsuc k))) ((==_iff m n).0 h)
agrees-equal (some (Json.integer (pos m))) (Json.integer (negsuc n)) h = cc
agrees-equal (some (Json.integer (negsuc m))) (Json.integer (pos n)) h = cc
agrees-equal (some (Json.integer m)) (Json.boolean b) h = cc
agrees-equal (some (Json.integer m)) Json.another h = cc
agrees-equal (some (Json.boolean b)) wanted h = cc
agrees-equal (some Json.another) wanted h = cc

all_agree-AllMet :
    (observed expected : Table) → all_agree observed expected ≡ true → AllMet observed expected
unfolding all_agree
all_agree-AllMet observed [] h = tt
all_agree-AllMet observed (e ∷ es) h =
    let (here, rest) = and-eq-true (agrees (value_of e.0 observed) e.1) (all_agree observed es) h in
    (agrees-equal (value_of e.0 observed) e.1 here, all_agree-AllMet observed es rest)

is_missing-AllPresent :
    (observed expected : Table)
    → is_missing observed expected ≡ false
    → AllPresent observed expected
unfolding is_missing
is_missing-AllPresent observed [] h = tt
is_missing-AllPresent observed (e ∷ es) h = elim (Option-cases (value_of e.0 observed)) [
  | inl absent ↦ cc (rw absent at h)
  | inr found ↦ (found, is_missing-AllPresent observed es (rw found.1 at h))
]

is_missing-Lacks :
    (observed expected : Table) → is_missing observed expected ≡ true → Lacks observed expected
unfolding is_missing
is_missing-Lacks observed [] h = cc
is_missing-Lacks observed (e ∷ es) h = elim (Option-cases (value_of e.0 observed)) [
  | inl absent ↦ inl absent
  | inr found ↦ inr (is_missing-Lacks observed es (rw found.1 at h))
]

module _ (observed : Table) where
  group_of-IsGroup :
      (c : Case) (expected : Table)
      → expected_of c ≡ ok expected
      → IsGroup observed c (group_of observed c expected)
  unfolding group_of
  group_of-IsGroup c expected known = record {
    same = refl;
    expected = expected;
    known = known;
    split = ground arith;
    met = λ h. all_agree-AllMet observed expected (ground arith);
    unmet = λ h. (ground arith, ground arith);
    missing = λ h. ground arith;
    present = λ h. is_missing-AllPresent observed expected (ground arith);
    lacking = λ h. is_missing-Lacks observed expected (ground arith);
  }

  groups_of-AreGroups :
      (cases : List Case) (groups : List Group)
      → groups_of observed cases ≡ ok groups
      → AreGroups observed cases groups
  unfolding groups_of
  groups_of-AreGroups [] groups e = rw (sym (ok-injective e)) tt
  groups_of-AreGroups (c ∷ cs) groups e = >>=-elim (expected_of c) e λ expected known e₁.
      >>=-elim (groups_of observed cs) e₁ λ rest scored e₂.
        rw (sym (ok-injective e₂))
          (group_of-IsGroup c expected known, groups_of-AreGroups cs rest scored)

  split-sums :
      (cases : List Case) (groups : List Group)
      → AreGroups observed cases groups
      → sum_of (λ g. g.passed) groups
          + sum_of (λ g. g.failed) groups
          + sum_of (λ g. g.unexecuted) groups
        ≡ sum_counts cases
  unfolding sum_of sum_counts
  split-sums [] [] h = refl
  split-sums [] (g ∷ gs) h = absurd h
  split-sums (c ∷ cs) [] h = absurd h
  split-sums (c ∷ cs) (g ∷ gs) h = omega (arith, h.0.split, split-sums cs gs h.1)

mandatory-Every : (groups : List Group) → (mandatory_passed groups ≡ true) ↔ Every IsPassed groups
unfolding mandatory_passed
mandatory-Every [] = ((λ h. tt), (λ h. refl))
mandatory-Every (g ∷ gs) = (
  (λ h.
      let (here, rest) =
        and-eq-true (not (is_true g.entry.mandatory) || g.passed == count_of g.entry.count)
          (mandatory_passed gs) h in
      ((λ m. ground arith), (mandatory-Every gs).0 rest)),
  (λ h. elim (Bool-cases (is_true g.entry.mandatory)) [
    | inl must ↦
        rw (must, (==_iff g.passed (count_of g.entry.count)).1 (h.0 must))
          ((mandatory-Every gs).1 h.1)
    | inr may ↦ rw may ((mandatory-Every gs).1 h.1)
  ]),
)

contract_facts :
    (contract : Contract) {u : Unit {0}}
    → check_contract contract ≡ ok u
    → (contract.total ≡ 328) × (sum_counts contract.cases ≡ contract.total)
unfolding check_contract
contract_facts contract e = ground arith

-- When `evaluate` returns, the total is the fixed 328 and the sum of the counts, each case of
-- the contract has one group in order whose count is passed, failed or not executed, a group
-- that passed had every expected value observed, one that failed had every expected key
-- observed but not all values agreed, and of one not executed some expected key was not
-- observed; the three sums add up to the total, and success is that the minimum percentage of
-- the total passed and every mandatory group passed in full.
pub evaluate-IsScore :
    (contract : Contract) (observed : Table) (score : Score)
    → evaluate contract observed ≡ ok score
    → IsScore contract observed score
unfolding evaluate
evaluate-IsScore contract observed score e = >>=-elim (check_contract contract) e λ _ checked e₁.
    >>=-elim (groups_of observed contract.cases) e₁ λ groups scored e₂.
      let (total, sum) = contract_facts contract checked in
      let are = groups_of-AreGroups observed contract.cases groups scored in
      rw (sym (ok-injective e₂)) (record {
        total = (total, sum ∙ total);
        groups = are;
        split = split-sums observed contract.cases groups are ∙ sum;
        success = (
          (λ h.
              let (enough, all) =
                and-eq-true
                  (leb (contract.minimum_percent * contract.total)
                    (100 * sum_of (λ g. g.passed) groups))
                  (mandatory_passed groups) h in
              (
                leb→le (contract.minimum_percent * contract.total)
                    (100 * sum_of (λ g. g.passed) groups) enough,
                (mandatory-Every groups).0 all,
              )),
          (λ h.
              rw
                (
                  le→leb (contract.minimum_percent * contract.total)
                      (100 * sum_of (λ g. g.passed) groups) h.0,
                  (mandatory-Every groups).1 h.1,
                )
                refl),
        );
      })
