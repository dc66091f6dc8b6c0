-- ===== src/Adapt/Replace.antt =====
-- `str.count` and `str.replace` with a count of one, as scripts/bionic_adapt.py and the other
-- adapters of sources use them, on character codes.
use artbox.Base.{
  ℕ, zero, suc, ◌-◌, ◌==◌, ◌&&◌, not, if◌then◌else◌, String, List, [], ◌∷◌, ◌++◌, length, drop,
  Result, ok, require, ◌>>◌,
}
use artbox.Paths.{is_nil}
use artbox.Sources.Archive.{starts_with}

-- The occurrences that do not overlap, from the left; the first number is how many characters the
-- last one still covers.
unfoldable pub count_from : ℕ → List ℕ → List ℕ → ℕ
count_from covered before [] = 0
count_from (suc covered) before (c ∷ cs) = count_from covered before cs
count_from zero before (c ∷ cs) =
    let found = starts_with (c ∷ cs) before in
    let rest = count_from (if found then length before - 1 else 0) before cs in
    if found then suc rest else rest

-- `text.count(before)`
abbrev pub count : List ℕ → List ℕ → ℕ
count before text = if is_nil before then suc (length text) else count_from 0 before text

-- `text.replace(before, after, 1)`
unfoldable pub replace_first : List ℕ → List ℕ → List ℕ → List ℕ
replace_first before after [] = if is_nil before then after else []
replace_first before after (c ∷ cs) =
    let rest = replace_first before after cs in
    if starts_with (c ∷ cs) before then after ++ drop (length before) (c ∷ cs) else c ∷ rest

-- `if not before or text.count(before) != 1: raise ...(message)`, then the replacement.
unfoldable pub replace_unique : String → List ℕ → List ℕ → List ℕ → Result (List ℕ)
replace_unique message before after text = do
  require (not (is_nil before) && count before text == 1) message
  ok (replace_first before after text)
