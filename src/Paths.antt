-- ===== src/Paths.antt =====
-- Python's `PurePosixPath` and `posixpath` on character codes, for scripts/sources.py and
-- scripts/jdk.py, which read the names in archives with them.
pub mod Laws
use artbox.Base.{
  ℕ, ◌+◌, ◌==◌, ◌&&◌, ◌||◌, not, if◌then◌else◌, Bool, true, false, String, List, [], ◌∷◌, ◌++◌,
}
use artbox.Base.Text.{codes, ◌≟◌}

abbrev pub slash : ℕ
slash = 47

abbrev pub dot : List ℕ
dot = 46 ∷ []

abbrev pub dot_dot : List ℕ
dot_dot = 46 ∷ 46 ∷ []

abbrev pub is_nil {ℓ} : {A : Type ℓ} → List A → Bool
is_nil [] = true
is_nil (x ∷ xs) = false

-- `x in xs`
unfoldable pub contains : List ℕ → List (List ℕ) → Bool
contains x [] = false
contains x (y ∷ ys) = x ≟ y || contains x ys

-- `c in text`
unfoldable pub has_char : ℕ → List ℕ → Bool
has_char c [] = false
has_char c (d ∷ ds) = c == d || has_char c ds

abbrev pub is_absolute : List ℕ → Bool
is_absolute [] = false
is_absolute (c ∷ cs) = c == slash

abbrev pub grow_first : ℕ → List (List ℕ) → List (List ℕ)
grow_first c [] = (c ∷ []) ∷ []
grow_first c (w ∷ ws) = (c ∷ w) ∷ ws

-- `text.split("/")`
unfoldable pub split_slash : List ℕ → List (List ℕ)
split_slash [] = [] ∷ []
split_slash (c ∷ cs) =
    let rest = split_slash cs in if c == slash then [] ∷ rest else grow_first c rest

-- The components that a path keeps: neither empty nor a dot.
abbrev pub is_kept : List ℕ → Bool
is_kept word = not (is_nil word) && not (word ≟ dot)

unfoldable pub keep_parts : List (List ℕ) → List (List ℕ)
keep_parts [] = []
keep_parts (w ∷ ws) = let rest = keep_parts ws in if is_kept w then w ∷ rest else rest

-- `PurePosixPath(text).parts` of a text that is not absolute.
unfoldable pub parts : List ℕ → List (List ℕ)
parts text = keep_parts (split_slash text)

-- `"/".join(words)`
unfoldable pub join_slash : List (List ℕ) → List ℕ
join_slash [] = []
join_slash (w ∷ []) = w
join_slash (w ∷ v ∷ vs) = w ++ slash ∷ join_slash (v ∷ vs)

-- `PurePosixPath(*words).as_posix()`
unfoldable pub as_posix : List (List ℕ) → List ℕ
as_posix [] = dot
as_posix (w ∷ ws) = join_slash (w ∷ ws)

abbrev pub all_with : List ℕ → List (List (List ℕ)) → List (List (List ℕ))
all_with w [] = []
all_with w (p ∷ ps) = (w ∷ p) ∷ all_with w ps

-- The proper prefixes of a sequence.
unfoldable pub prefixes : List (List ℕ) → List (List (List ℕ))
prefixes [] = []
prefixes (w ∷ ws) = [] ∷ all_with w (prefixes ws)

abbrev all_posix : List (List (List ℕ)) → List (List ℕ)
all_posix [] = []
all_posix (p ∷ ps) = as_posix p ∷ all_posix ps

-- `[parent.as_posix() for parent in PurePosixPath(text).parents]` of a text that is not absolute,
-- the shortest first.
unfoldable pub parents : List ℕ → List (List ℕ)
parents text = all_posix (prefixes (parts text))

-- `posixpath.dirname(text)`
unfoldable pub to_last_slash : List ℕ → List ℕ
to_last_slash [] = []
to_last_slash (c ∷ cs) =
    let rest = to_last_slash cs in
    if is_nil rest then (if c == slash then c ∷ [] else []) else c ∷ rest

unfoldable pub strip_slashes : List ℕ → List ℕ
strip_slashes [] = []
strip_slashes (c ∷ cs) =
    let rest = strip_slashes cs in if c == slash && is_nil rest then [] else c ∷ rest

unfoldable pub dirname : List ℕ → List ℕ
dirname text =
    let head = to_last_slash text in
    let stripped = strip_slashes head in if is_nil stripped then head else stripped

-- `posixpath.join(base, text)`; a base that ends in a slash gets no other.
abbrev pub ends_in_slash : List ℕ → Bool
ends_in_slash [] = false
ends_in_slash (c ∷ []) = c == slash
ends_in_slash (c ∷ d ∷ ds) = ends_in_slash (d ∷ ds)

unfoldable pub join : List ℕ → List ℕ → List ℕ
join base text =
    if is_absolute text
    then text
    else if is_nil base || ends_in_slash base
    then base ++ text
    else base ++ slash ∷ text

-- The loop of `posixpath.normpath` over the components of a text that is not absolute, with
-- `new_comps` reversed.
abbrev pub goes_up : List (List ℕ) → Bool
goes_up [] = false
goes_up (w ∷ ws) = not (w ≟ dot_dot)

abbrev pub tail : List (List ℕ) → List (List ℕ)
tail [] = []
tail (w ∷ ws) = ws

unfoldable pub normal_parts : List (List ℕ) → List (List ℕ) → List (List ℕ)
normal_parts kept [] = kept
normal_parts kept (w ∷ ws) =
    let kept' : List (List ℕ) =
      if not (is_kept w)
      then kept
      else if w ≟ dot_dot && goes_up kept
      then tail kept
      else w ∷ kept in
    normal_parts kept' ws

unfoldable pub reverse_onto : List (List ℕ) → List (List ℕ) → List (List ℕ)
reverse_onto ws [] = ws
reverse_onto ws (v ∷ vs) = reverse_onto (v ∷ ws) vs

-- `posixpath.normpath(text)` of a text that is not absolute.
unfoldable pub normpath : List ℕ → List ℕ
normpath text = as_posix (reverse_onto [] (normal_parts [] (split_slash text)))
