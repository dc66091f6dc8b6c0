-- ===== src/Shell.antt =====
-- Functions that run commands, as the drivers under scripts/ do: explicit state, exceptions that
-- leave what was changed before them, and `try` with `finally`. What a command answers is a
-- parameter of the drivers.
pub mod Returns
use artbox.Base.{
  ℕ, ◌+◌, leb, ◌==◌, ◌&&◌, ◌||◌, if◌then◌else◌, Bool, true, false, String, List, [], ◌∷◌, ◌++◌,
  Result, ok, err,
}
use artbox.Base.Int.{ℤ, pos, negsuc}
use artbox.Paths.{is_nil}

abbrev pub Act : Type 0 → Type 0 → Type 0
Act S A = S → S × Result A

abbrev pub go_on : {S A B : Type 0} → S × Result A → (A → Act S B) → S × Result B
go_on (after, ok a) next = next a after
go_on (after, err e) next = (after, err e)

infixl 5 ◌>>=◌ ◌>>◌
unfoldable pub ◌>>=◌ : {S A B : Type 0} → Act S A → (A → Act S B) → Act S B
◌>>=◌ m next s = go_on (m s) next

abbrev pub ◌>>◌ : {S B : Type 0} → Act S (Unit {0}) → Act S B → Act S B
m >> next = m >>= λ _. next

abbrev pub give : {S A : Type 0} → Result A → Act S A
give r s = (s, r)

-- `if not condition: raise ...(message)`
abbrev pub demand : {S : Type 0} → Bool → String → Act S (Unit {0})
demand condition message s = (s, if condition then ok tt else err message)

abbrev pub change : {S : Type 0} → (S → S) → Act S (Unit {0})
change f s = (f s, ok tt)

abbrev pub settle : {A B C : Type 0} → (A → B → C) → Result A → Result B → Result C
settle both r (err e) = err e
settle both (err e) (ok b) = err e
settle both (ok a) (ok b) = ok (both a b)

-- `try: body` with `finally: cleanup`, whose exception comes before that of the body.
abbrev pub try_finally : {S A B C : Type 0} → (A → B → C) → Act S A → Act S B → Act S C
try_finally both body cleanup s =
    let tried = body s in
    let cleaned = cleanup tried.0 in (cleaned.0, settle both tried.1 cleaned.1)

-- A finished process: `returncode`, `stdout` and `stderr`.
pub record Ran : Type 0 where
  pub code : ℤ
  pub out : List ℕ
  pub errors : List ℕ

abbrev pub Command : Type 0
Command = List (List ℕ)

abbrev pub is_zero : ℤ → Bool
is_zero (pos n) = n == 0
is_zero (negsuc n) = false

-- A command that was answered with exit 0.
abbrev pub succeeded : Result Ran → Bool
succeeded (ok ran) = is_zero ran.code
succeeded (err e) = false

-- `str.isspace` of ASCII.
abbrev pub is_space : ℕ → Bool
is_space c = c == 32 || (leb 9 c && leb c 13) || (leb 28 c && leb c 31)

unfoldable pub lstrip : List ℕ → List ℕ
lstrip [] = []
lstrip (c ∷ cs) = let rest = lstrip cs in if is_space c then rest else c ∷ cs

unfoldable pub rstrip : List ℕ → List ℕ
rstrip [] = []
rstrip (c ∷ cs) = let rest = rstrip cs in if is_space c && is_nil rest then [] else c ∷ rest

-- `text.strip()`
abbrev pub strip : List ℕ → List ℕ
strip text = lstrip (rstrip text)

-- `text.split()[0]` of a text that does not begin with a space.
unfoldable pub first_word : List ℕ → List ℕ
first_word [] = []
first_word (c ∷ cs) = let rest = first_word cs in if is_space c then [] else c ∷ rest

-- `separator.join(texts)`
unfoldable pub join_texts : List ℕ → List (List ℕ) → List ℕ
join_texts separator [] = []
join_texts separator (t ∷ []) = t
join_texts separator (t ∷ u ∷ us) = t ++ (separator ++ join_texts separator (u ∷ us))

-- What is logged of a command that has finished.
unfoldable pub log_entry : Command → Ran → List ℕ
log_entry words ran = join_texts (32 ∷ []) words ++ (10 ∷ (ran.out ++ ran.errors))

-- `text.startswith(prefix)`
unfoldable pub begins_with : List ℕ → List ℕ → Bool
begins_with [] ys = true
begins_with (x ∷ xs) [] = false
begins_with (x ∷ xs) (y ∷ ys) = x == y && begins_with xs ys

-- `part in text`
unfoldable pub has_text : List ℕ → List ℕ → Bool
has_text part [] = is_nil part
has_text part (c ∷ cs) = begins_with part (c ∷ cs) || has_text part cs
