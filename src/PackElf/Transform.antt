-- ===== src/PackElf/Transform.antt =====
-- tools/pack_elf.py: `transformed`, which moves every SVC of the text into a veneer behind it.
pub mod Patched
pub mod Laws
use artbox.Base.{ℕ, zero, suc, ◌+◌, ◌-◌, List, [], ◌∷◌, ◌++◌, length, replicate, Result, ok, ◌>>=◌}
use artbox.Base.Bytes.{pack_into}
use artbox.PackElf.Numbers.{align}
use artbox.PackElf.Branch.{branch}
use artbox.PackElf.Inspect.{inspect_text}
use artbox.PackElf.Veneer.{veneer}

-- `for site in sites`, on the payload so far.
unfoldable pub patch : List ℕ → List ℕ → Result (List ℕ)
patch payload [] = ok payload
patch payload (site ∷ sites) = do
  let address = length payload
  code ← veneer address (site + 4)
  word ← branch site address
  patched ← pack_into 4 (payload ++ code) site word
  patch patched sites

unfoldable pub padded : List ℕ → List ℕ
padded image = image ++ replicate (align (length image) 4 - length image) 0

unfoldable pub transformed : List ℕ → ℕ → Result (List ℕ × List ℕ)
unfolding padded
transformed image text_size = do
  sites ← inspect_text image text_size
  payload ← patch (padded image) sites
  ok (payload, sites)
