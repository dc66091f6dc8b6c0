-- ===== src/PackElf/Pipeline.antt =====
-- tools/pack_elf.py: what `main` does between reading the file and writing the outputs.
mod Tests
use artbox.Base.{
  ℕ, ◌+◌, ◌*◌, ◌/◌, ◌≤◌, ◌<◌, leb, Bool, List, length, Result, ok, require, ◌>>=◌, ◌>>◌, ◌≡◌, refl,
  arith, le→leb,
}
use artbox.PackElf.Numbers.{page, limit, align, align_lem}
use artbox.PackElf.Inspect.{inspect_text}
use artbox.PackElf.Inspect.Sites.{SitesFrom}
use artbox.PackElf.Parse.{parse_elf}
use artbox.PackElf.Parse.Bounds.{parse_elf-sizes}
use artbox.PackElf.Transform.{transformed}
use artbox.PackElf.Transform.Laws.{
  IsTransformed, transformed-IsTransformed, transformed_total, sites_bound,
}
use artbox.PackElf.Macho.{text_size_of, macho}
use artbox.PackElf.Macho.Image.{HasAt, IsImage, macho-IsImage}
use artbox.PackElf.Macho.Commands.{IsLoadable, IsMapped, macho_total}

-- `payload`, `sites` and `converted`.
unfoldable pub convert : List ℕ → Bool → Result (List ℕ × List ℕ × List ℕ)
convert bytes ios = do
  require (leb (length bytes) limit) "input exceeds the M1 file-size limit"
  (original, text_size) ← parse_elf bytes
  (payload, sites) ← transformed original text_size
  converted ← macho payload ios
  ok (payload, sites, converted)

pub record IsConverted (image : List ℕ) (text_size : ℕ) (sites payload converted : List ℕ)
    : Type 0 where
  pub patched : IsTransformed image text_size payload sites
  pub loadable : IsLoadable converted
  pub mapped : IsMapped (text_size_of payload) (length payload) converted
  pub held : HasAt converted page payload

-- A file of at most the size limit that `parse_elf` accepts and whose text `inspect_text`
-- accepts is converted for either platform: the payload is the image with a veneer for each
-- site, and the dylib around it has the commands of a loadable dylib, maps its text and link
-- data as they say, and holds the payload one page behind its start.
pub convert_total :
    (bytes : List ℕ) (ios : Bool) (image : List ℕ) (text_size : ℕ) (sites : List ℕ)
    → length bytes ≤ limit
    → parse_elf bytes ≡ ok (image, text_size)
    → inspect_text image text_size ≡ ok sites
    → (payload : List ℕ) × (converted : List ℕ) × (convert bytes ios
        ≡ ok (payload, sites, converted))
      × IsConverted image text_size sites payload converted
unfolding convert
convert_total bytes ios image text_size sites small parsed inspected =
    let (inside, half, _, _) = parse_elf-sizes bytes parsed in
    let (payload, moved) = transformed_total image text_size sites inspected half inside in
    let t = transformed-IsTransformed image text_size moved in
    let few = sites_bound image text_size 0 sites t.in_text (omega arith) in
    let wide = align_lem 2 (length image) in
    let (converted, made, loadable, mapped) =
      macho_total payload ios (omega (arith, t.size, few, wide)) in
    let i = macho-IsImage payload ios converted made in
    (
      payload,
      converted,
      rw (le→leb (length bytes) limit small, parsed, moved, made) refl,
      record { patched = t; loadable = loadable; mapped = mapped; held = i.held },
    )
