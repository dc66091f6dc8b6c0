-- ===== src/PackElf/Transform/Laws.antt =====
-- tools/pack_elf.py: what `transformed` returns, and that nothing in its loop can fail on an image
-- within the size limit.
use artbox.Base.{
  ℕ, ◌+◌, ◌-◌, ◌*◌, ◌/◌, ◌%◌, ◌≤◌, ◌<◌, ◌^◌, ◌≡◌, refl, ap, ◌∙◌, List, [], ◌∷◌, ◌++◌, length, ok,
  arith, >>=-eq-ok, ok-injective, overwrite, length-append, length-replicate, replicate,
  get_or-append_left, lt→ltb, le→leb, length-overwrite,
}
use artbox.Base.Bytes.{byte_at, to_le, pack_into, fields_le}
use artbox.PackElf.Numbers.{align, align_lem, limit}
use artbox.PackElf.Branch.{branch, branch-eq-ok_iff, branch-decodes}
use artbox.PackElf.Veneer.{veneer-eq-ok, body_words, length-veneer}
use artbox.PackElf.Inspect.{inspect_text}
use artbox.PackElf.Inspect.Sites.{
  SitesFrom, svc_offsets, inspect_text-sites, inspect_text-SitesFrom,
}
use artbox.PackElf.Transform.{patch, padded, transformed}
use artbox.PackElf.Transform.Patched.{IsOutside, HasVeneers, patch-Patches}

length-padded : (image : List ℕ) → length (padded image) ≡ align (length image) 4
unfolding padded
length-padded image =
    length-append image (replicate (align (length image) 4 - length image) 0)
    ∙ omega (
      arith,
      length-replicate {A = ℕ} (align (length image) 4 - length image) 0,
      align_lem 2 (length image),
    )

-- What `transformed` promises of its result.
pub record IsTransformed (image : List ℕ) (text_size : ℕ) (payload sites : List ℕ) : Type 0 where
  pub all_sites : sites ≡ svc_offsets image ((text_size + 3) / 4) 0
  pub in_text : SitesFrom image text_size 0 sites
  pub size : length payload ≡ align (length image) 4 + 128 * length sites
  pub keeps : (i : ℕ) → i < length image → IsOutside i sites → byte_at payload i ≡ byte_at image i
  pub links : HasVeneers payload (align (length image) 4) sites

-- Whenever `transformed` succeeds, the sites are all offsets of SVC #0 in the text and in
-- order, the payload is the image padded to a multiple of four with 128 bytes for each site
-- behind it, every byte of the image outside of the sites is unchanged, and each site is a B to
-- its own veneer, which holds the 31 fixed words and a B back to the instruction behind the
-- site.
pub transformed-IsTransformed :
    (image : List ℕ) (text_size : ℕ) {payload sites : List ℕ}
    → transformed image text_size ≡ ok (payload, sites)
    → IsTransformed image text_size payload sites
unfolding transformed
transformed-IsTransformed image text_size {payload} {sites} h =
    let (found, seen, h₁) = >>=-eq-ok (inspect_text image text_size) _ h in
    let (out, patched, h₂) = >>=-eq-ok (patch (padded image) found) _ h₁ in
    let both = ok-injective h₂ in
    let same_sites : found ≡ sites = ap (λ (r : List ℕ × List ℕ). r.1) both in
    let same_payload : out ≡ payload = ap (λ (r : List ℕ × List ℕ). r.0) both in
    let wide = align_lem 2 (length image) in
    let size = length-padded image in
    let inside = inspect_text-SitesFrom image text_size seen in
    let loop = patch-Patches image text_size 0 (padded image) found inside (omega arith) patched in
    rw (← same_sites, ← same_payload)
      (record {
        all_sites = inspect_text-sites image text_size seen;
        in_text = inside;
        size = loop.grows ∙ ap (λ (n : ℕ). n + 128 * length found) size;
        keeps = λ i p q.
            loop.keeps i (omega arith) q
            ∙ unfold padded in
              get_or-append_left image (replicate (align (length image) 4 - length image) 0) i 0 p;
        links = rw (← size) loop.links;
      })

-- One round cannot fail where all of the payload is in the range of a branch.
module _ (payload : List ℕ) (site : ℕ) (aligned : length payload % 4 ≡ 0)
    (site_aligned : site % 4 ≡ 0) (room : site + 4 ≤ length payload)
    (near : length payload + 128 ≤ 2 ^ 27) where
  enters : (w : ℕ) × (branch site (length payload) ≡ ok w)
  enters = (branch-eq-ok_iff site (length payload)).1 (ground arith, omega arith, omega arith)

  returns : (w : ℕ) × (branch (length payload + 124) (site + 4) ≡ ok w)
  returns =
      (branch-eq-ok_iff (length payload + 124) (site + 4)).1
        (ground arith, omega arith, omega arith)

pack_into_fits :
    (n : ℕ) (bytes : List ℕ) (i v : ℕ)
    → i + n ≤ length bytes
    → v < 256 ^ n
    → pack_into n bytes i v ≡ ok (overwrite bytes i (to_le n v))
unfolding pack_into
pack_into_fits n bytes i v room fits = rw (le→leb _ _ room, lt→ltb _ _ fits) refl

patch_total :
    (image : List ℕ) (text_size low : ℕ) (payload sites : List ℕ)
    → SitesFrom image text_size low sites
    → length image ≤ length payload
    → length payload % 4 ≡ 0
    → length payload + 128 * length sites ≤ 2 ^ 27
    → (out : List ℕ) × (patch payload sites ≡ ok out)
unfolding patch
patch_total image text_size low payload [] inside room aligned near = (payload, refl)
patch_total image text_size low payload (s ∷ ss) inside room aligned near =
    let (back, back_made) = returns payload s aligned inside.2 (omega arith) (omega arith) in
    let code = fields_le 4 (body_words ++ back ∷ []) in
    let made = veneer-eq-ok (length payload) (s + 4) back back_made in
    let (word, found) = enters payload s aligned inside.2 (omega arith) (omega arith) in
    let longer : length (payload ++ code) ≡ length payload + 128 =
      length-append payload code
      ∙ ap (λ (n : ℕ). length payload + n) (length-veneer (length payload) (s + 4) made) in
    let patched = overwrite (payload ++ code) s (to_le 4 word) in
    let size : length patched ≡ length payload + 128 =
      length-overwrite (payload ++ code) s (to_le 4 word) ∙ longer in
    let stored =
      pack_into_fits 4 (payload ++ code) s word (omega arith)
        ((branch-decodes s (length payload) found).1) in
    let (out, rest) =
      patch_total image text_size (s + 4) patched ss inside.5 (omega arith) (omega arith)
        (omega arith) in
    (out, rw (made, found, stored) rest)

-- Sites are four bytes apart.
pub sites_bound :
    (image : List ℕ) (text_size low : ℕ) (sites : List ℕ)
    → SitesFrom image text_size low sites
    → low ≤ text_size + 3
    → low + 4 * length sites ≤ text_size + 3
sites_bound image text_size low [] h p = omega arith
sites_bound image text_size low (s ∷ ss) h p =
    omega (arith, sites_bound image text_size (s + 4) ss h.5 (omega arith))

-- For an image of at most half of the size limit and a text that lies in it and was accepted by
-- `inspect_text`, `transformed` succeeds: every branch is in range and every field fits its
-- width.
pub transformed_total :
    (image : List ℕ) (text_size : ℕ) (sites : List ℕ)
    → inspect_text image text_size ≡ ok sites
    → length image ≤ limit / 2
    → text_size ≤ length image
    → (payload : List ℕ) × (transformed image text_size ≡ ok (payload, sites))
unfolding transformed
transformed_total image text_size sites seen small fits =
    let inside = inspect_text-SitesFrom image text_size seen in
    let few = sites_bound image text_size 0 sites inside (omega arith) in
    let wide = align_lem 2 (length image) in
    let size = length-padded image in
    let (payload, loop) =
      patch_total image text_size 0 (padded image) sites inside (omega arith) (omega arith)
        (omega arith) in
    (payload, rw (seen, loop) refl)
