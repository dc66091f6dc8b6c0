-- ===== src/PackElf/Transform/Patched.antt =====
-- tools/pack_elf.py: the loop of `transformed` over the sites, by induction on them.
use artbox.Base.{
  ℕ, ◌+◌, ◌*◌, ◌≤◌, ◌<◌, ◌^◌, bit_and, ◌≡◌, sym, ap, ◌∙◌, ◌⊎◌, inl, inr, List, [], ◌∷◌, ◌++◌,
  length, ok, arith, >>=-eq-ok, ok-injective, overwrite, length-append, length-overwrite,
  get_or-append_left, get_or-overwrite_outside,
}
use artbox.Base.Int.{pos}
use artbox.Base.Bytes.{
  byte_at, le_at, le_at_ext, to_le, length-to_le, pack_into, le_at-overwrite_self,
  le_at-overwrite_outside, le_at-append_right,
}
use artbox.PackElf.Branch.{branch, branch_target, branch-decodes}
use artbox.PackElf.Veneer.{veneer, body_words, length-veneer, word-veneer}
use artbox.PackElf.Inspect.Sites.{SitesFrom}
use artbox.PackElf.Transform.{patch}

-- A site leads to the veneer at an address, and the veneer ends in a branch behind the site.
pub record IsPatched (out : List ℕ) (address site : ℕ) : Type 0 where
  pub leaves : bit_and (le_at 4 out site) 0xfc000000 ≡ 0x14000000
  pub enters : branch_target site (le_at 4 out site) ≡ pos address
  pub body : (k : ℕ) → k < 31 → le_at 4 out (address + 4 * k) ≡ byte_at body_words k
  pub ends : bit_and (le_at 4 out (address + 124)) 0xfc000000 ≡ 0x14000000
  pub resumes : branch_target (address + 124) (le_at 4 out (address + 124)) ≡ pos (site + 4)

-- One veneer behind the other, in the order of the sites.
abbrev pub HasVeneers : List ℕ → ℕ → List ℕ → Type 0
HasVeneers out address [] = Unit {0}
HasVeneers out address (s ∷ ss) = IsPatched out address s × HasVeneers out (address + 128) ss

abbrev pub IsOutside : ℕ → List ℕ → Type 0
IsOutside i [] = Unit {0}
IsOutside i (s ∷ ss) = ((i < s) ⊎ (s + 4 ≤ i)) × IsOutside i ss

pub IsOutside-below :
    (image : List ℕ) (text_size low i : ℕ) (sites : List ℕ)
    → SitesFrom image text_size low sites
    → i < low
    → IsOutside i sites
IsOutside-below image text_size low i [] h p = tt
IsOutside-below image text_size low i (s ∷ ss) h p =
    (inl (omega arith), IsOutside-below image text_size (s + 4) i ss h.5 (omega arith))

pub IsOutside-above :
    (image : List ℕ) (text_size low i : ℕ) (sites : List ℕ)
    → SitesFrom image text_size low sites
    → length image ≤ i
    → IsOutside i sites
IsOutside-above image text_size low i [] h p = tt
IsOutside-above image text_size low i (s ∷ ss) h p =
    (inr (omega arith), IsOutside-above image text_size (s + 4) i ss h.5 p)

-- One round of the loop.
pub record Round (payload : List ℕ) (site : ℕ) (patched : List ℕ) : Type 0 where
  pub grows : length patched ≡ length payload + 128
  pub keeps :
      (i : ℕ)
      → i < length payload
      → (i < site) ⊎ (site + 4 ≤ i)
      → byte_at patched i ≡ byte_at payload i
  pub links : IsPatched patched (length payload) site

pack_into-eq-ok :
    (n : ℕ) (bytes : List ℕ) (i v : ℕ) {out : List ℕ}
    → pack_into n bytes i v ≡ ok out
    → (i + n ≤ length bytes) × (v < 256 ^ n) × (out ≡ overwrite bytes i (to_le n v))
unfolding pack_into
pack_into-eq-ok n bytes i v h = ground arith

module _ (payload : List ℕ) (site : ℕ) (code : List ℕ) (word : ℕ) (room : site + 4 ≤ length payload)
    (made : veneer (length payload) (site + 4) ≡ ok code)
    (found : branch site (length payload) ≡ ok word) where
  abbrev result : List ℕ
  result = overwrite (payload ++ code) site (to_le 4 word)

  word_at_site : le_at 4 result site ≡ word
  word_at_site =
      le_at-overwrite_self 4 word (payload ++ code) site (omega (arith, length-append payload code))
        ((branch-decodes site (length payload) found).1)

  word_in_veneer : (i : ℕ) → le_at 4 result (length payload + i) ≡ le_at 4 code i
  word_in_veneer i =
      le_at-overwrite_outside 4 (payload ++ code) site (to_le 4 word) (length payload + i)
        (inr (omega (arith, length-to_le 4 word)))
      ∙ le_at-append_right 4 payload code i

  Round-result : Round payload site result
  Round-result =
      let (opcode, _, lands) = branch-decodes site (length payload) found in
      let (words, back_opcode, back) = word-veneer (length payload) (site + 4) made in
      record {
        grows =
            length-overwrite (payload ++ code) site (to_le 4 word)
            ∙ length-append payload code
            ∙ ap (λ (n : ℕ). length payload + n) (length-veneer (length payload) (site + 4) made);
        keeps = λ i p apart.
            get_or-overwrite_outside (payload ++ code) site (to_le 4 word) i 0 (elim apart [
              | inl before ↦ inl before
              | inr after ↦ inr (omega (arith, length-to_le 4 word))
            ])
            ∙ get_or-append_left payload code i 0 p;
        links = record {
          leaves = rw word_at_site opcode;
          enters = rw word_at_site lands;
          body = λ k p. word_in_veneer (4 * k) ∙ words k p;
          ends = rw (word_in_veneer 124) back_opcode;
          resumes = rw (word_in_veneer 124) back;
        };
      }

-- The whole loop.
pub record Patches (payload sites out : List ℕ) : Type 0 where
  pub grows : length out ≡ length payload + 128 * length sites
  pub keeps : (i : ℕ) → i < length payload → IsOutside i sites → byte_at out i ≡ byte_at payload i
  pub links : HasVeneers out (length payload) sites

-- Later rounds leave what an earlier one linked as it is.
IsPatched-kept :
    (image : List ℕ) (text_size site : ℕ) (sites payload out : List ℕ) (address : ℕ)
    → site + 4 ≤ length image
    → length image ≤ address
    → address + 128 ≤ length payload
    → SitesFrom image text_size (site + 4) sites
    → Patches payload sites out
    → IsPatched payload address site
    → IsPatched out address site
IsPatched-kept image text_size site sites payload out address room above inside later rest h =
    let at_site : le_at 4 out site ≡ le_at 4 payload site =
      le_at_ext 4 out payload site site (λ k p.
        rest.keeps (site + k) (omega arith)
          (IsOutside-below image text_size (site + 4) (site + k) sites later (omega arith))) in
    let in_veneer = λ (i : ℕ) (p : i + 4 ≤ 128).
      le_at_ext 4 out payload (address + i) (address + i) (λ k q.
        rest.keeps (address + i + k) (omega arith) (
          IsOutside-above image text_size (site + 4) (address + i + k) sites later
            (omega arith))) in
    record {
      leaves = rw at_site h.leaves;
      enters = rw at_site h.enters;
      body = λ k p. in_veneer (4 * k) (omega arith) ∙ h.body k p;
      ends = rw (in_veneer 124 (omega arith)) h.ends;
      resumes = rw (in_veneer 124 (omega arith)) h.resumes;
    }

pub patch-Patches :
    (image : List ℕ) (text_size low : ℕ) (payload sites : List ℕ) {out : List ℕ}
    → SitesFrom image text_size low sites
    → length image ≤ length payload
    → patch payload sites ≡ ok out
    → Patches payload sites out
unfolding patch
patch-Patches image text_size low payload [] inside room h = record {
  grows = ap length (sym (ok-injective h)) ∙ omega arith;
  keeps = λ i p q. ap (λ bytes. byte_at bytes i) (sym (ok-injective h));
  links = tt;
}
patch-Patches image text_size low payload (s ∷ ss) {out} inside room h =
    let (code, made, h₁) = >>=-eq-ok (veneer (length payload) (s + 4)) _ h in
    let (word, found, h₂) = >>=-eq-ok (branch s (length payload)) _ h₁ in
    let (patched, stored, h₃) = >>=-eq-ok (pack_into 4 (payload ++ code) s word) _ h₂ in
    let (_, _, e) = pack_into-eq-ok 4 (payload ++ code) s word stored in
    let round : Round payload s patched =
      rw e (Round-result payload s code word (omega arith) made found) in
    let rest =
      patch-Patches image text_size (s + 4) patched ss inside.5 (omega (arith, round.grows)) h₃ in
    record {
      grows = omega (arith, rest.grows, round.grows);
      keeps = λ i p q. rest.keeps i (omega (arith, round.grows)) q.1 ∙ round.keeps i p q.0;
      links = (
        IsPatched-kept image text_size s ss patched out (length payload) inside.3 room
            (omega (arith, round.grows)) inside.5 rest round.links,
        rw (← round.grows) rest.links,
      );
    }
