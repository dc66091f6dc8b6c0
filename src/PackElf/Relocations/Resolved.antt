-- ===== src/PackElf/Relocations/Resolved.antt =====
-- tools/pack_elf.py: what `parse_elf` knows of each entry of an accepted relocation table.
use artbox.Base.{
  ℕ, zero, suc, ◌+◌, ◌-◌, ◌*◌, ◌/◌, ◌%◌, ◌^◌, ◌≤◌, ◌<◌, bit_and, ◌≡◌, refl, List, ok, arith,
  >>=-elim, true,
}
use artbox.Base.Int.{ℤ, pos, ◌+ℤ◌, pos_part, leb_ℤ, ltb_ℤ}
use artbox.Base.Bytes.{le_at}
use artbox.Elf.{Section}
use artbox.PackElf.Numbers.{signed}
use artbox.PackElf.Inspect.{adr_immediate, adr_target}
use artbox.PackElf.Relocations.{Layout, check_entry, check_entries, same_int}

-- The value of the symbol that an entry names, plus its addend.
abbrev pub symbol_target : List ℕ → Section → ℕ → ℤ
symbol_target bytes symbols position =
    pos (le_at 8 bytes (symbols.offset + le_at 8 bytes (position + 8) / 2 ^ 32 * 24 + 8))
    +ℤ signed (le_at 8 bytes (position + 16)) 64

-- The entry patches an aligned ADR of the text whose displacement already leads to the symbol's
-- target in the image.
pub record IsResolved (bytes : List ℕ) (l : Layout) (symbols : Section) (position : ℕ)
    : Type 0 where
  pub place : ℕ
  pub place_is : place ≡ le_at 8 bytes position
  pub in_text : (l.entry ≤ place) × (place + 4 ≤ l.entry + l.text_size)
  pub aligned : place % 4 ≡ 0
  pub is_adr : bit_and (le_at 4 bytes (l.offset + place - l.base)) 0x9f000000 ≡ 0x10000000
  pub leads :
      adr_target place (le_at 4 bytes (l.offset + place - l.base))
      ≡ symbol_target bytes symbols position
  pub target : ℕ
  pub target_is : symbol_target bytes symbols position ≡ pos target
  pub in_image : (l.base ≤ target) × (target < l.base + l.size)

same_int→eq : (a b : ℤ) → same_int a b ≡ true → a ≡ b
same_int→eq a b h = ground arith

within→pos :
    (a : ℤ) (low high : ℕ)
    → leb_ℤ (pos low) a ≡ true
    → ltb_ℤ a (pos high) ≡ true
    → (a ≡ pos (pos_part a)) × (low ≤ pos_part a) × (pos_part a < high)
within→pos a low high h k = ground arith

module _ (bytes : List ℕ) (l : Layout) (symbols : Section) (position : ℕ) where
  abbrev place : ℕ
  place = le_at 8 bytes position

  abbrev word : ℕ
  word = le_at 4 bytes (l.offset + place - l.base)

  entry_facts :
      check_entry bytes l symbols position ≡ ok tt
      → (l.entry ≤ place)
        × (place + 4 ≤ l.entry + l.text_size)
        × (place % 4 ≡ 0)
        × (bit_and word 0x9f000000 ≡ 0x10000000)
        × (same_int
              (pos place +ℤ signed (adr_immediate word) 21)
              (symbol_target bytes symbols position)
            ≡ true)
        × (leb_ℤ (pos l.base) (symbol_target bytes symbols position) ≡ true)
        × (ltb_ℤ (symbol_target bytes symbols position) (pos (l.base + l.size)) ≡ true)
  unfolding check_entry
  entry_facts e = ground arith

check_entry-IsResolved :
    (bytes : List ℕ) (l : Layout) (symbols : Section) (position : ℕ)
    → check_entry bytes l symbols position ≡ ok tt
    → IsResolved bytes l symbols position
unfolding adr_target
check_entry-IsResolved bytes l symbols position e =
    let (low, high, aligned, is_adr, same, above, below) = entry_facts bytes l symbols position e in
    let t = symbol_target bytes symbols position in
    let (target_is, from, to) = within→pos t l.base (l.base + l.size) above below in
    record {
      place = le_at 8 bytes position;
      place_is = refl;
      in_text = (low, high);
      aligned = aligned;
      is_adr = is_adr;
      leads = same_int→eq _ t same;
      target = pos_part t;
      target_is = target_is;
      in_image = (from, to);
    }

-- Every entry of a relocation table whose check succeeds names an aligned place in the text
-- that holds an ADR, and the displacement of that ADR leads to the symbol value plus the
-- addend, which lies in the image.
pub check_entries-IsResolved :
    (bytes : List ℕ) (l : Layout) (symbols : Section) (rounds position : ℕ)
    → check_entries bytes l symbols rounds position ≡ ok tt
    → (k : ℕ) → k < rounds
    → IsResolved bytes l symbols (position + 24 * k)
unfolding check_entries
check_entries-IsResolved bytes l symbols zero position e k p = absurd (omega arith)
check_entries-IsResolved bytes l symbols (suc rounds) position e zero p =
    >>=-elim (check_entry bytes l symbols position) e λ _ first _.
      let same : position + 24 * 0 ≡ position = omega arith in
      rw same (check_entry-IsResolved bytes l symbols position first)
check_entries-IsResolved bytes l symbols (suc rounds) position e (suc k) p =
    >>=-elim (check_entry bytes l symbols position) e λ _ _ rest.
      let same : position + 24 * suc k ≡ position + 24 + 24 * k = omega arith in
      rw same (check_entries-IsResolved bytes l symbols rounds (position + 24) rest k (omega arith))
