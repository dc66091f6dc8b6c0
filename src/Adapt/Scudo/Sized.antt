-- ===== src/Adapt/Scudo/Sized.antt =====
-- scripts/bionic_scudo.py: where the configuration that `prepare` writes differs from the original.
use artbox.Base.{
  ℕ, ◌==◌, if◌then◌else◌, Bool, true, false, Option, none, some, List, [], ◌∷◌, ◌++◌, ok, ◌≡◌, refl,
  sym, ap, ◌∙◌, inl, inr, Bool-cases, >>=-elim, require-elim, ok-injective, ==_iff,
}
use artbox.Base.Text.{codes, ◌≟◌, ≟_iff}
use artbox.Paths.{is_nil}
use artbox.Sources.Archive.{starts_with}
use artbox.Tree.{Tree, file_at, write_file}
use artbox.Tree.Writes.{file_at-write_file_same, file_at-write_file_other}
use artbox.Adapt.Replace.{count, replace_first}
use artbox.Adapt.Unique.{NoneBegins, IsReplaced, replace_first-IsReplaced}
use artbox.Adapt.Scudo.{
  keep_front, split_before, or_not_found, large_region, small_region, smaller_region, Configured,
  configured_record, prepare_scudo,
}

keep_front-some :
    (c : ℕ) (o : Option (List ℕ × List ℕ)) (parts : List ℕ × List ℕ)
    → keep_front c o ≡ some parts
    → (front : List ℕ) × (o ≡ some (front, parts.1)) × (parts.0 ≡ c ∷ front)
keep_front-some c none parts e = cc
keep_front-some c (some found) parts e = (found.0, cc, cc)

some-injective : {x parts : List ℕ × List ℕ} → some x ≡ some parts → x ≡ parts
some-injective e = cc

nothing : {parts : List ℕ × List ℕ} → none ≡ some parts → ⊥
nothing e = cc

abbrev joined : List ℕ × List ℕ → List ℕ
joined parts = parts.0 ++ parts.1

split_before-whole :
    (part text : List ℕ) (parts : List ℕ × List ℕ)
    → split_before part text ≡ some parts
    → text ≡ parts.0 ++ parts.1
unfolding split_before
split_before-whole part [] parts e = elim (Bool-cases (is_nil part)) [
  | inl here ↦ ap joined (some-injective (rw here at e))
  | inr later ↦ absurd (nothing (rw later at e))
]
split_before-whole part (c ∷ cs) parts e = elim (Bool-cases (starts_with (c ∷ cs) part)) [
  | inl here ↦ ap joined (some-injective (rw here at e))
  | inr later ↦
      let (front, rest, first) = keep_front-some c (split_before part cs) parts (rw later at e) in
      rw first (ap (c ∷◌) (split_before-whole part cs (front, parts.1) rest))
]

starts_with-nil : (part : List ℕ) → is_nil part ≡ true → starts_with [] part ≡ true
unfolding starts_with
starts_with-nil [] h = refl
starts_with-nil (c ∷ cs) h = cc

-- The text is split where the part begins, and it does not begin before.
split_before-first :
    (part text : List ℕ) (parts : List ℕ × List ℕ)
    → split_before part text ≡ some parts
    → NoneBegins part parts.0 parts.1 × (starts_with parts.1 part ≡ true)
unfolding split_before
split_before-first part [] parts e = elim (Bool-cases (is_nil part)) [
  | inl here ↦ rw (sym (some-injective (rw here at e))) (tt, starts_with-nil part here)
  | inr later ↦ absurd (nothing (rw later at e))
]
split_before-first part (c ∷ cs) parts e = elim (Bool-cases (starts_with (c ∷ cs) part)) [
  | inl here ↦ rw (sym (some-injective (rw here at e))) (tt, here)
  | inr later ↦
      let (front, rest, first) = keep_front-some c (split_before part cs) parts (rw later at e) in
      let (earlier, begins) = split_before-first part cs (front, parts.1) rest in
      rw first ((rw (split_before-whole part cs (front, parts.1) rest) at later, earlier), begins)
]

or_not_found-some :
    (o : Option (List ℕ × List ℕ)) (parts : List ℕ × List ℕ)
    → or_not_found o ≡ ok parts
    → o ≡ some parts
or_not_found-some none parts e = cc
or_not_found-some (some found) parts e = ap some (ok-injective e)

-- The only declaration of the region size between the first declaration of the normal configuration
-- and the first of the low memory one behind it was replaced, and all else is as it was.
pub record IsSmaller (bytes adapted : List ℕ) : Type 0 where
  pub front : List ℕ
  pub block : List ℕ
  pub block' : List ℕ
  pub behind : List ℕ
  pub whole : bytes ≡ front ++ (block ++ behind)
  pub begins : starts_with (block ++ behind) (codes "struct AndroidNormalConfig {") ≡ true
  pub first_begin : NoneBegins (codes "struct AndroidNormalConfig {") front (block ++ behind)
  pub ends : starts_with behind (codes "struct AndroidLowMemoryConfig {") ≡ true
  pub first_end : NoneBegins (codes "struct AndroidLowMemoryConfig {") block behind
  pub replaced :
      IsReplaced
        (codes "static const uptr RegionSizeLog = 28U;")
        (codes "static const uptr RegionSizeLog = 24U;")
        block
        block'
  pub left : adapted ≡ front ++ (block' ++ behind)

smaller_region-IsSmaller :
    (bytes adapted : List ℕ) → smaller_region bytes ≡ ok adapted → IsSmaller bytes adapted
unfolding smaller_region
smaller_region-IsSmaller bytes adapted e =
    let start = codes "struct AndroidNormalConfig {" in
    let stop = codes "struct AndroidLowMemoryConfig {" in
    >>=-elim (or_not_found (split_before start bytes)) e λ begun found e₁.
      >>=-elim (or_not_found (split_before stop begun.1)) e₁ λ ended closed e₂.
        require-elim (count large_region ended.0 == 1)
          "Scudo Android normal primary configuration changed" e₂
          λ once last.
            let first =
              split_before-first start bytes begun
                (or_not_found-some (split_before start bytes) begun found) in
            let second =
              split_before-first stop begun.1 ended
                (or_not_found-some (split_before stop begun.1) ended closed) in
            let same : begun.1 ≡ ended.0 ++ ended.1 =
              split_before-whole stop begun.1 ended
                (or_not_found-some (split_before stop begun.1) ended closed) in
            record {
              front = begun.0;
              block = ended.0;
              block' = replace_first large_region small_region ended.0;
              behind = ended.1;
              whole =
                  split_before-whole start bytes begun
                    (or_not_found-some (split_before start bytes) begun found)
                  ∙ ap (begun.0 ++◌) same;
              begins = rw same at first.1;
              first_begin = rw same at first.0;
              ends = second.1;
              first_end = second.0;
              replaced =
                  replace_first-IsReplaced _ _ small_region ended.0
                    ((==_iff (count large_region ended.0) 1).0 once);
              left = sym (ok-injective last);
            }

-- The configuration for a native build has the smaller arena and no other change.
abbrev pub IsAdapted : Bool → List ℕ → List ℕ → Type 0
IsAdapted true bytes adapted = IsSmaller bytes adapted
IsAdapted false bytes adapted = adapted ≡ bytes

-- The exponent of the region size that is in the record, and the bytes of 33 such regions.
abbrev pub IsCounted : Bool → Configured → Type 0
IsCounted true c =
    (c.normal_primary_region_size_log ≡ 24) × (c.contiguous_reservation_bytes ≡ 553648128)
IsCounted false c =
    (c.normal_primary_region_size_log ≡ 28) × (c.contiguous_reservation_bytes ≡ 8858370048)

pub record IsSized (digest : List ℕ → List ℕ) (bytes expected : List ℕ) (native : Bool)
    (result : Configured × Tree) : Type 0 where
  pub pinned : digest bytes ≡ expected
  pub adapted : List ℕ
  pub changed : IsAdapted native bytes adapted
  pub source : result.0.source_sha256 ≡ expected
  pub configured : result.0.configured_sha256 ≡ digest adapted
  pub counted : IsCounted native result.0
  pub original : file_at (codes "original_custom_scudo_config.h") result.1 ≡ some bytes
  pub written : file_at (codes "custom_scudo_config.h") result.1 ≡ some adapted

chosen-IsAdapted :
    (native : Bool) (bytes adapted : List ℕ)
    → (if native then smaller_region bytes else ok bytes) ≡ ok adapted
    → IsAdapted native bytes adapted
chosen-IsAdapted true bytes adapted e = smaller_region-IsSmaller bytes adapted e
chosen-IsAdapted false bytes adapted e = sym (ok-injective e)

-- If `prepare` of the allocator's configuration returns, the original has the expected digest
-- and is kept beside the configuration that is used. This is the original, or, for a native
-- build, the original with one change: the text from the first beginning of AndroidNormalConfig
-- up to the first beginning of AndroidLowMemoryConfig behind it has one declaration of the
-- region size, 28, which is replaced by 24. The record has the expected digest, that of the
-- configuration, the exponent 24 or 28, and the bytes of 33 regions of 2 to the power of this.
pub prepare_scudo-IsSized :
    (digest : List ℕ → List ℕ) (bytes expected : List ℕ) (native : Bool) (output : Tree)
    (result : Configured × Tree)
    → prepare_scudo digest bytes expected native output ≡ ok result
    → IsSized digest bytes expected native result
unfolding prepare_scudo ◌≟◌
prepare_scudo-IsSized digest bytes expected native output result e =
    require-elim (digest bytes ≟ expected)
      "Scudo Android configuration differs from the reviewed source" e
      λ same e₁.
        >>=-elim (if native then smaller_region bytes else ok bytes) e₁ λ adapted chosen last.
          let kept = write_file (codes "custom_scudo_config.h") adapted output in
          rw (sym (ok-injective last)) (record {
            pinned = (≟_iff (digest bytes) expected).0 same;
            adapted = adapted;
            changed = chosen-IsAdapted native bytes adapted chosen;
            source = refl;
            configured = refl;
            counted = counted native (digest adapted);
            original = file_at-write_file_same (codes "original_custom_scudo_config.h") bytes kept;
            written =
                file_at-write_file_other (codes "custom_scudo_config.h")
                  (codes "original_custom_scudo_config.h") bytes kept refl
                ∙ file_at-write_file_same (codes "custom_scudo_config.h") adapted output;
          })
  where
    counted :
        (native : Bool) (hash : List ℕ)
        → IsCounted native (configured_record (λ _. hash) expected native [])
    counted true hash = (refl, refl)
    counted false hash = (refl, refl)
