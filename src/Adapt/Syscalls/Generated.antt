-- ===== src/Adapt/Syscalls/Generated.antt =====
-- scripts/bionic_syscalls.py: what `adapt_generated` makes of the generated assembly.
use artbox.Base.{
  ℕ, ◌≤◌, ltb, ◌||◌, not, Bool, true, false, String, List, [], ◌∷◌, ok, ◌≡◌, sym, arith, >>=-elim,
  require-elim, ok-injective, ltb-false,
}
use artbox.Paths.{contains}
use artbox.Paths.Laws.{Every}
use artbox.Sources.Plan.{Distinct, not-true}
use artbox.Adapt.Replace.{replace_unique}
use artbox.Adapt.Unique.{IsReplaced, replace_unique-IsReplaced, AreFresh, fresh_other, fresh_less}
use artbox.Adapt.Syscalls.{
  Call, kernel_entry, framed_entry, is_identifier, has_svc, adapt_calls, adapt_generated,
}

abbrev pub functions : List Call → List (List ℕ)
functions [] = []
functions (call ∷ calls) = call.func ∷ functions calls

-- Each call in turn has its only kernel entry replaced.
abbrev pub AllFramed : List Call → List ℕ → List ℕ → Type 0
AllFramed [] source adapted = source ≡ adapted
AllFramed (call ∷ calls) source adapted =
    (next : List ℕ) × IsReplaced (kernel_entry call.func call.name)
      (framed_entry call.func call.name call.params) source next
    × AllFramed calls next adapted

abbrev IsSupported : (ℕ → Bool) → Call → Type 0
IsSupported wide call =
    (is_identifier wide call.func ≡ true)
    × (is_identifier wide call.name ≡ true)
    × (call.params ≤ 6)

pub record IsAdapted (wide : ℕ → Bool) (source : List ℕ) (calls : List Call) (adapted : List ℕ)
    : Type 0 where
  pub framed : AllFramed calls source adapted
  pub supported : Every (IsSupported wide) calls
  pub distinct : Distinct (functions calls)
  pub no_svc : has_svc wide false adapted ≡ false

guards :
    {a b c d : Bool}
    → not (a || not b || not c || d) ≡ true
    → (a ≡ false) × (b ≡ true) × (c ≡ true) × (d ≡ false)
guards h = ground arith

module _ (wide : ℕ → Bool) where
  adapt_calls-AllFramed :
      (seen : List (List ℕ)) (calls : List Call) (source adapted : List ℕ)
      → adapt_calls wide seen calls source ≡ ok adapted
      → AllFramed calls source adapted
        × Every (IsSupported wide) calls
        × AreFresh seen (functions calls)
        × Distinct (functions calls)
  unfolding adapt_calls
  adapt_calls-AllFramed seen [] source adapted e = (ok-injective e, tt, tt, tt)
  adapt_calls-AllFramed seen (call ∷ calls) source adapted e =
      require-elim
        (not (
          contains call.func seen
          || not (is_identifier wide call.func)
          || not (is_identifier wide call.name)
          || ltb 6 call.params))
        "Unsupported or duplicate ARM64 syscall declaration" e
        λ passed e₁.
          let before = kernel_entry call.func call.name in
          let after = framed_entry call.func call.name call.params in
          let drift : String = "AOSP syscall template drift or duplicate entry" in
          >>=-elim (replace_unique drift before after source) e₁ λ next replaced e₂.
            let (fresh, function, number, few) = guards passed in
            let (framed, supported, unseen, distinct) =
              adapt_calls-AllFramed (call.func ∷ seen) calls next adapted e₂ in
            (
              (next, replace_unique-IsReplaced drift before after source next replaced, framed),
              ((function, number, ltb-false 6 call.params few), supported),
              (fresh, fresh_less call.func seen (functions calls) unseen),
              (fresh_other call.func seen (functions calls) unseen, distinct),
            )

-- When `adapt_generated` returns, each call in order had its kernel entry replaced by the
-- framed call at the only place where it occurs without overlap; functions are distinct
-- identifiers with at most six arguments, and no svc instruction is left in the text.
pub adapt_generated-IsAdapted :
    (wide : ℕ → Bool) (source : List ℕ) (calls : List Call) (adapted : List ℕ)
    → adapt_generated wide source calls ≡ ok adapted
    → IsAdapted wide source calls adapted
unfolding adapt_generated
adapt_generated-IsAdapted wide source calls adapted e =
    >>=-elim (adapt_calls wide [] calls source) e λ text made e₁.
      require-elim (not (has_svc wide false text))
        "Unadapted kernel entry remains in generated Bionic syscalls" e₁
        λ free e₂.
          let (framed, supported, _, distinct) =
            adapt_calls-AllFramed wide [] calls source text made in
          rw (sym (ok-injective e₂)) (record {
            framed = framed;
            supported = supported;
            distinct = distinct;
            no_svc = not-true free;
          })
