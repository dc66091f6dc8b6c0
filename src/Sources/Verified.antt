-- ===== src/Sources/Verified.antt =====
-- scripts/sources.py: `verify`, what an installed selection holds.
use artbox.Base.{
  ℕ, ◌&&◌, true, Option, some, List, [], ◌∷◌, length, ok, require, ◌>>◌, ◌≡◌, sym, ◌∙◌, arith,
  Bool-cases, Option-cases, inl, inr, >>=-elim, require-elim, and-eq-true,
}
use artbox.Base.Int.{pos, leb_ℤ}
use artbox.Base.Text.{◌≟◌, ≟_iff}
use artbox.Paths.Laws.{Every}
use artbox.Sources.Selection.{Pin, Spec, Selected, pin_of, check_bytes, verify, select_files}
use artbox.Sources.Selected.{IsSelection, select_files-IsSelection}

some-injective : {a b : Pin} → some a ≡ some b → a ≡ b
some-injective h = cc

module _ (digest blob_digest : List ℕ → List ℕ) (read : List ℕ → Option (List ℕ)) where
  -- The bytes at the path of a pin are what is pinned.
  pub record IsHeld (pin : Pin) : Type 0 where
    pub bytes : List ℕ
    pub present : read pin.path ≡ some bytes
    pub size :
        (leb_ℤ (pos (length bytes)) pin.bytes ≡ true)
        × (leb_ℤ pin.bytes (pos (length bytes)) ≡ true)
    pub hashed : digest bytes ≡ pin.sha256
    pub blob : (b : List ℕ) → pin.git_blob ≡ some b → blob_digest bytes ≡ b

  check_bytes-IsHeld :
      (pin : Pin) (bytes : List ℕ) {u : Unit {0}}
      → read pin.path ≡ some bytes
      → check_bytes digest blob_digest read pin bytes ≡ ok u
      → IsHeld pin
  unfolding check_bytes
  check_bytes-IsHeld pin bytes here e =
      require-elim (leb_ℤ (pos (length bytes)) pin.bytes && leb_ℤ pin.bytes (pos (length bytes)))
        "Source file size differs from the pin" e
        λ sized e₁.
          require-elim (digest bytes ≟ pin.sha256) "Source file SHA-256 differs from the pin" e₁
            λ hashed e₂. record {
              bytes = bytes;
              present = here;
              size =
                  and-eq-true (leb_ℤ (pos (length bytes)) pin.bytes)
                    (leb_ℤ pin.bytes (pos (length bytes))) sized;
              hashed = (≟_iff (digest bytes) pin.sha256).0 hashed;
              blob = λ b given.
                  let e₃ : require (blob_digest bytes ≟ b) "Git blob content differs from the pin"
                      ≡ ok tt =
                    ground (arith, e₂, given) in
                  (≟_iff (blob_digest bytes) b).0 (ground arith);
            }

  verify-Every :
      (selected : Selected) {u : Unit {0}}
      → verify digest blob_digest read selected ≡ ok u
      → Every (λ s. IsHeld s.1) selected
  unfolding verify
  verify-Every [] e = tt
  verify-Every (s ∷ ss) e = elim (Option-cases (read s.1.path)) [
    | inl missing ↦ cc (rw (missing, verify) at e)
    | inr (bytes, here) ↦
        let e₀ : (check_bytes digest blob_digest read s.1 bytes
              >> verify digest blob_digest read ss)
            ≡ ok _ =
          rw (here, verify) at e in
        >>=-elim (check_bytes digest blob_digest read s.1 bytes) e₀
          λ _ checked rest. (check_bytes-IsHeld s.1 bytes here checked, verify-Every ss rest)
  ]

  pin_of-Every :
      (key : List ℕ) (selected : Selected) (pin : Pin)
      → Every (λ s. IsHeld s.1) selected
      → pin_of key selected ≡ some pin
      → IsHeld pin
  unfolding pin_of
  pin_of-Every key [] pin every e = cc
  pin_of-Every key (s ∷ ss) pin every e = elim (Bool-cases (key ≟ s.0)) [
    | inl same ↦ let found : s.1 ≡ pin = some-injective (rw same at e) in rw (sym found) every.0
    | inr differs ↦ pin_of-Every key ss pin every.1 (rw differs at e)
  ]

  -- What is installed.
  pub record IsInstalled (fold : List ℕ → List ℕ) (spec : Spec) (selected : Selected) : Type 0 where
    pub selection : IsSelection fold spec selected
    pub held : Every (λ s. IsHeld s.1) selected
    pub notice : List ℕ
    pub reviewed : (read spec.notice ≡ some notice) × (digest notice ≡ spec.notice_sha256)

  -- When the checks of `obtain_files` accept a spec and `verify` accepts a directory, every
  -- pinned path of it holds bytes of the pinned size, hash and, where one is given, Git blob
  -- hash, and the reviewed notice is there with its hash.
  pub verify-IsInstalled :
      (fold : List ℕ → List ℕ) (name : List ℕ) (spec : Spec) (selected : Selected) {u : Unit {0}}
      → select_files fold name spec ≡ ok selected
      → verify digest blob_digest read selected ≡ ok u
      → IsInstalled fold spec selected
  verify-IsInstalled fold name spec selected chosen checked =
      let s = select_files-IsSelection fold name spec selected chosen in
      let all = verify-Every selected checked in
      let (pin, found, path, hash) = s.notice in
      let held = pin_of-Every (fold spec.notice) selected pin all found in
      record {
        selection = s;
        held = all;
        notice = held.bytes;
        reviewed = (rw path at held.present, held.hashed ∙ hash);
      }
