-- ===== src/Adapt/Syscalls/Registers.antt =====
-- scripts/bionic_syscalls.py: what the moves of an adapted entry leave in the registers.
use artbox.Base.{
  ℕ, zero, suc, ◌+◌, ◌-◌, ◌≤◌, ◌<◌, ltb, ◌==◌, ◌&&◌, if◌then◌else◌, List, [], ◌∷◌, ◌++◌, ◌≡◌, refl,
  ◌∙◌, arith,
}
use artbox.Adapt.Syscalls.{
  Operand, register, zero_register, call_number, Move, shift_moves, clear_moves, moves_of,
}

module _ {A : Type 0} (nothing number : A) where
  -- The value that an operand reads.
  abbrev read : Operand → (ℕ → A) → A
  read (register i) registers = registers i
  read zero_register registers = nothing
  read (call_number name) registers = number

  -- The registers after `mov`s in a row.
  unfoldable pub run : List Move → (ℕ → A) → ℕ → A
  run [] registers = registers
  run (m ∷ ms) registers =
      let value = read m.1 registers in run ms (λ j. if j == m.0 then value else registers j)

  run-append :
      (ms ns : List Move) (registers : ℕ → A) (j : ℕ)
      → run (ms ++ ns) registers j ≡ run ns (run ms registers) j
  unfolding run
  run-append [] ns registers j = refl
  run-append (m ∷ ms) ns registers j =
      run-append ms ns (λ i. if i == m.0 then read m.1 registers else registers i) j

  run-shift_moves :
      (n : ℕ) (registers : ℕ → A) (j : ℕ)
      → run (shift_moves n) registers j
        ≡ (if ltb 0 j && ltb j (suc n) then registers (j - 1) else registers j)
  unfolding run shift_moves
  run-shift_moves zero registers j = ground arith
  run-shift_moves (suc n) registers j =
      ground (arith, run-shift_moves n (λ i. if i == n + 1 then registers n else registers i) j)

  run-clear_moves :
      (rounds first : ℕ) (registers : ℕ → A) (j : ℕ)
      → run (clear_moves first rounds) registers j ≡ (
          if ltb j first
          then registers j
          else if ltb j (first + rounds)
          then nothing
          else registers j)
  unfolding run clear_moves
  run-clear_moves zero first registers j = ground arith
  run-clear_moves (suc rounds) first registers j = ground (
    arith,
    run-clear_moves rounds (suc first) (λ i. if i == first then nothing else registers i) j,
  )

-- What the called function finds: the number, then the arguments, then zeros.
pub record IsCall {A : Type 0} (nothing number : A) (count : ℕ) (before after : ℕ → A)
    : Type 0 where
  pub numbered : after 0 ≡ number
  pub arguments : (i : ℕ) → i < count → after (suc i) ≡ before i
  pub cleared : (i : ℕ) → count < i → i ≤ 6 → after i ≡ nothing
  pub others : (i : ℕ) → 6 < i → after i ≡ before i

-- For at most six arguments the moves of an adapted system call leave the call number in x0,
-- argument i of the caller in x(i + 1), zero in the registers behind them up to x6, and every
-- other register as it was.
pub moves_of-IsCall :
    {A : Type 0} (nothing number : A) (name : List ℕ) (count : ℕ) (registers : ℕ → A)
    → count ≤ 6
    → IsCall nothing number count registers (run nothing number (moves_of name count) registers)
unfolding moves_of
moves_of-IsCall nothing number name count registers few =
    let shifted = run nothing number (shift_moves count) registers in
    let cleared = run nothing number (clear_moves (count + 1) (7 - (count + 1))) shifted in
    let final : (j : ℕ)
        → run nothing number (moves_of name count) registers j
          ≡ (if j == 0 then number else cleared j) =
      λ j.
        run-append nothing number (shift_moves count)
          (clear_moves (count + 1) (7 - (count + 1)) ++ (0, call_number name) ∷ []) registers j
        ∙ run-append nothing number (clear_moves (count + 1) (7 - (count + 1)))
            ((0, call_number name) ∷ []) shifted j
        ∙ unfold run in refl in
    let at_clear = run-clear_moves nothing number (7 - (count + 1)) (count + 1) shifted in
    let at_shift = run-shift_moves nothing number count registers in
    record {
      numbered = final 0;
      arguments = λ i p. ground (arith, final (suc i), at_clear (suc i), at_shift (suc i));
      cleared = λ i p q. ground (arith, final i, at_clear i, at_shift i);
      others = λ i p. ground (arith, final i, at_clear i, at_shift i);
    }
