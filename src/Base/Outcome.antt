-- ===== src/Base/Outcome.antt =====
-- A Python function that may raise: `err` carries the message of the exception.
use Prim.Native.String.{String}
use mathlib.Core.Path.{◌≡◌, refl}
use mathlib.Core.Bool.{Bool, true, false}

pub data Result {ℓ} (A : Type ℓ) : Type ℓ where
  err : String → Result A
  ok : A → Result A

-- `if not condition: raise ...(message)`
abbrev pub require : Bool → String → Result (Unit {0})
require false message = err message
require true message = ok tt

infixl 5 ◌>>◌ ◌>>=◌
abbrev pub ◌>>=◌ {ℓ κ} : {B : Type κ} {A : Type ℓ} → Result A → (A → Result B) → Result B
err message >>= next = err message
ok value >>= next = next value

abbrev pub ◌>>◌ {ℓ} : {B : Type ℓ} → Result (Unit {0}) → Result B → Result B
check >> next = check >>= λ _. next

-- Inversion of a bind and of a guard that did not raise. What follows is a function, which keeps the
-- terms of a long chain small.
pub >>=-elim {ℓ κ μ} :
    {A : Type ℓ} {B : Type κ} {P : Type μ} (m : Result A) {f : A → Result B} {b : B}
    → (m >>= f) ≡ ok b
    → ((a : A) → m ≡ ok a → f a ≡ ok b → P)
    → P
>>=-elim (ok a) h then = then a refl h
>>=-elim (err e) h then = cc

pub require-elim {ℓ κ} :
    {B : Type ℓ} {P : Type κ} (c : Bool) (message : String) {k : Result B} {b : B}
    → (require c message >> k) ≡ ok b
    → (c ≡ true → k ≡ ok b → P)
    → P
require-elim true message h then = then refl h
require-elim false message h then = cc

pub require-true : (c : Bool) (message : String) → require c message ≡ ok tt → c ≡ true
require-true true message e = refl
require-true false message e = cc

pub ok-injective {ℓ} : {A : Type ℓ} {a b : A} → ok a ≡ ok b → a ≡ b
ok-injective h = cc

-- The same as tuples.
pub >>=-eq-ok {ℓ κ} :
    {B : Type κ} {A : Type ℓ} (call : Result A) (next : A → Result B) {r : B}
    → (call >>= next) ≡ ok r
    → (value : A) × (call ≡ ok value) × (next value ≡ ok r)
>>=-eq-ok call next returned = >>=-elim call returned λ value first rest. (value, first, rest)

pub require-eq-ok {κ} :
    {B : Type κ} (c : Bool) (message : String) (k : Result B) {b : B}
    → (require c message >> k) ≡ ok b
    → (c ≡ true) × (k ≡ ok b)
require-eq-ok c message k returned = require-elim c message returned λ passed rest. (passed, rest)
