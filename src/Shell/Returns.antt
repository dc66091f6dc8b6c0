-- ===== src/Shell/Returns.antt =====
-- Reasoning on functions that run commands: what they keep however they end, and what has happened
-- when they return.
use artbox.Base.{Bool, true, false, String, Result, ok, err, ◌≡◌, refl, ap}
use artbox.Shell.{Act, go_on, ◌>>=◌, give, demand, change, settle}

-- However the function ends, the state is as it was in this respect.
abbrev pub Keeps : {S A : Type 0} → (S → Type 0) → Act S A → Type 0
Keeps {S = S} I m = (s : S) → I s → I (m s).0

pub go_on-Keeps :
    {S A B : Type 0} (I : S → Type 0) (x : S × Result A) (next : A → Act S B)
    → I x.0
    → ((a : A) → Keeps I (next a))
    → I (go_on x next).0
go_on-Keeps I (after, ok a) next held rest = rest a after held
go_on-Keeps I (after, err e) next held rest = held

pub >>=-Keeps :
    {S A B : Type 0} (I : S → Type 0) (m : Act S A) (next : A → Act S B)
    → Keeps I m
    → ((a : A) → Keeps I (next a))
    → Keeps I (m >>= next)
unfolding ◌>>=◌
>>=-Keeps I m next first rest s held = go_on-Keeps I (m s) next (first s held) rest

go_on-returned :
    {S A B P : Type 0} (x : S × Result A) (next : A → Act S B) {after : S} {b : B}
    → go_on x next ≡ (after, ok b)
    → ((a : A) (between : S) → x ≡ (between, ok a) → next a between ≡ (after, ok b) → P)
    → P
go_on-returned (between, ok a) next e then = then a between refl e
go_on-returned (between, err raised) next e then = cc

-- Inversion of a sequence that returned: the state and the value in between.
pub >>=-returned :
    {S A B P : Type 0} (m : Act S A) (next : A → Act S B) {s after : S} {b : B}
    → (m >>= next) s ≡ (after, ok b)
    → ((a : A) (between : S) → m s ≡ (between, ok a) → next a between ≡ (after, ok b) → P)
    → P
unfolding ◌>>=◌
>>=-returned m next {s = s} e then = go_on-returned (m s) next e then

pub demand-returned :
    {S B P : Type 0} (condition : Bool) (message : String) (next : Unit {0} → Act S B) {s after : S}
    {b : B}
    → (demand condition message >>= next) s ≡ (after, ok b)
    → (condition ≡ true → next tt s ≡ (after, ok b) → P)
    → P
unfolding ◌>>=◌
demand-returned true message next e then = then refl e
demand-returned false message next e then = cc

-- A `try` with `finally` that returned: both parts did.
pub settle-ok :
    {A B C : Type 0} (both : A → B → C) (r : Result A) (q : Result B) (c : C)
    → settle both r q ≡ ok c
    → (a : A) × (b : B) × (r ≡ ok a) × (q ≡ ok b) × (c ≡ both a b)
settle-ok both r (err e) c h = cc
settle-ok both (err e) (ok b) c h = cc
settle-ok both (ok a) (ok b) c h = (a, b, refl, refl, cc)

pub give-returned :
    {S A B P : Type 0} (r : Result A) (next : A → Act S B) {s after : S} {b : B}
    → (give r >>= next) s ≡ (after, ok b)
    → ((a : A) → r ≡ ok a → next a s ≡ (after, ok b) → P)
    → P
unfolding ◌>>=◌
give-returned (ok a) next e then = then a refl e
give-returned (err raised) next e then = cc

-- A last `demand` that returned.
pub demand-true :
    {S : Type 0} (condition : Bool) (message : String) (s after : S) (result : Unit {0})
    → demand condition message s ≡ (after, ok result)
    → (s ≡ after) × (condition ≡ true)
demand-true true message s after result e = (ap (λ (x : _ × Result (Unit {0})). x.0) e, refl)
demand-true false message s after result e = cc

pub change-returned :
    {S B : Type 0} (f : S → S) (next : Unit {0} → Act S B) {s : S} {out : S × Result B}
    → (change f >>= next) s ≡ out
    → next tt (f s) ≡ out
unfolding ◌>>=◌
change-returned f next e = e

pub kept :
    {S A : Type 0} (I : S → Type 0) (m : Act S A) (s after : S) (r : Result A)
    → Keeps I m
    → I s
    → m s ≡ (after, r)
    → I after
kept I m s after r keeps held is =
    let same : (m s).0 ≡ after = ap (λ (x : _ × Result _). x.0) is in rw same at (keeps s held)
