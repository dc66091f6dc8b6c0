-- ===== src/Base/Utf8.antt =====
-- Python's `bytes.decode("utf-8")` and `str.encode("utf-8")` on character codes, with their errors.
use artbox.Base.Tests.{ltb, leb, ◌==◌, if◌then◌else◌}
use artbox.Base.Outcome.{Result, ok, err, require, ◌>>=◌, ◌>>◌}
use Prim.Native.Nat.{ℕ, ◌+◌, ◌-◌, ◌*◌, ◌/◌, ◌%◌}
use mathlib.Core.Bool.{Bool, ◌&&◌, ◌||◌, not}
use mathlib.Core.Option.{Option, none, some}
use mathlib.Core.List.{List, [], ◌∷◌, ◌++◌}

-- The bytes that a character still needs, its bits so far, and the range of the next byte.
pub record Pending : Type 0 where
  pub need : ℕ
  pub value : ℕ
  pub low : ℕ
  pub high : ℕ

abbrev pub no_pending : Pending
no_pending = record { need = 0; value = 0; low = 0x80; high = 0xbf }

abbrev is_between : ℕ → ℕ → ℕ → Bool
is_between low high b = leb low b && leb b high

abbrev start : ℕ → Result (Option ℕ × Pending)
start b =
    if ltb b 0x80
    then ok (some b, no_pending)
    else if is_between 0xc2 0xdf b
    then ok (none, record { need = 1; value = b - 0xc0; low = 0x80; high = 0xbf })
    else if is_between 0xe0 0xef b
    then ok (
      none,
      record {
        need = 2;
        value = b - 0xe0;
        low = if b == 0xe0 then 0xa0 else 0x80;
        high = if b == 0xed then 0x9f else 0xbf;
      },
    )
    else if is_between 0xf0 0xf4 b
    then ok (
      none,
      record {
        need = 3;
        value = b - 0xf0;
        low = if b == 0xf0 then 0x90 else 0x80;
        high = if b == 0xf4 then 0x8f else 0xbf;
      },
    )
    else err "UnicodeDecodeError"

abbrev continue : Pending → ℕ → Result (Option ℕ × Pending)
continue p b = do
  require (is_between p.low p.high b) "UnicodeDecodeError"
  let value = p.value * 64 + (b - 0x80)
  ok (
      if p.need == 1
      then (some value, no_pending)
      else (none, record { need = p.need - 1; value = value; low = 0x80; high = 0xbf }))

abbrev decode_byte : Pending → ℕ → Result (Option ℕ × Pending)
decode_byte p b = if p.need == 0 then start b else continue p b

abbrev emit : Option ℕ → List ℕ → List ℕ
emit none cs = cs
emit (some c) cs = c ∷ cs

unfoldable pub decode_from : Pending → List ℕ → Result (List ℕ)
decode_from p [] = require (p.need == 0) "UnicodeDecodeError" >> ok []
decode_from p (b ∷ bs) = do
  next ← decode_byte p b
  rest ← decode_from next.1 bs
  ok (emit next.0 rest)

unfoldable pub decode : List ℕ → Result (List ℕ)
decode bytes = decode_from no_pending bytes

abbrev tail_byte : ℕ → ℕ
tail_byte c = 0x80 + c % 64

unfoldable pub encode_char : ℕ → Result (List ℕ)
encode_char c =
    if ltb c 0x80
    then ok (c ∷ [])
    else if ltb c 0x800
    then ok ((0xc0 + c / 64) ∷ tail_byte c ∷ [])
    else if is_between 0xd800 0xdfff c || not (ltb c 0x110000)
    then err "UnicodeEncodeError"
    else if ltb c 0x10000
    then ok ((0xe0 + c / 4096) ∷ tail_byte (c / 64) ∷ tail_byte c ∷ [])
    else ok ((0xf0 + c / 262144) ∷ tail_byte (c / 4096) ∷ tail_byte (c / 64) ∷ tail_byte c ∷ [])

unfoldable pub encode : List ℕ → Result (List ℕ)
encode [] = ok []
encode (c ∷ cs) = do bytes ← encode_char c; rest ← encode cs; ok (bytes ++ rest)
