-- ===== src/PackElf/Macho/Tests.antt =====
-- tools/pack_elf.py: `macho` on a payload of one instruction.
use artbox.Base.{ℕ, true, List, [], ◌∷◌, ok, ◌≡◌, arith}
use artbox.PackElf.Macho.{macho}
use artbox.PackElf.Macho.Commands.{macho_total}

-- RET
abbrev payload : List ℕ
payload = 0xc0 ∷ 0x03 ∷ 0x5f ∷ 0xd6 ∷ []

abbrev made : (out : List ℕ) × (macho payload true ≡ ok out)
made = let (out, e, _, _) = macho_total payload true (omega arith) in (out, e)
