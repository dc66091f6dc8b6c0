-- ===== src/Jdk/Entries.antt =====
-- scripts/jdk.py: `extract`, how the members of an archive become entries.
use artbox.Base.{ℕ, ◌/◌, ◌%◌, ◌==◌, if◌then◌else◌, Bool, false, List, [], ◌∷◌, Result, ok, ◌>>=◌}
use artbox.Base.Int.{ℤ, pos}
use artbox.Base.Utf8.{decode}
use artbox.Jdk.{EntryKind, Entry}

-- What the code reads of a `zipfile.ZipInfo`.
pub record ZipMember : Type 0 where
  pub filename : List ℕ
  pub external_attr : ℕ
  pub file_size : ℕ
  pub content : List ℕ

unfoldable pub ends_in : ℕ → List ℕ → Bool
ends_in c [] = false
ends_in c (d ∷ []) = d == c
ends_in c (d ∷ e ∷ es) = ends_in c (e ∷ es)

-- `stat.S_ISLNK(mode)`
abbrev pub is_link_mode : ℕ → Bool
is_link_mode mode = mode / 4096 % 16 == 10

unfoldable pub zip_entry : ZipMember → Result Entry
zip_entry member =
    let mode = member.external_attr / 65536 in
    if ends_in 47 member.filename
    then ok (record {
      name = member.filename;
      kind = EntryKind.directory;
      mode = mode;
      size = pos 0;
      content = [];
      target = [];
    })
    else if is_link_mode mode
    then (decode member.content >>= λ target. ok (record {
      name = member.filename;
      kind = EntryKind.link;
      mode = mode;
      size = pos 0;
      content = [];
      target = target;
    }))
    else ok (record {
      name = member.filename;
      kind = EntryKind.file;
      mode = mode;
      size = pos member.file_size;
      content = member.content;
      target = [];
    })

-- What the code reads of a `tarfile.TarInfo`: its tests, and its content.
pub record TarMember : Type 0 where
  pub name : List ℕ
  pub is_file : Bool
  pub is_dir : Bool
  pub is_sym : Bool
  pub is_lnk : Bool
  pub mode : ℕ
  pub size : ℤ
  pub content : List ℕ
  pub linkname : List ℕ

unfoldable pub tar_entry : TarMember → Entry
tar_entry member = record {
  name = member.name;
  kind =
      if member.is_file
      then EntryKind.file
      else if member.is_dir
      then EntryKind.directory
      else if member.is_sym
      then EntryKind.link
      else if member.is_lnk
      then EntryKind.hardlink
      else EntryKind.unsupported;
  mode = member.mode;
  size = member.size;
  content = if member.is_file then member.content else [];
  target = if member.is_file then [] else member.linkname;
}

unfoldable pub zip_entries : List ZipMember → Result (List Entry)
zip_entries [] = ok []
zip_entries (m ∷ ms) = do e ← zip_entry m; rest ← zip_entries ms; ok (e ∷ rest)

unfoldable pub tar_entries : List TarMember → List Entry
tar_entries [] = []
tar_entries (m ∷ ms) = tar_entry m ∷ tar_entries ms
