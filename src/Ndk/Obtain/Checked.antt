-- ===== src/Ndk/Obtain/Checked.antt =====
-- scripts/ndk.py: what `obtain` has when it returns.
use artbox.Base.{ℕ, Bool, Option, none, some, List, ◌++◌, length, Result, ok, ◌≡◌, ◌⊎◌}
use artbox.Base.Text.{codes}
use artbox.Ndk.{NdkMember, Alias, Toolchain}
use artbox.Ndk.Extracted.{IsKit}
use artbox.Ndk.Obtain.{
  Archive, archive_of, NdkCache, Root, checked_root, properties_of, written_blocks,
}

-- The first component of what a function returned, and the second.
abbrev state_of : NdkCache × Result Root → NdkCache
state_of x = x.0

abbrev value_of_run : NdkCache × Result Root → Result Root
value_of_run x = x.1

-- `source.properties` names the revision.
abbrev pub IsChecked : Option (List ℕ) → Type 0
IsChecked bytes = checked_root bytes ≡ ok tt

module _ (sha1 sha256 : List ℕ → List ℕ) (download : List ℕ → Result (List (List ℕ)))
    (read : List ℕ → Result (List NdkMember)) (posix : Bool) (stays : List ℕ → Bool)
    (follow : List Alias → List ℕ → Result (List ℕ)) where
  -- The archive that is there, or the downloaded one, which is then in its place.
  unfoldable pub IsFetched : Archive → Option (List ℕ) → List ℕ → Type 0
  IsFetched pin archive bytes =
      (archive ≡ some bytes)
      ⊎ (blocks : List (List ℕ)) × (download pin.host ≡ ok blocks) × (written_blocks blocks ≡ bytes)

  -- An installation made from a verified archive.
  pub record IsInstalled (platform : List ℕ) (s after : NdkCache) : Type 0 where
    pub pin : Archive
    pub bytes : List ℕ
    pub members : List NdkMember
    pub kit : Toolchain
    pub known : archive_of platform ≡ some pin
    pub sized : length bytes ≡ pin.size
    pub hashed : sha1 bytes ≡ pin.sha1
    pub fetched : IsFetched pin s.archive bytes
    pub unpacked : read bytes ≡ ok members
    pub sound : IsKit follow stays members kit
    pub checked : IsChecked (properties_of kit)
    pub result :
        record {
          installed = some kit;
          archive = some bytes;
          sha256_note = some (sha256 bytes ++ codes "\n");
        }
        ≡ after

  -- The kit that was there, checked, and nothing changed.
  unfoldable pub IsKept : NdkCache → NdkCache → Type 0
  IsKept s after =
      (kit : Toolchain) × (s.installed ≡ some kit) × IsChecked (properties_of kit) × (s ≡ after)

  -- A configured root is only checked; otherwise the installation is kept or made.
  unfoldable pub IsObtained :
      (List ℕ → Option (List ℕ)) → List ℕ → Option (List ℕ) → NdkCache → NdkCache → Root → Type 0
  IsObtained properties platform chosen s after root =
      ((path : List ℕ) × (chosen ≡ some path)
        × (root ≡ Root.configured path)
        × IsChecked (properties path)
        × (s ≡ after))
      ⊎ ((chosen ≡ none)
          × (root ≡ Root.installed)
          × (IsKept s after ⊎ (s.installed ≡ none) × IsInstalled platform s after))
