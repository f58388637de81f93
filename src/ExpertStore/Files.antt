-- ===== src/ExpertStore/Files.antt =====
-- The files that the store tools read and write. A path names a file by what `resolve` makes of it,
-- so that two paths may name one file; a file is its bytes, or missing.
use in_c_test.Prelude.{
  ℕ, Option, none, some, [], ◌∷◌, ◌++◌, Result, ok, err, ◌==◌, list_eq, if◌then◌else◌,
}
use in_c_test.Struct.{Bytes}
use in_c_test.Text.{Str}
use in_c_test.ExpertStore.{StoreError, file_not_found}

pub record FilePath : Type 0 where
  pub parent : Str
  pub name : Str

abbrev pub Files : Type 0
Files = ℕ → Option Bytes

abbrev pub put : Files → ℕ → Bytes → Files
put fs i bytes j = if j == i then some bytes else fs j

-- The whole content of a file that has to be there.
abbrev pub opened : Option Bytes → Result StoreError Bytes
opened none = err file_not_found
opened (some bytes) = ok bytes

abbrev pub suffix_idx : Str
suffix_idx = b'.' ∷ b'i' ∷ b'd' ∷ b'x' ∷ []

abbrev pub suffix_mask : Str
suffix_mask = b'.' ∷ b'm' ∷ b'a' ∷ b's' ∷ b'k' ∷ []

abbrev pub onto_stem : ℕ → Option Str → Option Str
onto_stem c none = none
onto_stem c (some s) = some (c ∷ s)

-- What stands before ".idx" at the end of a name.
unfoldable pub stem_of : Str → Option Str
stem_of [] = none
stem_of (c ∷ s) =
    let rest = onto_stem c (stem_of s) in if list_eq (c ∷ s) suffix_idx then some [] else rest

-- A name that is only ".idx" has no suffix.
abbrev sidecar_name : Str → Option Str → Str
sidecar_name name none = name ++ suffix_mask
sidecar_name name (some []) = name ++ suffix_mask
sidecar_name name (some (c ∷ stem)) = (c ∷ stem) ++ suffix_mask

unfoldable pub mask_sidecar_path : FilePath → FilePath
unfolding stem_of
mask_sidecar_path p = record p { name = sidecar_name p.name (stem_of p.name) }
