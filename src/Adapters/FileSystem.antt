-- ===== src/Adapters/FileSystem.antt =====
-- Paths of the host as lists of their parts, and what the local adapters ask of `pathlib`.
use alicerce.Prelude.{
  Bool, true, false, ◌&&◌, ◌||◌, List, [], ◌∷◌, ◌++◌, ◌==◌, Text, nat_eq, list_eq, if◌then◌else◌,
}
use alicerce.Domain.Paths.{parts, is_absolute}

-- An absolute path.
abbrev pub HostPath : Type 0
HostPath = List Text

-- `path.is_relative_to(root)`
unfoldable pub is_relative_to : HostPath → HostPath → Bool
is_relative_to path [] = true
is_relative_to [] (part ∷ root) = false
is_relative_to (first ∷ path) (part ∷ root) = first == part && is_relative_to path root

-- `path / name`
unfoldable pub join_path : HostPath → Text → HostPath
join_path path name = if is_absolute name then parts name else path ++ parts name

-- `path.parent`
unfoldable pub parent : HostPath → HostPath
parent [] = []
parent (part ∷ []) = []
parent (part ∷ next ∷ rest) = part ∷ parent (next ∷ rest)

-- `_overlaps`
unfoldable pub overlaps : HostPath → HostPath → Bool
unfolding is_relative_to
overlaps left right = left == right || is_relative_to left right || is_relative_to right left
