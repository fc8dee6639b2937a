-- ===== src/Domain/Paths.antt =====
-- What domain/command.py uses of `PurePosixPath`: the parts of a path and its normal form.
use alicerce.Prelude.{
  ℕ, Bool, false, not, ◌||◌, List, [], ◌∷◌, ◌++◌, ◌==◌, select, Text, text, slash, nat_eq, list_eq,
  if◌then◌else◌,
}

abbrev pub prepend : ℕ → List Text → List Text
prepend c [] = (c ∷ []) ∷ []
prepend c (p ∷ ps) = (c ∷ p) ∷ ps

-- `t.split("/")`
unfoldable pub split : Text → List Text
split [] = [] ∷ []
split (c ∷ cs) = let rest = split cs in if c == slash then [] ∷ rest else prepend c rest

-- `"/".join(ps)`
unfoldable pub join : List Text → Text
join [] = []
join (p ∷ []) = p
join (p ∷ q ∷ ps) = p ++ slash ∷ join (q ∷ ps)

-- The empty parts and the parts "." carry no meaning.
unfoldable pub is_part : Text → Bool
is_part p = not (p == [] || p == text ".")

-- `PurePosixPath(t).parts` of a relative path
unfoldable pub parts : Text → List Text
unfolding split is_part
parts t = select is_part (split t)

-- `PurePosixPath(t).as_posix()` of a relative path
unfoldable pub as_posix : Text → Text
unfolding parts join
as_posix t = let ps = parts t in if ps == [] then text "." else join ps

unfoldable pub is_absolute : Text → Bool
is_absolute [] = false
is_absolute (c ∷ _) = c == slash
