-- ===== src/Domain/Patterns.antt =====
-- The regular expressions of the domain (src/alicerce/domain/*.py), each as the test that its
-- `fullmatch` makes, and `str.strip`.

use mathlib.Core.List.{reverse}
use alicerce.Prelude.{
  ℕ, Bool, false, ◌&&◌, ◌||◌, [], ◌∷◌, leb, if◌then◌else◌, length, all, Text, nat_eq, list_eq,
}

abbrev pub in_range : ℕ → ℕ → ℕ → Bool
in_range lo hi c = leb lo c && leb c hi

-- [a-z], [A-Z], [0-9]
abbrev pub is_lower : ℕ → Bool
is_lower = in_range b'a' b'z'

abbrev pub is_upper : ℕ → Bool
is_upper = in_range b'A' b'Z'

abbrev pub is_digit : ℕ → Bool
is_digit = in_range b'0' b'9'

abbrev pub same : ℕ → ℕ → Bool
same a b = leb a b && leb b a

-- [A-Za-z0-9]
abbrev pub is_alphanumeric : ℕ → Bool
is_alphanumeric c = is_upper c || is_lower c || is_digit c

-- [._-]
abbrev pub is_joiner : ℕ → Bool
is_joiner c = same c b'.' || same c b'_' || same c b'-'

-- [0-9a-f]
abbrev pub is_hex : ℕ → Bool
is_hex c = is_digit c || in_range b'a' b'f' c

-- `F R{0,n}\Z` for two character classes `F` and `R`
unfoldable pub matches_name : (ℕ → Bool) → (ℕ → Bool) → ℕ → Text → Bool
matches_name first rest n [] = false
matches_name first rest n (c ∷ cs) = first c && all rest cs && leb (length cs) n

-- `[0-9a-f]{n}\Z`
unfoldable pub matches_hex : ℕ → Text → Bool
matches_hex n t = all is_hex t && same (length t) n

unfoldable pub run_id_pattern : Text → Bool
unfolding matches_name
run_id_pattern = matches_name is_alphanumeric (λ c. is_alphanumeric c || is_joiner c) 127

unfoldable pub sha256_pattern : Text → Bool
unfolding matches_hex
sha256_pattern = matches_hex 64

unfoldable pub object_sha_pattern : Text → Bool
unfolding matches_hex
object_sha_pattern t = matches_hex 40 t || matches_hex 64 t

-- lifecycle actors and executable identifiers
unfoldable pub component_pattern : Text → Bool
unfolding matches_name
component_pattern = matches_name is_lower (λ c. is_lower c || is_digit c || is_joiner c) 63

unfoldable pub action_pattern : Text → Bool
unfolding matches_name
action_pattern =
    matches_name is_alphanumeric (λ c. is_alphanumeric c || is_joiner c || same c b':') 127

-- `[A-Za-z_][A-Za-z0-9_]*\Z`, with no bound
unfoldable pub environment_name_pattern : Text → Bool
environment_name_pattern [] = false
environment_name_pattern (c ∷ cs) =
    (is_upper c || is_lower c || same c b'_') && all (λ d. is_alphanumeric d || same d b'_') cs

-- The characters that `str.strip` removes.
unfoldable pub is_space : ℕ → Bool
is_space c =
    in_range 9 13 c
    || in_range 28 32 c
    || same c 0x85
    || same c 0xa0
    || same c 0x1680
    || in_range 0x2000 0x200a c
    || in_range 0x2028 0x2029 c
    || same c 0x202f
    || same c 0x205f
    || same c 0x3000

unfoldable pub lstrip : Text → Text
unfolding is_space
lstrip [] = []
lstrip (c ∷ cs) = let rest = lstrip cs in if is_space c then rest else c ∷ cs

unfoldable pub strip : Text → Text
unfolding lstrip
strip t = reverse (lstrip (reverse (lstrip t)))
