-- ===== src/Domain/Command/Directory.antt =====
-- What an accepted working directory looks like.
use alicerce.Prelude.{
  ℕ, ◌≡◌, ◌≢◌, refl, ◌⊎◌, inl, inr, Bool, true, false, not, ◌||◌, List, [], ◌∷◌, ◌==◌, ==_iff,
  eq→path, elem, all, select, All, All-mono, all→All, Text, text, nul, slash, backslash, nat_eq,
  list_eq, arith, Bool-cases,
}
use alicerce.Errors.{ok}
use alicerce.Domain.Paths.{split, join, prepend, is_part, parts, as_posix}
use alicerce.Domain.Command.{WorkingDirectory, is_unsafe_directory, new_working_directory}

-- A name in a directory: it neither stays, nor climbs, nor hides a separator.
pub record IsComponent (p : Text) : Type 0 where
  pub some_text : p ≢ []
  pub not_here : p ≢ text "."
  pub not_above : p ≢ text ".."
  pub no_slash : elem slash p ≡ false

abbrev NoSlash : Text → Type 0
NoSlash p = elem slash p ≡ false

slash_other : (c : ℕ) → (c == slash) ≡ false → (slash == c) ≡ false
slash_other c h = ground (arith, ==_iff c slash, ==_iff slash c)

prepend-All :
    (c : ℕ) (ps : List Text) → (c == slash) ≡ false → All NoSlash ps → All NoSlash (prepend c ps)
unfolding elem
prepend-All c [] h a = (rw (slash_other c h), tt)
prepend-All c (p ∷ ps) h a = (rw (slash_other c h) a.0, a.1)

split-All : (t : Text) → All NoSlash (split t)
unfolding split elem
split-All [] = (refl, tt)
split-All (c ∷ cs) = elim (Bool-cases (c == slash)) [
  | inl same ↦ rw same (refl, split-All cs)
  | inr other ↦ rw other (prepend-All c (split cs) other (split-All cs))
]

All-select :
    (P : Text → Type 0) (p : Text → Bool) (xs : List Text)
    → All P xs
    → All (λ x. P x × (p x ≡ true)) (select p xs)
All-select P p [] a = tt
All-select P p (x ∷ xs) a = elim (Bool-cases (p x)) [
  | inl taken ↦ rw taken ((a.0, taken), All-select P p xs a.1)
  | inr left ↦ rw left (All-select P p xs a.1)
]

All-both : (P Q : Text → Type 0) (xs : List Text) → All P xs → All Q xs → All (λ x. P x × Q x) xs
All-both P Q [] a b = tt
All-both P Q (x ∷ xs) a b = ((a.0, b.0), All-both P Q xs a.1 b.1)

ne : (p q : Text) → (p == q) ≡ false → p ≢ q
ne p q h same = ground (arith, ==_iff p q)

safe_part : Text → Bool
safe_part part = not (part == text "." || part == text "..")

component : (p : Text) → ((NoSlash p × (is_part p ≡ true)) × (safe_part p ≡ true)) → IsComponent p
unfolding is_part safe_part
component p ((plain, part), safe) = record {
  some_text = ne p [] (ground arith);
  not_here = ne p (text ".") (ground arith);
  not_above = ne p (text "..") (ground arith);
  no_slash = plain;
}

parts_are_components : (v : Text) → all safe_part (parts v) ≡ true → All IsComponent (parts v)
unfolding parts
parts_are_components v safe = All-mono component (parts v) (
    All-both (λ p. NoSlash p × (is_part p ≡ true)) (λ p. safe_part p ≡ true) (parts v)
      (All-select NoSlash is_part (split v) (split-All v)) (all→All safe_part (parts v) safe))

-- The tests that an accepted directory other than "." has passed.
record IsSafe (v : Text) : Type 0 where
  no_nul : elem nul v ≡ false
  no_backslash : elem backslash v ≡ false
  normal : (as_posix v == v) ≡ true
  components : all safe_part (parts v) ≡ true

tests_passed : (v : Text) → is_unsafe_directory v ≡ false → IsSafe v
unfolding is_unsafe_directory safe_part
tests_passed v h = record {
  no_nul = ground arith;
  no_backslash = ground arith;
  normal = ground arith;
  components = ground arith;
}

rejoins : (v : Text) → (v == text ".") ≡ false → (as_posix v == v) ≡ true → join (parts v) ≡ v
unfolding as_posix
rejoins v other normal = elim (Bool-cases (parts v == [])) [
  | inl empty ↦
      let same : (text "." == v) ≡ true = rw empty at normal in
      absurd (ground (arith, ==_iff (text ".") v, ==_iff v (text ".")))
  | inr several ↦
      let same : (join (parts v) == v) ≡ true = rw several at normal in
      eq→path (join (parts v)) v same
]

accepted :
    (v : Text) (d : WorkingDirectory)
    → (v == text ".") ≡ false
    → new_working_directory v ≡ ok d
    → (is_unsafe_directory v ≡ false) × (d.value ≡ v)
unfolding new_working_directory
accepted v d other h = ground arith

kept : (v : Text) (d : WorkingDirectory) → new_working_directory v ≡ ok d → d.value ≡ v
unfolding new_working_directory
kept v d h = ground arith

-- An accepted working directory is ".", or the parts that it is read as, joined by slashes: each is
-- a name, not empty, "." or "..", without a slash; it holds no NUL and no backslash.
pub new_working_directory-components :
    (v : Text) (d : WorkingDirectory)
    → new_working_directory v ≡ ok d
    → (d.value ≡ v)
      × ((v ≡ text ".")
          ⊎ (All IsComponent (parts v)
              × (join (parts v) ≡ v)
              × (elem nul v ≡ false)
              × (elem backslash v ≡ false)))
new_working_directory-components v d h = elim (Bool-cases (v == text ".")) [
  | inl here ↦ (kept v d h, inl (eq→path v (text ".") here))
  | inr other ↦
      let (safe, value) = accepted v d other h in
      let tests = tests_passed v safe in
      (
        value,
        inr (
          parts_are_components v tests.components,
          rejoins v other tests.normal,
          tests.no_nul,
          tests.no_backslash,
        ),
      )
]
