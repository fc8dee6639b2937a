-- ===== src/Tests/Directory.antt =====
-- A working directory of two names.
use alicerce.Prelude.{
  false, ◌≡◌, refl, ◌⊎◌, All, elem, text, nul, backslash, ◌==◌, list_eq, nat_eq, list-discrete,
  ℕ_discrete,
}
use alicerce.Errors.{ok}
use alicerce.Domain.Paths.{split, join, is_part, parts, as_posix, is_absolute}
use alicerce.Domain.Command.{WorkingDirectory, is_unsafe_directory, new_working_directory}
use alicerce.Domain.Command.Directory.{IsComponent, new_working_directory-components}

abbrev sources : WorkingDirectory
sources = record { value = text "src/app" }

accepts : new_working_directory (text "src/app") ≡ ok sources
unfolding new_working_directory is_unsafe_directory split join is_part parts as_posix is_absolute
    elem ◌==◌ list-discrete ℕ_discrete
accepts = refl

new_working_directory-components_example :
    (sources.value ≡ text "src/app")
    × ((text "src/app" ≡ text ".")
        ⊎ (All IsComponent (parts (text "src/app"))
            × (join (parts (text "src/app")) ≡ text "src/app")
            × (elem nul (text "src/app") ≡ false)
            × (elem backslash (text "src/app") ≡ false)))
new_working_directory-components_example =
    new_working_directory-components (text "src/app") sources accepts
