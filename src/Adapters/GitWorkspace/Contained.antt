-- ===== src/Adapters/GitWorkspace/Contained.antt =====
-- What a walk over a workspace's directories has seen of the links.
use alicerce.Prelude.{
  ℕ, zero, suc, ◌≡◌, Bool, true, false, not, List, [], ◌∷◌, ◌++◌, ◌==◌, Text, text, nat_eq, list_eq,
  select, arith, if◌then◌else◌,
}
use mathlib.Core.Path.{subst}
use alicerce.Errors.{ok, raise_if, ok_injective, raise_if-not_passed}
use alicerce.Adapters.FileSystem.{HostPath, is_relative_to}
use alicerce.Adapters.Host.{Action, ◌>>=◌, ◌>>◌, lift, rethrow, action_ok, rethrow_ok, lift_ok}
use alicerce.Adapters.GitWorkspace.Checks.{
  WorkspaceHost, isolation, isolation_of_os, storage_of_os, max_depth, remove, check_names,
  without_links, visit_all, walk, validate_symlinks,
}

module _ ⦃host : WorkspaceHost⦄ (workspace : HostPath) where
  -- The names of a directory, the directories to descend into before the links among them are left
  -- out, and after: a name is no link, or one that resolves to a path in the workspace.
  pub data NamesContained (current : HostPath) : List Text → List Text → List Text → Type 0 where
    finished : {directories : List Text} → NamesContained current [] directories directories
    plain :
        {name : Text} {names directories kept : List Text} (before after : host.World)
        → host.is_symlink (current ++ name ∷ []) before ≡ (ok false, after)
        → NamesContained current names directories kept
        → NamesContained current (name ∷ names) directories kept
    link :
        {name : Text} {names directories kept : List Text} (target : HostPath)
        (before between after : host.World)
        → host.is_symlink (current ++ name ∷ []) before ≡ (ok true, between)
        → host.resolve (current ++ name ∷ []) between ≡ (ok target, after)
        → is_relative_to target workspace ≡ true
        → NamesContained current names (remove name directories) kept
        → NamesContained current (name ∷ names) directories kept

  -- The directories of those names, less what has become a link.
  pub data Descends (current : HostPath) : List Text → List HostPath → Type 0 where
    finished : Descends current [] []
    below :
        {name : Text} {names : List Text} {paths : List HostPath} (before after : host.World)
        → host.is_symlink (current ++ name ∷ []) before ≡ (ok false, after)
        → Descends current names paths
        → Descends current (name ∷ names) ((current ++ name ∷ []) ∷ paths)
    passed_by :
        {name : Text} {names : List Text} {paths : List HostPath} (before after : host.World)
        → host.is_symlink (current ++ name ∷ []) before ≡ (ok true, after)
        → Descends current names paths
        → Descends current (name ∷ names) paths

  -- What is listed in the workspace itself, but for git's own directory.
  abbrev pub directories_of : HostPath → List Text → List Text
  directories_of current listed =
      if current == workspace then select (λ name. not (name == text ".git")) listed else listed

  -- Directories that are contained with all that is below them.
  pub data TreesContained : List HostPath → Type 0 where
    finished : TreesContained []
    visited :
        {current : HostPath} {others : List HostPath} (listed filenames kept : List Text)
        (children : List HostPath) (before after : host.World)
        → host.scan current before ≡ (ok (listed, filenames), after)
        → NamesContained current
            (directories_of current listed ++ filenames)
            (directories_of current listed)
            kept
        → Descends current kept children
        → TreesContained children
        → TreesContained others
        → TreesContained (current ∷ others)

  of_name :
      (current : HostPath) (name : Text) (names directories kept : List Text) (is_link : Bool)
      (w0 w1 last : host.World)
      → ((ds : List Text) (w : host.World)
          → check_names workspace current names ds w ≡ (ok kept, last)
          → NamesContained current names ds kept)
      → host.is_symlink (current ++ name ∷ []) w0 ≡ (ok is_link, w1)
      → (if is_link
            then (do
              target ← rethrow isolation_of_os (host.resolve (current ++ name ∷ []))
              lift (raise_if (not (is_relative_to target workspace)) isolation)
              check_names workspace current names (remove name directories))
            else check_names workspace current names directories)
          w1
        ≡ (ok kept, last)
      → NamesContained current (name ∷ names) directories kept
  of_name current name names directories kept false w0 w1 last ih asked h =
      plain w0 w1 asked (ih directories w1 h)
  of_name current name names directories kept true w0 w1 last ih asked h =
      let resolving = host.resolve (current ++ name ∷ []) in
      let (target, w2, resolved, h2) = action_ok (rethrow isolation_of_os resolving) _ w1 h in
      let (_, w3, inside, h3) =
        action_ok (lift (raise_if (not (is_relative_to target workspace)) isolation)) _ w2 h2 in
      link target w0 w1 w2 asked (rethrow_ok isolation_of_os resolving w1 resolved)
        (raise_if-not_passed (is_relative_to target workspace) isolation (lift_ok _ w2 inside))
        (ih (remove name directories) w3 h3)

  check_names_sound :
      (current : HostPath) (names directories kept : List Text) (world last : host.World)
      → check_names workspace current names directories world ≡ (ok kept, last)
      → NamesContained current names directories kept
  unfolding check_names
  check_names_sound current [] directories kept world last h =
      subst (NamesContained current [] directories)
        (ok_injective (lift_ok (ok directories) world h)) finished
  check_names_sound current (name ∷ names) directories kept world last h =
      let (is_link, w1, asked, h1) = action_ok (host.is_symlink (current ++ name ∷ [])) _ world h in
      of_name current name names directories kept is_link world w1 last
        (λ ds w. check_names_sound current names ds kept w last) asked h1

  of_child :
      (current : HostPath) (name : Text) (names : List Text) (rest paths : List HostPath)
      (is_link : Bool) (w0 w1 : host.World)
      → host.is_symlink (current ++ name ∷ []) w0 ≡ (ok is_link, w1)
      → Descends current names rest
      → (if is_link then rest else (current ++ name ∷ []) ∷ rest) ≡ paths
      → Descends current (name ∷ names) paths
  of_child current name names rest paths false w0 w1 asked below_rest same =
      subst (Descends current (name ∷ names)) same (below w0 w1 asked below_rest)
  of_child current name names rest paths true w0 w1 asked below_rest same =
      subst (Descends current (name ∷ names)) same (passed_by w0 w1 asked below_rest)

  without_links_sound :
      (current : HostPath) (names : List Text) (paths : List HostPath) (world last : host.World)
      → without_links current names world ≡ (ok paths, last)
      → Descends current names paths
  unfolding without_links
  without_links_sound current [] paths world last h =
      subst (Descends current []) (ok_injective (lift_ok (ok []) world h)) finished
  without_links_sound current (name ∷ names) paths world last h =
      let (is_link, w1, asked, h1) = action_ok (host.is_symlink (current ++ name ∷ [])) _ world h in
      let (rest, w2, found, h2) = action_ok (without_links current names) _ w1 h1 in
      of_child current name names rest paths is_link world w1 asked
        (without_links_sound current names rest w1 w2 found) (ok_injective (lift_ok (ok _) w2 h2))

  visit_all_sound :
      (visit : HostPath → Action host.World (Unit {0}))
      → ((current : HostPath) (others : List HostPath) (world last : host.World)
          → visit current world ≡ (ok tt, last)
          → TreesContained others
          → TreesContained (current ∷ others))
      → (paths : List HostPath) (world last : host.World)
      → visit_all visit paths world ≡ (ok tt, last)
      → TreesContained paths
  unfolding visit_all
  visit_all_sound visit ih [] world last h = finished
  visit_all_sound visit ih (path ∷ paths) world last h =
      let (_, w1, first, h1) = action_ok (visit path) _ world h in
      ih path paths world w1 first (visit_all_sound visit ih paths w1 last h1)

  walk_sound :
      (depth : ℕ) (current : HostPath) (others : List HostPath) (world last : host.World)
      → walk depth workspace current world ≡ (ok tt, last)
      → TreesContained others
      → TreesContained (current ∷ others)
  unfolding walk
  walk_sound zero current others world last h rest = absurd (ground arith)
  walk_sound (suc depth) current others world last h rest =
      let ((listed, filenames), w1, scanned, h1) =
        action_ok (rethrow storage_of_os (host.scan current)) _ world h in
      let directories = directories_of current listed in
      let (kept, w2, checked, h2) =
        action_ok (check_names workspace current (directories ++ filenames) directories) _ w1 h1 in
      let (children, w3, descended, h3) = action_ok (without_links current kept) _ w2 h2 in
      visited listed filenames kept children world w1
        (rethrow_ok storage_of_os (host.scan current) world scanned)
        (check_names_sound current (directories ++ filenames) directories kept w1 w2 checked)
        (without_links_sound current kept children w2 w3 descended)
        (visit_all_sound (walk depth workspace) (walk_sound depth) children w3 last h3) rest

  pub validate_symlinks_sound :
      (world last : host.World)
      → validate_symlinks workspace world ≡ (ok tt, last)
      → TreesContained (workspace ∷ [])
  unfolding validate_symlinks
  validate_symlinks_sound world last h = walk_sound max_depth workspace [] world last h finished
