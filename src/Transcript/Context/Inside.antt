-- ===== src/Transcript/Context/Inside.antt =====
-- The paths that worktree_relative gives lie in the worktree.
use volute.Prelude.{
  ◌≡◌, refl, ap, sym, true, some, List, [], ◌∷◌, ◌++◌, map, >>=-eq-some, if-eq-some, some-eq,
  Bool-cases, inl, inr,
}
use volute.Bytes.{Bytes}
use volute.Bytes.Laws.{bytes_eq→≡}
use volute.Transcript.Context.{
  Component, root_dir, cur_dir, parent_dir, normal, component_eq, components, is_absolute,
  strip_path, resolve, names_of, rendered, relative_names, relative_path, worktree_relative,
}

component_eq→≡ : (a b : Component) → component_eq a b ≡ true → a ≡ b
unfolding component_eq
component_eq→≡ root_dir root_dir h = refl
component_eq→≡ cur_dir cur_dir h = refl
component_eq→≡ parent_dir parent_dir h = refl
component_eq→≡ (normal a) (normal b) h = ap normal (bytes_eq→≡ a b h)
component_eq→≡ root_dir cur_dir h = cc
component_eq→≡ root_dir parent_dir h = cc
component_eq→≡ root_dir (normal b) h = cc
component_eq→≡ cur_dir root_dir h = cc
component_eq→≡ cur_dir parent_dir h = cc
component_eq→≡ cur_dir (normal b) h = cc
component_eq→≡ parent_dir root_dir h = cc
component_eq→≡ parent_dir cur_dir h = cc
component_eq→≡ parent_dir (normal b) h = cc
component_eq→≡ (normal a) root_dir h = cc
component_eq→≡ (normal a) cur_dir h = cc
component_eq→≡ (normal a) parent_dir h = cc

strip_path→append :
    (base path rest : List Component) → strip_path base path ≡ some rest → path ≡ base ++ rest
unfolding strip_path
strip_path→append [] path rest h = some-eq h
strip_path→append (b ∷ base) [] rest h = cc
strip_path→append (b ∷ base) (c ∷ path) rest h = elim (Bool-cases (component_eq b c)) [
  | inl same ↦
      rw (component_eq→≡ b c same) (ap (◌∷◌ c) (strip_path→append base path rest (rw same at h)))
  | inr other ↦ let e = rw other at h in absurd cc
]

names_of-map :
    (cs : List Component) (names : List Bytes) → names_of cs ≡ some names → cs ≡ map normal names
unfolding names_of
names_of-map [] names h = ap (map normal) (some-eq h)
names_of-map (normal name ∷ cs) names h =
    let (more, at, e) = >>=-eq-some (names_of cs) _ h in
    rw (← some-eq e) (ap (◌∷◌ (normal name)) (names_of-map cs more at))
names_of-map (root_dir ∷ cs) names h = cc
names_of-map (cur_dir ∷ cs) names h = cc
names_of-map (parent_dir ∷ cs) names h = cc

-- The text names a path in the worktree: one below its root, whose further components are names, none
-- of them `..`, of which there is one at least.
abbrev pub IsInside : List Component → List Component → Bytes → Type 0
IsInside worktree_root path text =
    (name : Bytes) × (names : List Bytes) × (path ≡ worktree_root ++ map normal (name ∷ names))
    × (text ≡ rendered (name ∷ names))

IsInside-named :
    (worktree_root : List Component) (c : Component) (cs : List Component) (names : List Bytes)
    (text : Bytes)
    → (c ∷ cs) ≡ map normal names
    → rendered names ≡ text
    → IsInside worktree_root (worktree_root ++ c ∷ cs) text
IsInside-named worktree_root c cs [] text e r = cc
IsInside-named worktree_root c cs (name ∷ names) text e r =
    (name, names, ap (λ cs. worktree_root ++ cs) e, sym r)

relative_names-IsInside :
    (worktree_root rest : List Component) (text : Bytes)
    → relative_names rest ≡ some text
    → IsInside worktree_root (worktree_root ++ rest) text
unfolding relative_names
relative_names-IsInside worktree_root [] text h = cc
relative_names-IsInside worktree_root (c ∷ cs) text h =
    let (names, at, e) = >>=-eq-some (names_of (c ∷ cs)) _ h in
    IsInside-named worktree_root c cs names text (names_of-map (c ∷ cs) names at) (some-eq e)

-- What worktree_relative gives names a path in the worktree: the path itself if it is there, or what
-- an alias makes of it. A path that is not absolute gives none.
pub worktree_relative-IsInside :
    (raw : Bytes) (worktree_root : List Component)
    (path_aliases : List (List Component × List Component)) (text : Bytes)
    → worktree_relative raw worktree_root path_aliases ≡ some text
    → (is_absolute (components raw) ≡ true)
      × ((path : List Component) × ((resolve (components raw) worktree_root path_aliases
              ≡ some path)
            × IsInside worktree_root path text))
unfolding worktree_relative relative_path
worktree_relative-IsInside raw worktree_root path_aliases text h =
    let (absolute, found) = if-eq-some (is_absolute (components raw)) _ h in
    let (path, resolved, more) =
      >>=-eq-some (resolve (components raw) worktree_root path_aliases) _ found in
    let (rest, stripped, named) = >>=-eq-some (strip_path worktree_root path) _ more in
    (
      absolute,
      (
        path,
        (
          resolved,
          rw (strip_path→append worktree_root path rest stripped)
              (relative_names-IsInside worktree_root rest text named),
        ),
      ),
    )
