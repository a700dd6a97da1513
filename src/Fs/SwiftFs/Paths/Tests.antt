-- ===== src/Fs/SwiftFs/Paths/Tests.antt =====
-- Tests of path_next of src/kernel/fs/swiftfs2.c.
use swift_bsd.Prelude.{ℕ, ◌≡◌, refl, some, [], ◌∷◌, List}
use swift_bsd.Fs.SwiftFs.Paths.{path_next, skip_slashes, split_name}
use swift_bsd.Fs.SwiftFs.Paths.Tokens.{Token, path_next-Token}

-- "//ab/c"
abbrev two_names : List ℕ
two_names = 47 ∷ 47 ∷ 97 ∷ 98 ∷ 47 ∷ 99 ∷ []

first_name : path_next two_names ≡ some (97 ∷ 98 ∷ [], 47 ∷ 99 ∷ [])
unfolding path_next skip_slashes split_name
first_name = refl

path_next-Token_example : Token two_names (path_next two_names)
path_next-Token_example = path_next-Token two_names
