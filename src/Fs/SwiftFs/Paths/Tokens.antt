-- ===== src/Fs/SwiftFs/Paths/Tokens.antt =====
-- path_next: the names of a path.
use swift_bsd.Prelude.{
  ℕ, zero, suc, ◌≤◌, ◌<◌, ◌≡◌, ◌≢◌, refl, sym, ap, inl, inr, ◌⊎◌, arith, true, Option, none, some,
  List, [], ◌∷◌, ◌++◌, ◌==◌, length, Bool-cases,
}
use swift_bsd.Fs.SwiftFs.Paths.{slash, skip_slashes, split_name, next_of, path_next}

-- every byte of a list is a slash, or none is
unfoldable pub AllSlashes : List ℕ → Type 0
AllSlashes [] = true ≡ true
AllSlashes (c ∷ cs) = (c ≡ slash) × AllSlashes cs

unfoldable pub NoSlash : List ℕ → Type 0
NoSlash [] = true ≡ true
NoSlash (c ∷ cs) = (c ≢ slash) × NoSlash cs

-- A name stops here: at a slash, or where the path ends.
unfoldable pub Stops : List ℕ → Type 0
Stops [] = true ≡ true
Stops (c ∷ cs) = c ≡ slash

-- what path_next gives of a path
pub Token : List ℕ → Option (List ℕ × List ℕ) → Type 0
Token path none = AllSlashes path
Token path (some (name, rest)) =
    (front : List ℕ) × (path ≡ front ++ (name ++ rest))
    × AllSlashes front
    × NoSlash name
    × (0 < length name)
    × (length name ≤ 254)
    × ((length name ≡ 254) ⊎ Stops rest)

split_name-append : (n : ℕ) (cs : List ℕ) → (split_name n cs).0 ++ (split_name n cs).1 ≡ cs
unfolding split_name
split_name-append zero cs = refl
split_name-append (suc n) [] = refl
split_name-append (suc n) (c ∷ cs) = elim (Bool-cases (c == slash)) [
  | inl at ↦ rw at refl
  | inr other ↦ rw other (ap (λ xs. c ∷ xs) (split_name-append n cs))
]

split_name-NoSlash : (n : ℕ) (cs : List ℕ) → NoSlash (split_name n cs).0
unfolding split_name NoSlash
split_name-NoSlash zero cs = refl
split_name-NoSlash (suc n) [] = refl
split_name-NoSlash (suc n) (c ∷ cs) = elim (Bool-cases (c == slash)) [
  | inl at ↦ rw at refl
  | inr other ↦ rw other (ground arith, split_name-NoSlash n cs)
]

split_name-bound : (n : ℕ) (cs : List ℕ) → length (split_name n cs).0 ≤ n
unfolding split_name
split_name-bound zero cs = omega arith
split_name-bound (suc n) [] = omega arith
split_name-bound (suc n) (c ∷ cs) = ground (arith, split_name-bound n cs)

split_name-Stops :
    (n : ℕ) (cs : List ℕ) → (length (split_name n cs).0 ≡ n) ⊎ Stops (split_name n cs).1
unfolding split_name Stops
split_name-Stops zero cs = inl refl
split_name-Stops (suc n) [] = inr refl
split_name-Stops (suc n) (c ∷ cs) = elim (Bool-cases (c == slash)) [
  | inl at ↦ rw at (inr (ground arith))
  | inr other ↦ rw other (elim (split_name-Stops n cs) [
    | inl full ↦ inl (omega (arith, full))
    | inr stops ↦ inr stops
  ])
]

split_name-nonempty :
    (n c : ℕ) (cs : List ℕ) → c ≢ slash → 0 < length (split_name (suc n) (c ∷ cs)).0
unfolding split_name
split_name-nonempty n c cs ne = ground arith

next_of-Token : (c : ℕ) (cs : List ℕ) → c ≢ slash → Token (c ∷ cs) (next_of (c ∷ cs))
unfolding Token AllSlashes
next_of-Token c cs ne = (
  [],
  sym (split_name-append 254 (c ∷ cs)),
  refl,
  split_name-NoSlash 254 (c ∷ cs),
  split_name-nonempty 253 c cs ne,
  split_name-bound 254 (c ∷ cs),
  split_name-Stops 254 (c ∷ cs),
)

more_slash :
    (c : ℕ) (cs : List ℕ) (r : Option (List ℕ × List ℕ)) → c ≡ slash → Token cs r → Token (c ∷ cs) r
unfolding Token AllSlashes
more_slash c cs none at h = (at, h)
more_slash c cs (some (name, rest)) at (front, e, all, free, some_bytes, short, ends) =
    (c ∷ front, ap (λ xs. c ∷ xs) e, (at, all), free, some_bytes, short, ends)

-- path_next passes over the slashes in front and gives the name that follows, of 1 to 254 bytes without a
-- slash, with the rest of the path, from the byte behind the name on. A name of less than 254 bytes ends where the path ends or at a slash.
-- There is no name if the path has only slashes.
pub path_next-Token : (path : List ℕ) → Token path (path_next path)
unfolding path_next skip_slashes Token AllSlashes
path_next-Token [] = refl
path_next-Token (c ∷ cs) = elim (Bool-cases (c == slash)) [
  | inl at ↦ rw at (more_slash c cs (path_next cs) (ground arith) (path_next-Token cs))
  | inr other ↦ rw other (next_of-Token c cs (ground arith))
]
