-- ===== src/Fs/SwiftFs/Cache/View.antt =====
-- What the cache and the disk together say a block holds. Every caller passes group 0.
use swift_bsd.Prelude.{
  ℕ, ◌<◌, ◌≡◌, ◌≢◌, ◌⊎◌, inl, inr, refl, sym, ap, ◌∙◌, arith, true, false, Option, none, some,
  find_first-Found, find_first-none, Found, Option-cases,
}
use swift_bsd.Fs.SwiftFs.Cache.{Data, cache_size, Cache, caches, cache_lookup, clear_cache}

-- The invariant: entries belong to group 0, no block is in two of them, only valid entries are dirty,
-- and one that is not dirty holds what the disk holds.
pub record IsCoherent (c : Cache) : Type 0 where
  pub next_in : c.next < cache_size
  pub group_zero : (i : ℕ) → i < cache_size → (c.entries i).valid ≡ true → (c.entries i).group ≡ 0
  pub dirty_valid :
      (i : ℕ) → i < cache_size → (c.entries i).dirty ≡ true → (c.entries i).valid ≡ true
  pub once :
      (i j : ℕ)
      → i < cache_size
      → j < cache_size
      → (c.entries i).valid ≡ true
      → (c.entries j).valid ≡ true
      → (c.entries i).block ≡ (c.entries j).block
      → i ≡ j
  pub clean :
      (i : ℕ)
      → i < cache_size
      → (c.entries i).valid ≡ true
      → (c.entries i).dirty ≡ false
      → (c.entries i).bytes ≡ c.disk (c.entries i).block

-- An entry holds block `b`.
pub record Holds (c : Cache) (b i : ℕ) : Type 0 where
  pub inside : i < cache_size
  pub valid : (c.entries i).valid ≡ true
  pub block : (c.entries i).block ≡ b

abbrev pub Absent : Cache → ℕ → Type 0
Absent c b = (i : ℕ) → i < cache_size → (c.entries i).valid ≡ true → (c.entries i).block ≢ b

abbrev view_at : Cache → ℕ → Option ℕ → Data
view_at c b none = c.disk b
view_at c b (some i) = (c.entries i).bytes

-- the bytes of block `b`: those of its entry, or those on the disk
pub view : Cache → ℕ → Data
view c b = view_at c b (cache_lookup b 0 c)

module _ {c : Cache} (v : IsCoherent c) where
  pub lookup-Holds : {b i : ℕ} → cache_lookup b 0 c ≡ some i → Holds c b i
  unfolding cache_lookup
  lookup-Holds {b} {i} e =
      let f : Found cache_size 0 (λ k. caches (c.entries k) b 0) i = find_first-Found _ _ _ e in
      record {
        inside = omega (arith, f.high);
        valid = ground (arith, f.passes);
        block = ground (arith, f.passes);
      }

  pub lookup-Absent : {b : ℕ} → cache_lookup b 0 c ≡ none → Absent c b
  unfolding cache_lookup
  lookup-Absent {b} e i inside valid at =
      let miss : caches (c.entries i) b 0 ≡ false =
        find_first-none _ _ _ e i (omega arith) (omega arith) in
      absurd (ground (arith, v.group_zero i))

  pub Holds-lookup : {b i : ℕ} → Holds c b i → cache_lookup b 0 c ≡ some i
  Holds-lookup {b} {i} h = elim (Option-cases (cache_lookup b 0 c)) [
    | inl absent ↦ absurd (lookup-Absent absent i h.inside h.valid h.block)
    | inr (j, found) ↦
        let g = lookup-Holds found in
        found ∙ ap some (v.once j i g.inside h.inside g.valid h.valid (g.block ∙ sym h.block))
  ]

  -- Only one entry can hold a block, so the search finds it.
  pub view-Holds : {b i : ℕ} → Holds c b i → view c b ≡ (c.entries i).bytes
  unfolding view
  view-Holds h = rw (Holds-lookup h) refl

  pub view-Absent : {b : ℕ} → Absent c b → view c b ≡ c.disk b
  unfolding view
  view-Absent {b} a = elim (Option-cases (cache_lookup b 0 c)) [
    | inl absent ↦ rw absent
    | inr (j, found) ↦ let g = lookup-Holds found in absurd (a j g.inside g.valid g.block)
  ]

  pub cases : (b : ℕ) → ((i : ℕ) × Holds c b i) ⊎ Absent c b
  cases b = elim (Option-cases (cache_lookup b 0 c)) [
    | inl absent ↦ inr (lookup-Absent absent)
    | inr (j, found) ↦ inl (j, lookup-Holds found)
  ]

-- A cache that swiftfs2_mount has just set up is coherent.
pub clear_cache-IsCoherent : (c : Cache) → IsCoherent (clear_cache c)
unfolding clear_cache
clear_cache-IsCoherent c = record {
  next_in = omega arith;
  group_zero = λ i p valid. absurd (ground arith);
  dirty_valid = λ i p dirty. absurd (ground arith);
  once = λ i j p q valid. absurd (ground arith);
  clean = λ i p valid. absurd (ground arith);
}
