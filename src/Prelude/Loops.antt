-- ===== src/Prelude/Loops.antt =====
-- Counted loops: the first index that passes a test, and a loop that updates a state.
use Prim.Native.Nat.{ℕ, zero, suc, ◌+◌, ◌≤◌, ◌<◌}
use mathlib.Core.Path.{◌≡◌, subst}
use mathlib.Core.Logic.{inl, inr}
use mathlib.Core.Bool.{Bool, true, false}
use mathlib.Core.Option.{Option, none, some}
use native.Mathlib.Omega.{arith}
use swift_bsd.Prelude.Tests.{if◌then◌else◌, Bool-cases, ◌==◌}

-- `for (j = i; j < i + n; j++) if (test(j)) return j; return -1;`, with `none` for the -1.
unfoldable pub find_first : ℕ → ℕ → (ℕ → Bool) → Option ℕ
find_first zero i test = none
find_first (suc n) i test = let rest = find_first n (i + 1) test in if test i then some i else rest

-- What such a loop finds.
pub record Found (n i : ℕ) (test : ℕ → Bool) (j : ℕ) : Type 0 where
  pub low : i ≤ j
  pub high : j < i + n
  pub passes : test j ≡ true
  pub first : (k : ℕ) → i ≤ k → k < j → test k ≡ false

pub find_first-Found :
    (n i : ℕ) (test : ℕ → Bool) {j : ℕ} → find_first n i test ≡ some j → Found n i test j
unfolding find_first
find_first-Found zero i test e = absurd (cc)
find_first-Found (suc n) i test {j} e = elim (Bool-cases (test i)) [
  | inl hit ↦
      let at : i ≡ j = ground arith in
      record {
        low = omega arith;
        high = omega arith;
        passes = ground arith;
        first = λ k p q. absurd (omega arith);
      }
  | inr miss ↦
      let f : Found n (i + 1) test j = find_first-Found n (i + 1) test (ground arith) in
      record {
        low = omega arith;
        high = omega arith;
        passes = f.passes;
        first = λ k p q. elim (Bool-cases (i == k)) [
          | inl same ↦ ground arith
          | inr other ↦ f.first k (ground arith) q
        ];
      }
]

pub find_first-none :
    (n i : ℕ) (test : ℕ → Bool)
    → find_first n i test ≡ none
    → (k : ℕ) → i ≤ k
    → k < i + n
    → test k ≡ false
unfolding find_first
find_first-none zero i test e k p q = absurd (omega arith)
find_first-none (suc n) i test e k p q = elim (Bool-cases (i == k)) [
  | inl same ↦ ground arith
  | inr other ↦ find_first-none n (i + 1) test (ground arith) k (ground arith) (omega arith)
]

-- The loop finds an index as soon as one passes.
pub find_first_complete :
    (n i k : ℕ) (test : ℕ → Bool)
    → i ≤ k
    → k < i + n
    → test k ≡ true
    → (j : ℕ) × (find_first n i test ≡ some j)
unfolding find_first
find_first_complete zero i k test p q h = absurd (omega arith)
find_first_complete (suc n) i k test p q h = elim (Bool-cases (test i)) [
  | inl hit ↦ (i, ground arith)
  | inr miss ↦
      let r = find_first_complete n (i + 1) k test (ground arith) (omega arith) h in
      (r.0, ground (arith, r.1))
]

pub find_first-at :
    (n i j : ℕ) (test : ℕ → Bool)
    → i ≤ j
    → j < i + n
    → test j ≡ true
    → ((k : ℕ) → i ≤ k → k < j → test k ≡ false)
    → find_first n i test ≡ some j
unfolding find_first
find_first-at zero i j test low high hit before = absurd (omega arith)
find_first-at (suc n) i j test low high hit before = elim (Bool-cases (i == j)) [
  | inl same ↦ let e : i ≡ j = ground arith in rw (e, hit)
  | inr other ↦
      let lower : i < j = ground arith in
      rw (before i (omega arith) lower) (
        find_first-at n (i + 1) j test (omega arith) (omega arith) hit
          (λ k p q. before k (omega arith) q))
]

-- `for (k = i; k < i + n; k++) s = body(k, s);`
unfoldable pub for_loop {ℓ} : {S : Type ℓ} → (ℕ → S → S) → ℕ → ℕ → S → S
for_loop body i zero s = s
for_loop body i (suc n) s = for_loop body (suc i) n (body i s)

-- A property of the index and the state that each round hands on reaches the end of the loop.
module _ {ℓ κ} {S : Type ℓ} (Holds : ℕ → S → Type κ) (body : ℕ → S → S) where
  pub for_loop-keeps :
      (n i : ℕ) (s : S) {end : ℕ}
      → ((k : ℕ) (t : S) → i ≤ k → k < end → Holds k t → Holds (suc k) (body k t))
      → i + n ≡ end
      → Holds i s
      → Holds end (for_loop body i n s)
  unfolding for_loop
  for_loop-keeps zero i s each at now = subst (λ k. Holds k s) (omega arith) now
  for_loop-keeps (suc n) i s each at now =
      for_loop-keeps n (suc i) (body i s) (λ k t low. each k t (omega arith)) (omega arith)
        (each i s (omega arith) (omega arith) now)
