-- ===== src/Fs/SwiftFs/Names/Hides.antt =====
-- What the scan for a name sees of a block after swiftfs2_unlink has cleared an entry of it.
use swift_bsd.Prelude.{
  ℕ, zero, suc, ◌+◌, ◌%◌, ◌≤◌, ◌<◌, ◌≡◌, inl, inr, refl, arith, Bool, true, false, Option, none,
  some, List, [], ◌∷◌, ◌==◌, ◌&&◌, ◌||◌, leb, if◌then◌else◌, length, Bool-cases,
}
use swift_bsd.Fs.SwiftFs.Cache.{Data}
use swift_bsd.Fs.SwiftFs.Bytes.{get_le, put_le, get_le-put_le, get_le-put_le_apart, put_le-before}
use swift_bsd.Fs.SwiftFs.Paths.{same_name, scan_block}
use swift_bsd.Fs.SwiftFs.Dirs.{rec_len}

-- From `a` on the entries of a block lead to the entry at `p`, each with room for its name, and none of them
-- has the name `other`.
pub data Passed (bytes : Data) (other : List ℕ) (p : ℕ) : ℕ → Type 0 where
  here : Passed bytes other p p
  next :
      (a : ℕ)
      → 8 + bytes (a + 6) ≤ rec_len bytes a
      → (bytes (a + 6) == length other % 256 && same_name bytes (a + 8) other) ≡ false
      → Passed bytes other p (a + rec_len bytes a)
      → Passed bytes other p a

Passed-le : {bytes : Data} {other : List ℕ} {p a : ℕ} → Passed bytes other p a → a ≤ p
Passed-le here = omega arith
Passed-le (next a room differs rest) = omega (arith, Passed-le rest)

-- Names in front of the cleared entry are compared as before.
same_name-before :
    (bytes : Data) (p a : ℕ) (other : List ℕ)
    → a + length other ≤ p
    → same_name (put_le 4 bytes p 0) a other ≡ same_name bytes a other
unfolding same_name
same_name-before bytes p a [] h = refl
same_name-before bytes p a (c ∷ cs) h = ground (
  arith,
  put_le-before 4 bytes p 0 a (omega arith),
  same_name-before bytes p (a + 1) cs (omega arith),
)

if-none : (b : Bool) (x y : Option ℕ) → x ≡ none → y ≡ none → (if b then x else y) ≡ none
if-none true x y hx hy = hx
if-none false x y hx hy = hy

-- A name of less than 256 bytes that none of the entries up to the cleared one has is not found any more,
-- though an entry behind the cleared one may have it.
pub scan_block-hides :
    (fuel : ℕ) (bytes : Data) (other : List ℕ) (p a : ℕ)
    → length other < 256
    → Passed bytes other p a
    → scan_block fuel (put_le 4 bytes p 0) other a ≡ none
unfolding scan_block
scan_block-hides zero bytes other p a short h = refl
scan_block-hides (suc fuel) bytes other p a short here =
    let cleared = get_le-put_le 4 bytes p 0 (omega arith) in ground (arith, cleared)
scan_block-hides (suc fuel) bytes other p a short (next _ room differs rest) =
    let le = Passed-le rest in
    let inode = get_le-put_le_apart 4 4 bytes p a 0 (inl (omega arith)) in
    let len = get_le-put_le_apart 4 2 bytes p (a + 4) 0 (inl (omega arith)) in
    let name_len = put_le-before 4 bytes p 0 (a + 6) (omega arith) in
    let ih = scan_block-hides fuel bytes other p (a + rec_len bytes a) short rest in
    let e : (bytes (a + 6) == length other % 256 && same_name (put_le 4 bytes p 0) (a + 8) other)
        ≡ false =
      elim (Bool-cases (bytes (a + 6) == length other % 256)) [
        | inl same ↦
            let fits : a + 8 + length other ≤ p = ground (arith, same) in
            ground (arith, same_name-before bytes p (a + 8) other fits)
        | inr other_length ↦ rw other_length refl
      ] in
    let d : Data = put_le 4 bytes p 0 in
    if-none (leb 4096 a || get_le 4 d a == 0 || get_le 2 d (a + 4) == 0) none
      (if d (a + 6) == length other % 256 && same_name d (a + 8) other
        then some (get_le 4 d a)
        else scan_block fuel d other (a + get_le 2 d (a + 4)))
      refl (rw name_len (rw e (rw len ih)))
