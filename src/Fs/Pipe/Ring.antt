-- ===== src/Fs/Pipe/Ring.antt =====
-- The buffer of a pipe as a ring: reading and writing runs that may go round its end.
use swift_bsd.Prelude.{
  ℕ, zero, suc, ◌+◌, ◌-◌, ◌%◌, ◌≤◌, ◌<◌, ◌≡◌, ◌≢◌, refl, ap, sym, ◌∙◌, arith, false, List, [], ◌∷◌,
  ◌++◌, ◌==◌, leb, update, length, take, drop, length-take, length-drop, Bool-cases, inl, inr,
}
use swift_bsd.Fs.Pipe.{Pipe, pipe_buf_size, copy_out, copy_in, read_bytes, write_bytes}

-- the `n` bytes from position `p` on
abbrev pub ring : (ℕ → ℕ) → ℕ → ℕ → List ℕ
ring buf p zero = []
ring buf p (suc n) = buf (p % pipe_buf_size) ∷ ring buf (p + 1) n

-- a run written from position `p` on
put_ring : (ℕ → ℕ) → ℕ → List ℕ → (ℕ → ℕ)
put_ring buf p [] = buf
put_ring buf p (x ∷ xs) = put_ring (update buf (p % pipe_buf_size) x) (p + 1) xs

module _ (buf : ℕ → ℕ) where
  pub ring_cong : (p q n : ℕ) → p % pipe_buf_size ≡ q % pipe_buf_size → ring buf p n ≡ ring buf q n
  ring_cong p q zero e = refl
  ring_cong p q (suc n) e = rw (e, ring_cong (p + 1) (q + 1) n (omega arith))

  pub length-ring : (p n : ℕ) → length (ring buf p n) ≡ n
  length-ring p zero = refl
  length-ring p (suc n) = ap suc (length-ring (p + 1) n)

  pub ring-append : (p m n : ℕ) → ring buf p (m + n) ≡ ring buf p m ++ ring buf (p + m) n
  ring-append p zero n =
      let e : 0 + n ≡ n = omega arith in let e' : p + 0 ≡ p = omega arith in rw (e, e')
  ring-append p (suc m) n =
      let e : suc m + n ≡ suc (m + n) = omega arith in
      let e' : p + suc m ≡ p + 1 + m = omega arith in
      rw (e, e') (ap (λ l. buf (p % pipe_buf_size) ∷ l) (ring-append (p + 1) m n))

  copy_out-ring :
      (off p n : ℕ)
      → (0 < n → off ≡ p % pipe_buf_size)
      → off + n ≤ pipe_buf_size
      → copy_out buf off n ≡ ring buf p n
  unfolding copy_out
  copy_out-ring off p zero at inside = refl
  copy_out-ring off p (suc n) at inside =
      let e = at (omega arith) in
      rw (e) (
        ap (λ l. buf (p % pipe_buf_size) ∷ l)
          (rw (← e) (copy_out-ring (off + 1) (p + 1) n (λ h. omega arith) (omega arith))))

-- What read_bytes copies, in one piece or in two, is the run from the read position.
pub read_bytes-ring : (p : Pipe) (n : ℕ) → n ≤ pipe_buf_size → read_bytes p n ≡ ring p.buf p.rpos n
unfolding read_bytes
read_bytes-ring p n small = elim (Bool-cases (leb (p.rpos % pipe_buf_size + n) pipe_buf_size)) [
  | inl one ↦ rw one (copy_out-ring p.buf _ p.rpos n (λ h. refl) (ground arith))
  | inr two ↦
      let off = p.rpos % pipe_buf_size in
      let first = pipe_buf_size - off in
      let e : n ≡ first + (n - first) = ground arith in
      rw
        (
          two,
          copy_out-ring p.buf off p.rpos first (λ h. refl) (omega arith),
          copy_out-ring p.buf 0 (p.rpos + first) (n - first) (λ h. omega arith) (omega arith),
        )
        (sym (ring-append p.buf p.rpos first (n - first)) ∙ ap (λ k. ring p.buf p.rpos k) (sym e))
]

copy_in-put_ring :
    (buf : ℕ → ℕ) (off p : ℕ) (xs : List ℕ)
    → (0 < length xs → off ≡ p % pipe_buf_size)
    → off + length xs ≤ pipe_buf_size
    → copy_in buf off xs ≡ put_ring buf p xs
unfolding copy_in put_ring
copy_in-put_ring buf off p [] at inside = refl
copy_in-put_ring buf off p (x ∷ xs) at inside =
    let e = at (omega arith) in
    rw (← e)
      (copy_in-put_ring (update buf off x) (off + 1) (p + 1) xs (λ h. omega arith) (omega arith))

put_ring-append :
    (buf : ℕ → ℕ) (p : ℕ) (xs ys : List ℕ)
    → put_ring buf p (xs ++ ys) ≡ put_ring (put_ring buf p xs) (p + length xs) ys
unfolding put_ring
put_ring-append buf p [] ys = let e : p + 0 ≡ p = omega arith in rw e
put_ring-append buf p (x ∷ xs) ys =
    let e : p + suc (length xs) ≡ p + 1 + length xs = omega arith in
    rw e (put_ring-append (update buf (p % pipe_buf_size) x) (p + 1) xs ys)

take-append-drop : (n : ℕ) (xs : List ℕ) → take n xs ++ drop n xs ≡ xs
take-append-drop zero xs = refl
take-append-drop (suc n) [] = refl
take-append-drop (suc n) (x ∷ xs) = ap (λ l. x ∷ l) (take-append-drop n xs)

-- What write_bytes stores, in one piece or in two, is the run from the write position.
write_bytes-ring :
    (p : Pipe) (xs : List ℕ)
    → length xs ≤ pipe_buf_size
    → (write_bytes p xs).buf ≡ put_ring p.buf p.wpos xs
unfolding write_bytes
write_bytes-ring p xs small =
    elim (Bool-cases (leb (p.wpos % pipe_buf_size + length xs) pipe_buf_size)) [
      | inl one ↦ rw one (copy_in-put_ring p.buf _ p.wpos xs (λ h. refl) (ground arith))
      | inr two ↦
          let off = p.wpos % pipe_buf_size in
          let first = pipe_buf_size - off in
          let lt = length-take first xs in
          let ld = length-drop first xs in
          let too_long : pipe_buf_size < off + length xs = ground arith in
          let front : copy_in p.buf off (take first xs) ≡ put_ring p.buf p.wpos (take first xs) =
            copy_in-put_ring p.buf off p.wpos (take first xs) (λ h. refl) (omega (arith, lt)) in
          let back : copy_in (put_ring p.buf p.wpos (take first xs)) 0 (drop first xs)
              ≡ put_ring (put_ring p.buf p.wpos (take first xs)) (p.wpos + length (take first xs))
                  (drop first xs) =
            copy_in-put_ring _ 0 _ (drop first xs) (λ h. omega (arith, lt)) (omega (arith, ld)) in
          rw (two, front, back)
            (sym (put_ring-append p.buf p.wpos (take first xs) (drop first xs))
              ∙ ap (put_ring p.buf p.wpos) (take-append-drop first xs))
    ]

-- A run is read back as it was written, and a run of other positions is not touched.
put_ring-other :
    (buf : ℕ → ℕ) (p q : ℕ) (xs : List ℕ)
    → ((k : ℕ) → k < length xs → (p + k) % pipe_buf_size ≢ q % pipe_buf_size)
    → put_ring buf p xs (q % pipe_buf_size) ≡ buf (q % pipe_buf_size)
unfolding put_ring
put_ring-other buf p q [] apart = refl
put_ring-other buf p q (x ∷ xs) apart =
    let here : (p % pipe_buf_size == q % pipe_buf_size) ≡ false = ground (arith, apart 0) in
    put_ring-other (update buf (p % pipe_buf_size) x) (p + 1) q xs
      (λ k h. let e : p + suc k ≡ p + 1 + k = omega arith in rw e at (apart (suc k) (omega arith)))
    ∙ rw here

put_ring_cong :
    (buf : ℕ → ℕ) (p q : ℕ) (xs : List ℕ)
    → p % pipe_buf_size ≡ q % pipe_buf_size
    → put_ring buf p xs ≡ put_ring buf q xs
unfolding put_ring
put_ring_cong buf p q [] e = refl
put_ring_cong buf p q (x ∷ xs) e =
    rw e (put_ring_cong (update buf (q % pipe_buf_size) x) (p + 1) (q + 1) xs (omega arith))

ring-put_ring_self :
    (buf : ℕ → ℕ) (p : ℕ) (xs : List ℕ)
    → length xs ≤ pipe_buf_size
    → ring (put_ring buf p xs) p (length xs) ≡ xs
unfolding put_ring
ring-put_ring_self buf p [] small = refl
ring-put_ring_self buf p (x ∷ xs) small =
    let head =
      put_ring-other (update buf (p % pipe_buf_size) x) (p + 1) p xs (λ k h. omega arith) in
    let stored : update buf (p % pipe_buf_size) x (p % pipe_buf_size) ≡ x = ground arith in
    rw (head, stored)
      (ap (λ l. x ∷ l)
        (ring-put_ring_self (update buf (p % pipe_buf_size) x) (p + 1) xs (omega arith)))

ring-put_ring_before :
    (buf : ℕ → ℕ) (q n w : ℕ) (xs : List ℕ)
    → q + n ≤ w
    → w + length xs ≤ q + pipe_buf_size
    → ring (put_ring buf w xs) q n ≡ ring buf q n
ring-put_ring_before buf q zero w xs low high = refl
ring-put_ring_before buf q (suc n) w xs low high =
    rw (put_ring-other buf w q xs (λ k h. omega arith)) (
      ap (λ l. buf (q % pipe_buf_size) ∷ l)
        (ring-put_ring_before buf (q + 1) n w xs (omega arith) (omega arith)))

-- A run written behind `n` bytes follows them.
pub ring-write_bytes :
    (p : Pipe) (q n : ℕ) (xs : List ℕ)
    → p.wpos % pipe_buf_size ≡ (q + n) % pipe_buf_size
    → n + length xs ≤ pipe_buf_size
    → ring (write_bytes p xs).buf q (n + length xs) ≡ ring p.buf q n ++ xs
ring-write_bytes p q n xs e small =
    let w = write_bytes-ring p xs (omega arith) ∙ put_ring_cong p.buf p.wpos (q + n) xs e in
    let before = ring-put_ring_before p.buf q n (q + n) xs (omega arith) (omega arith) in
    let self = ring-put_ring_self p.buf (q + n) xs (omega arith) in
    rw (w, ring-append (put_ring p.buf (q + n) xs) q n (length xs), before, self)
