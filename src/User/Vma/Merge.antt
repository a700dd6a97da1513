-- ===== src/User/Vma/Merge.antt =====
-- vma_compat and vma_try_merge of src/kernel/user/syscall_handler.c.
use swift_bsd.Prelude.{
  sym, ◌∙◌, ap, ℕ, zero, suc, ◌+◌, ◌≤◌, ◌<◌, ◌≡◌, ◌≢◌, ◌↔◌, inl, inr, true, false, arith, ◌^◌, ltb,
  ◌==◌, ◌&&◌, ◌||◌, add64, sub64, is_negative, same_int→eq, Bool-cases,
}
use swift_bsd.User.Vma.{
  Vma, Space, vma_max, covers, vma_compat, join, joins, merge_up, vma_try_merge,
}
use swift_bsd.User.Vma.View.{Backing, backing, Backs, IsOrdered}

-- what a merge needs of the two areas
pub record CanJoin (a b : Vma) : Type 0 where
  pub meet : a.end ≡ b.start
  pub prot : a.prot ≡ b.prot
  pub flags : a.flags ≡ b.flags
  pub fd : a.fd ≡ b.fd
  pub offset : is_negative a.fd ≡ false → b.foff ≡ add64 a.foff (sub64 a.end a.start)

pub joins-CanJoin : (a b : Vma) → joins a b ≡ true → CanJoin a b
unfolding vma_compat
joins-CanJoin a b h = record {
  meet = ground arith;
  prot = ground arith;
  flags = ground arith;
  fd = same_int→eq a.fd b.fd (ground arith);
  offset = λ file. ground arith;
}

-- the area that a merge makes of two
abbrev joined : Vma → Vma → Vma
joined a b = record a { end = b.end }

module _ (a b : Vma) (j : CanJoin a b) (a_ordered : a.start ≤ a.end) (b_ordered : b.start ≤ b.end)
    (small : b.end < 2 ^ 64) where
  joined-offset :
      (x : ℕ)
      → is_negative a.fd ≡ false
      → b.start ≤ x
      → x < b.end
      → add64 a.foff (sub64 x a.start) ≡ add64 b.foff (sub64 x b.start)
  joined-offset x file low high = omega (arith, j.offset file, j.meet)

  joined-backing : (x : ℕ) → covers b x ≡ true → backing (joined a b) x ≡ backing b x
  joined-backing x c =
      ground (arith, j.prot, j.flags, j.fd, j.meet, joined-offset x, ap is_negative j.fd)

  covers-joined :
      (x : ℕ) → a.used ≡ true → b.used ≡ true → covers (joined a b) x ≡ (covers a x || covers b x)
  covers-joined x ua ub = ground (arith, j.meet)

module _ (s : Space) {ia ib : ℕ} (ordered : IsOrdered s) (ia_in : ia < vma_max)
    (ib_in : ib < vma_max) (different : ia ≢ ib) (ua : (s.vmas ia).used ≡ true)
    (ub : (s.vmas ib).used ≡ true) (fits : CanJoin (s.vmas ia) (s.vmas ib)) where
  slot_first : (join ia ib s).vmas ia ≡ joined (s.vmas ia) (s.vmas ib)
  slot_first = ground arith

  slot_second : ((join ia ib s).vmas ib).used ≡ false
  slot_second = ground arith

  slot_third : (i : ℕ) → ia ≢ i → ib ≢ i → (join ia ib s).vmas i ≡ s.vmas i
  slot_third i p q = ground arith

  join-Backs_to : (x : ℕ) (b : Backing) → Backs (join ia ib s) x b → Backs s x b
  join-Backs_to x b (i, i_in, c, e) = elim (Bool-cases (ia == i)) [
    | inl first ↦
        let same : ia ≡ i = ground arith in
        let c' = rw (← same, slot_first) at c in
        let e' = rw (← same, slot_first) at e in
        elim (Bool-cases (covers (s.vmas ib) x)) [
          | inl in_b ↦ (
            ib,
            ib_in,
            in_b,
            sym (joined-backing _ _ fits (ordered ia).0 (ordered ib).0 (ordered ib).1 x in_b) ∙ e',
          )
          | inr not_in_b ↦ (
            ia,
            ia_in,
            ground (
              arith,
              fits.meet,
              covers-joined _ _ fits (ordered ia).0 (ordered ib).0 (ordered ib).1 x ua ub,
            ),
            e',
          )
        ]
    | inr not_first ↦
        let not_second : ib ≢ i =
          λ q. cc (slot_second, ap (λ k. covers ((join ia ib s).vmas k) x) q, c) in
        let same = slot_third i (ground arith) not_second in (i, i_in, rw same at c, rw same at e)
  ]

  join-Backs_from : (x : ℕ) (b : Backing) → Backs s x b → Backs (join ia ib s) x b
  join-Backs_from x b (i, i_in, c, e) = elim (Bool-cases (ia == i)) [
    | inl first ↦
        let same : i ≡ ia = ground arith in
        let c' = rw same at c in
        let e' = rw same at e in
        (
          ia,
          ia_in,
          rw slot_first (
              ground (
                arith,
                covers-joined _ _ fits (ordered ia).0 (ordered ib).0 (ordered ib).1 x ua ub,
              )),
          rw slot_first e',
        )
    | inr not_first ↦ elim (Bool-cases (ib == i)) [
      | inl second ↦
          let same : i ≡ ib = ground arith in
          let c' = rw same at c in
          let e' = rw same at e in
          (
            ia,
            ia_in,
            rw slot_first (
                ground (
                  arith,
                  covers-joined _ _ fits (ordered ia).0 (ordered ib).0 (ordered ib).1 x ua ub,
                )),
            rw slot_first
                (joined-backing _ _ fits (ordered ia).0 (ordered ib).0 (ordered ib).1 x c' ∙ e'),
          )
      | inr neither ↦
          let same = slot_third i (ground arith) (ground arith) in (i, i_in, rw same c, rw same e)
    ]
  ]

  join-Backs : (x : ℕ) (b : Backing) → Backs (join ia ib s) x b ↔ Backs s x b
  join-Backs x b = (join-Backs_to x b, join-Backs_from x b)

merge_up-Backs :
    (idx : ℕ) (s : Space)
    → IsOrdered s
    → idx < vma_max
    → (s.vmas idx).used ≡ true
    → (x : ℕ) (b : Backing) → Backs (merge_up idx s) x b ↔ Backs s x b
unfolding merge_up
merge_up-Backs idx s ordered idx_in used x b =
    elim (Bool-cases
      (ltb (idx + 1) vma_max && (s.vmas (idx + 1)).used && joins (s.vmas idx) (s.vmas (idx + 1)))) [
        | inl hit ↦ rw hit (
            join-Backs s ordered idx_in (ground arith) (omega arith) used (ground arith)
              (joins-CanJoin _ _ (ground arith)) x b)
        | inr miss ↦ rw miss ((λ h. h), (λ h. h))
      ]

-- If in every slot of the table, in use or not, the start is at most the end and the end and the file offset are
-- below 2^64, then vma_try_merge of a slot in use changes no address's protection, flags, file or file offset.
pub vma_try_merge-Backs :
    (idx : ℕ) (s : Space)
    → IsOrdered s
    → idx < vma_max
    → (s.vmas idx).used ≡ true
    → (x : ℕ) (b : Backing) → Backs (vma_try_merge idx s) x b ↔ Backs s x b
unfolding vma_try_merge
vma_try_merge-Backs zero s ordered idx_in used x b = merge_up-Backs zero s ordered idx_in used x b
vma_try_merge-Backs (suc k) s ordered idx_in used x b =
    elim (Bool-cases ((s.vmas k).used && joins (s.vmas k) (s.vmas (suc k)))) [
      | inl hit ↦ rw hit (
          join-Backs s ordered (omega arith) idx_in (omega arith) (ground arith) used
            (joins-CanJoin _ _ (ground arith)) x b)
      | inr miss ↦ rw miss (merge_up-Backs (suc k) s ordered idx_in used x b)
    ]
