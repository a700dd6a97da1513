-- ===== src/Mm/Fault/PutBack.antt =====
-- The loop of exception_handler that writes the words of a page back, of src/kernel/arch/x86_64/idt.c.
use swift_bsd.Prelude.{
  ℕ, suc, ◌+◌, ◌*◌, ◌/◌, ◌%◌, ◌<◌, ◌≡◌, ◌≢◌, refl, sym, ap, ◌∙◌, inl, inr, arith, true, some, ◌==◌,
  update, update_same, update_other, Bool-cases, equal_test, test_equal, test_unequal, for_loop,
  for_loop-keeps,
}
use swift_bsd.Mm.Vmm.{Vmm, slot}
use swift_bsd.Mm.Vmm.Tables.{IsTree, IsOther}
use swift_bsd.Mm.Vmm.Same.{translate-tables}
use swift_bsd.Mm.Vmm.Mapped.{resolve, same_page, indices}
use swift_bsd.Mm.Fault.{physical, physical_in, write_word}

last_or_before : (k i : ℕ) → i < suc k → k ≢ i → i < k
last_or_before k i h ne = ground (arith, ne)

-- the words of a page stand in that page
same_page-word : (virt i : ℕ) → virt % 4096 ≡ 0 → i < 512 → same_page (virt + 8 * i) virt ≡ true
same_page-word virt i aligned small = equal_test _ _ (omega (arith, aligned, small))

-- What the loop that puts the words back leaves after each round.
module _ (start : Vmm) (level owner : ℕ → ℕ) (tree : IsTree start.words start.pmm level owner)
    (top : level start.cr3 ≡ 4) (virt p : ℕ) (aligned : virt % 4096 ≡ 0)
    (other : IsOther start.pmm level p)
    (leads : (a : ℕ)
      → same_page a virt ≡ true
      → physical_in (resolve start.cr3 start.words a) a ≡ some (p * 4096 + a % 4096))
    (bounce : ℕ → ℕ) where
  pub record After (k : ℕ) (t : Vmm) : Type 0 where
    pub cr3 : t.cr3 ≡ start.cr3
    pub pmm : t.pmm ≡ start.pmm
    pub tables : (u j : ℕ) → 0 < level u → j < 512 → t.words (slot u j) ≡ start.words (slot u j)
    pub copied : (i : ℕ) → i < k → t.words (p * 4096 + 8 * i) ≡ bounce i
    pub rest : (a : ℕ) → a / 4096 ≢ p → t.words a ≡ start.words a

  pub resolve-After :
      (k : ℕ) (t : Vmm)
      → After k t
      → (a : ℕ) → resolve t.cr3 t.words a ≡ resolve start.cr3 start.words a
  unfolding indices
  resolve-After k t after a =
      ap (λ r. resolve r t.words a) after.cr3
      ∙ translate-tables tree t.words after.tables 3 start.cr3 (indices a) top

  pub physical-After :
      (k : ℕ) (t : Vmm)
      → After k t
      → (i : ℕ) → i < 512
      → physical (virt + 8 * i) t ≡ some (p * 4096 + 8 * i)
  unfolding physical
  physical-After k t after i small =
      ap (λ o. physical_in o (virt + 8 * i)) (resolve-After k t after (virt + 8 * i))
      ∙ leads (virt + 8 * i) (same_page-word virt i aligned small)
      ∙ ap some (omega (arith, aligned, small))

  -- A word of the page is a word of no table.
  no_table_word : (u j i : ℕ) → 0 < level u → j < 512 → i < 512 → p * 4096 + 8 * i ≢ slot u j
  no_table_word u j i table small_j small_i e =
      let at : u ≡ p * 4096 = omega (arith, e, (tree.aligned u table).0, small_j, small_i) in
      omega (arith, ap level at, table, other.no_table)

  one_word :
      (k : ℕ) (t : Vmm)
      → k < 512
      → After k t
      → After (suc k) (write_word (virt + 8 * k) (bounce k) t)
  unfolding write_word
  one_word k t small after = rw (physical-After k t after k small) (record {
    cr3 = after.cr3;
    pmm = after.pmm;
    tables = λ u j table small_j.
        update_other t.words (p * 4096 + 8 * k) (slot u j) (bounce k)
          (no_table_word u j k table small_j small)
        ∙ after.tables u j table small_j;
    copied = λ i h. elim (Bool-cases (k == i)) [
      | inl same ↦
          let e : k ≡ i = test_equal k i same in
          ap (λ n. update t.words (p * 4096 + 8 * k) (bounce k) (p * 4096 + 8 * n)) (sym e)
          ∙ update_same t.words (p * 4096 + 8 * k) (bounce k)
          ∙ ap bounce e
      | inr differs ↦
          let ne = test_unequal k i differs in
          update_other t.words (p * 4096 + 8 * k) (p * 4096 + 8 * i) (bounce k)
            (λ e. ne (omega (arith, e)))
          ∙ after.copied i (last_or_before k i h ne)
    ];
    rest = λ a outside.
        update_other t.words (p * 4096 + 8 * k) a (bounce k)
          (λ e. outside (omega (arith, e, small)))
        ∙ after.rest a outside;
  })

  pub put_back-After :
      After 512 (for_loop (λ i t. write_word (virt + 8 * i) (bounce i) t) 0 512 start)
  put_back-After =
      for_loop-keeps After (λ i t. write_word (virt + 8 * i) (bounce i) t) 512 0 start
        (λ k t low high after. one_word k t high after) refl
        (record {
          cr3 = refl;
          pmm = refl;
          tables = λ u j h g. refl;
          copied = λ i h. absurd (omega (arith, h));
          rest = λ a h. refl;
        })
