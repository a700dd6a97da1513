-- ===== src/Fs/SwiftFs/Cache/Flush.antt =====
-- cache_flush_all: the write back of all dirty entries.
use swift_bsd.Prelude.{
  ℕ, suc, ◌≤◌, ◌<◌, ◌≡◌, ◌≢◌, ◌⊎◌, inl, inr, refl, sym, ap, ◌∙◌, arith, true, false, ◌==◌,
  Bool-cases, for_loop-keeps,
}
use swift_bsd.Fs.SwiftFs.Cache.{cache_size, Cache, write_block, flush_entry, cache_flush_all}
use swift_bsd.Fs.SwiftFs.Cache.View.{
  IsCoherent, Holds, Absent, view, view-Holds, view-Absent, cases,
}

module _ (c : Cache) (i : ℕ) where
  flushed-block : (j : ℕ) → ((flush_entry i c).entries j).block ≡ (c.entries j).block
  unfolding flush_entry write_block
  flushed-block j = ground arith

  flushed-group : (j : ℕ) → ((flush_entry i c).entries j).group ≡ (c.entries j).group
  unfolding flush_entry write_block
  flushed-group j = ground arith

  flushed-valid : (j : ℕ) → ((flush_entry i c).entries j).valid ≡ (c.entries j).valid
  unfolding flush_entry write_block
  flushed-valid j = ground arith

  flushed-bytes : (j : ℕ) → ((flush_entry i c).entries j).bytes ≡ (c.entries j).bytes
  unfolding flush_entry write_block
  flushed-bytes j = ground arith

  flushed-dirty : (j : ℕ) → j ≢ i → ((flush_entry i c).entries j).dirty ≡ (c.entries j).dirty
  unfolding flush_entry write_block
  flushed-dirty j ne = ground arith

  flushed-clean :
      ((c.entries i).dirty ≡ true → (c.entries i).valid ≡ true)
      → ((flush_entry i c).entries i).dirty ≡ false
  unfolding flush_entry write_block
  flushed-clean h = ground (arith, h)

  flushed-next : (flush_entry i c).next ≡ c.next
  unfolding flush_entry write_block
  flushed-next = ground arith

  flushed-disk :
      (k : ℕ)
      → ((flush_entry i c).disk k ≡ c.disk k)
        ⊎ (((c.entries i).valid ≡ true)
            × ((c.entries i).block ≡ k)
            × ((flush_entry i c).disk k ≡ (c.entries i).bytes))
  unfolding flush_entry write_block
  flushed-disk k = ground arith

  flushed-back :
      (c.entries i).valid ≡ true
      → (c.entries i).dirty ≡ true
      → (flush_entry i c).disk (c.entries i).block ≡ (c.entries i).bytes
  unfolding flush_entry write_block
  flushed-back p q = ground arith

  flushed-kept : (c.entries i).dirty ≡ false → (flush_entry i c).disk ≡ c.disk
  unfolding flush_entry write_block
  flushed-kept p = ground arith

-- The bytes of the entries do not change, so a block's bytes do not either.
module _ {c : Cache} (v : IsCoherent c) {i : ℕ} (inside : i < cache_size) where
  apart :
      {j : ℕ}
      → j < cache_size
      → (c.entries j).valid ≡ true
      → (c.entries i).valid ≡ true
      → (c.entries i).block ≡ (c.entries j).block
      → (c.entries i).bytes ≡ (c.entries j).bytes
  apart {j} p valid_j valid_i e =
      ap (λ k. (c.entries k).bytes) (v.once i j inside p valid_i valid_j e)

  flushed_clean :
      (j : ℕ)
      → j < cache_size
      → ((flush_entry i c).entries j).valid ≡ true
      → ((flush_entry i c).entries j).dirty ≡ false
      → ((flush_entry i c).entries j).bytes
        ≡ (flush_entry i c).disk ((flush_entry i c).entries j).block
  flushed_clean j p valid dirty =
      let was_valid : (c.entries j).valid ≡ true = ground (arith, flushed-valid c i j) in
      flushed-bytes c i j
      ∙ (elim (flushed-disk c i (c.entries j).block) [
        | inl kept ↦ elim (Bool-cases (c.entries j).dirty) [
          | inl was_dirty ↦ elim (Bool-cases (j == i)) [
            | inl same ↦ let e : j ≡ i = ground arith in ground (arith, flushed-back c i)
            | inr other ↦ absurd (ground (arith, flushed-dirty c i j (ground arith)))
          ]
          | inr was_clean ↦ v.clean j p was_valid was_clean ∙ sym kept
        ]
        | inr (valid_i, e, back) ↦ sym (back ∙ apart p was_valid valid_i e)
      ])
      ∙ ap (flush_entry i c).disk (sym (flushed-block c i j))

  flushed-IsCoherent : IsCoherent (flush_entry i c)
  flushed-IsCoherent = record {
    next_in = rw (flushed-next c i) v.next_in;
    group_zero =
        λ j p valid. ground (arith, flushed-group c i j, flushed-valid c i j, v.group_zero j);
    dirty_valid = λ j p dirty. elim (Bool-cases (j == i)) [
      | inl same ↦
          let e : j ≡ i = ground arith in
          absurd (ground (arith, flushed-clean c i (v.dirty_valid i inside)))
      | inr other ↦
          ground (arith, flushed-dirty c i j (ground arith), flushed-valid c i j, v.dirty_valid j)
    ];
    once = λ j k p q valid_j valid_k e.
        v.once j k p q (ground (arith, flushed-valid c i j)) (ground (arith, flushed-valid c i k))
          (ground (arith, flushed-block c i j, flushed-block c i k));
    clean = flushed_clean;
  }

  flushed-view : (k : ℕ) → view (flush_entry i c) k ≡ view c k
  flushed-view k = elim (cases v k) [
    | inl (j, h) ↦
        let there : Holds (flush_entry i c) k j = record {
          inside = h.inside;
          valid = flushed-valid c i j ∙ h.valid;
          block = flushed-block c i j ∙ h.block;
        } in
        view-Holds flushed-IsCoherent there ∙ flushed-bytes c i j ∙ sym (view-Holds v h)
    | inr gone ↦
        let out : Absent (flush_entry i c) k = λ j p valid e.
          gone j p (sym (flushed-valid c i j) ∙ valid) (sym (flushed-block c i j) ∙ e) in
        view-Absent flushed-IsCoherent out
        ∙ (elim (flushed-disk c i k) [
          | inl kept ↦ kept
          | inr (valid_i, e, back) ↦ absurd (gone i inside valid_i e)
        ])
        ∙ sym (view-Absent v gone)
  ]

-- the state of the loop before entry k
record Flushing (c : Cache) (k : ℕ) (d : Cache) : Type 0 where
  coherent : IsCoherent d
  same : (b : ℕ) → view d b ≡ view c b
  done : (i : ℕ) → i < k → (d.entries i).dirty ≡ false

flush_entry-Flushing :
    (c : Cache) (k : ℕ) (d : Cache)
    → 0 ≤ k
    → k < cache_size
    → Flushing c k d
    → Flushing c (suc k) (flush_entry k d)
flush_entry-Flushing c k d low p g = record {
  coherent = flushed-IsCoherent g.coherent p;
  same = λ b. flushed-view g.coherent p b ∙ g.same b;
  done = λ i q. elim (Bool-cases (i == k)) [
    | inl same ↦
        let e : i ≡ k = ground arith in rw e (flushed-clean d k (g.coherent.dirty_valid k p))
    | inr other ↦ flushed-dirty d k i (ground arith) ∙ g.done i (ground arith)
  ];
}

-- what a flush promises
pub record Flushed (c d : Cache) : Type 0 where
  pub coherent : IsCoherent d
  pub same : (b : ℕ) → view d b ≡ view c b
  pub on_disk : (b : ℕ) → d.disk b ≡ view c b
  pub none_dirty : (i : ℕ) → i < cache_size → (d.entries i).dirty ≡ false

-- After cache_flush_all the disk holds the bytes that each block had, no entry is dirty, and the cache is
-- coherent and gives every block the bytes it had.
pub cache_flush_all-Flushed : (c : Cache) → IsCoherent c → Flushed c (cache_flush_all c)
unfolding cache_flush_all
cache_flush_all-Flushed c v =
    let g : Flushing c cache_size (cache_flush_all c) =
      for_loop-keeps (Flushing c) flush_entry cache_size 0 c (flush_entry-Flushing c) refl
        (record { coherent = v; same = λ b. refl; done = λ i p. absurd (omega arith) }) in
    record {
      coherent = g.coherent;
      same = g.same;
      on_disk = λ b. elim (cases g.coherent b) [
        | inl (i, h) ↦ sym (
            sym (g.same b)
            ∙ view-Holds g.coherent h
            ∙ g.coherent.clean i h.inside h.valid (g.done i h.inside)
            ∙ ap (cache_flush_all c).disk h.block)
        | inr gone ↦ sym (view-Absent g.coherent gone) ∙ g.same b
      ];
      none_dirty = g.done;
    }
