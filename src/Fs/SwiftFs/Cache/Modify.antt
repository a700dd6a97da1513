-- ===== src/Fs/SwiftFs/Cache/Modify.antt =====
-- A write through the pointer of cache_get, followed by cache_mark_dirty.
use swift_bsd.Prelude.{
  ℕ, ◌≡◌, ◌≢◌, inl, inr, refl, sym, ap, ◌∙◌, arith, true, some, ◌==◌, Bool-cases, find_first,
  fun_ext,
}
use swift_bsd.Fs.SwiftFs.Cache.{
  Data, cache_size, CacheEntry, Cache, caches, cache_lookup, cache_mark_dirty, mark_at, set_entry,
  modify,
}
use swift_bsd.Fs.SwiftFs.Cache.View.{
  IsCoherent, Holds, Absent, view, view-Holds, view-Absent, Holds-lookup, cases,
}
use swift_bsd.Fs.SwiftFs.Cache.Get.{cache_get-Got}

-- the entry after the write
abbrev written : (Data → Data) → CacheEntry → CacheEntry
written f e = record e { bytes = f e.bytes; dirty = true }

abbrev filled : (Data → Data) → ℕ → Cache → Cache
filled f i c = set_entry i (record (c.entries i) { bytes = f (c.entries i).bytes }) c

module _ {c : Cache} (v : IsCoherent c) {b i : ℕ} (h : Holds c b i) (f : Data → Data) where
  filled-caches : (j : ℕ) → caches ((filled f i c).entries j) b 0 ≡ caches (c.entries j) b 0
  filled-caches j = ground arith

  filled-lookup : cache_lookup b 0 (filled f i c) ≡ some i
  unfolding cache_lookup
  filled-lookup = ap (find_first cache_size 0) (fun_ext filled-caches) ∙ Holds-lookup v h

  abbrev changed : Cache
  changed = cache_mark_dirty b 0 (filled f i c)

  changed-at : changed.entries i ≡ written f (c.entries i)
  unfolding cache_mark_dirty mark_at
  changed-at = rw filled-lookup (ground arith)

  changed-other : (j : ℕ) → j ≢ i → changed.entries j ≡ c.entries j
  unfolding cache_mark_dirty mark_at
  changed-other j ne = rw filled-lookup (ground arith)

  changed-disk : changed.disk ≡ c.disk
  unfolding cache_mark_dirty mark_at
  changed-disk = rw filled-lookup refl

  changed-next : changed.next ≡ c.next
  unfolding cache_mark_dirty mark_at
  changed-next = rw filled-lookup refl

  changed-block : (j : ℕ) → (changed.entries j).block ≡ (c.entries j).block
  changed-block j = elim (Bool-cases (j == i)) [
    | inl same ↦ let e : j ≡ i = ground arith in ground (arith, changed-at)
    | inr other ↦ ground (arith, changed-other j (ground arith))
  ]

  changed-valid : (j : ℕ) → (changed.entries j).valid ≡ (c.entries j).valid
  changed-valid j = elim (Bool-cases (j == i)) [
    | inl same ↦ let e : j ≡ i = ground arith in ground (arith, changed-at)
    | inr other ↦ ground (arith, changed-other j (ground arith))
  ]

  changed-IsCoherent : IsCoherent changed
  changed-IsCoherent = record {
    next_in = rw changed-next v.next_in;
    group_zero = λ j p valid. elim (Bool-cases (j == i)) [
      | inl same ↦
          let e : j ≡ i = ground arith in
          ground (arith, changed-at, v.group_zero i h.inside h.valid)
      | inr other ↦ ground (arith, changed-other j (ground arith), v.group_zero j)
    ];
    dirty_valid = λ j p dirty. elim (Bool-cases (j == i)) [
      | inl same ↦ let e : j ≡ i = ground arith in ground (arith, changed-at, h.valid)
      | inr other ↦ ground (arith, changed-other j (ground arith), v.dirty_valid j)
    ];
    once = λ j k p q valid_j valid_k e.
        v.once j k p q (ground (arith, changed-valid j)) (ground (arith, changed-valid k))
          (ground (arith, changed-block j, changed-block k));
    clean = λ j p valid dirty. elim (Bool-cases (j == i)) [
      | inl same ↦ let e : j ≡ i = ground arith in absurd (ground (arith, changed-at))
      | inr other ↦ ground (arith, changed-other j (ground arith), v.clean j, changed-disk)
    ];
  }

  changed-view_at : view changed b ≡ f (view c b)
  changed-view_at =
      let there : Holds changed b i = record {
        inside = h.inside;
        valid = ground (arith, changed-at, h.valid);
        block = ground (arith, changed-at, h.block);
      } in
      view-Holds changed-IsCoherent there
      ∙ ap (λ e. e.bytes) changed-at
      ∙ ap f (sym (view-Holds v h))

  changed-view_other : (k : ℕ) → k ≢ b → view changed k ≡ view c k
  changed-view_other k ne = elim (cases v k) [
    | inl (j, g) ↦
        let other : j ≢ i = λ e. ne (sym g.block ∙ ap (λ t. (c.entries t).block) e ∙ h.block) in
        let same = changed-other j other in
        let there : Holds changed k j = record {
          inside = g.inside;
          valid = ground (arith, same, g.valid);
          block = ground (arith, same, g.block);
        } in
        view-Holds changed-IsCoherent there ∙ ap (λ e. e.bytes) same ∙ sym (view-Holds v g)
    | inr gone ↦
        let out : Absent changed k = λ j p valid e.
          gone j p (ground (arith, changed-valid j)) (ground (arith, changed-block j)) in
        view-Absent changed-IsCoherent out ∙ ap (λ d. d k) changed-disk ∙ sym (view-Absent v gone)
  ]

-- what a change of one block's bytes promises
pub record Modified (c : Cache) (b : ℕ) (f : Data → Data) (d : Cache) : Type 0 where
  pub coherent : IsCoherent d
  pub at : view d b ≡ f (view c b)
  pub other : (k : ℕ) → k ≢ b → view d k ≡ view c k

-- Changing the bytes that cache_get returns and marking the block dirty keeps the cache coherent and changes
-- that block by the change, and no other.
pub modify-Modified :
    (c : Cache) (b : ℕ) (f : Data → Data) → IsCoherent c → Modified c b f (modify b f c)
unfolding modify
modify-Modified c b f v =
    let g = cache_get-Got c b v in
    record {
      coherent = changed-IsCoherent g.coherent g.held f;
      at = changed-view_at g.coherent g.held f ∙ ap f (g.same b);
      other = λ k ne. changed-view_other g.coherent g.held f k ne ∙ g.same k;
    }
