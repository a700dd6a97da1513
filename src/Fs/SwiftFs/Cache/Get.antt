-- ===== src/Fs/SwiftFs/Cache/Get.antt =====
-- cache_get: the entry it hands out holds the block, and no block's bytes change, also where an entry is
-- replaced.
use swift_bsd.Prelude.{
  ℕ, ◌<◌, ◌≡◌, ◌≢◌, inl, inr, refl, sym, ◌∙◌, arith, true, false, ◌==◌, Bool-cases, Option-cases,
}
use swift_bsd.Fs.SwiftFs.Cache.{cache_size, Cache, cache_lookup, cache_get, cache_get_at}
use swift_bsd.Fs.SwiftFs.Cache.View.{
  IsCoherent, Holds, Absent, view, view-Holds, view-Absent, lookup-Holds, lookup-Absent, cases,
}
use swift_bsd.Fs.SwiftFs.Cache.Miss.{
  missed, missed-next, missed-same, missed-new, missed-back, missed-disk, missed-else, missed-bytes,
}

module _ {c : Cache} (v : IsCoherent c) {b : ℕ} (absent : Absent c b) where
  missed_once :
      (i j : ℕ)
      → i < cache_size
      → j < cache_size
      → ((missed b c).entries i).valid ≡ true
      → ((missed b c).entries j).valid ≡ true
      → ((missed b c).entries i).block ≡ ((missed b c).entries j).block
      → i ≡ j
  missed_once i j p q valid_i valid_j e = elim (Bool-cases (i == c.next)) [
    | inl at_i ↦ elim (Bool-cases (j == c.next)) [
      | inl at_j ↦ ground arith
      | inr other ↦
          let same = missed-same c b j (ground arith) in
          let i_next : i ≡ c.next = ground arith in
          absurd (absent j q (ground (arith, same)) (ground (arith, same, missed-new c b)))
    ]
    | inr other_i ↦
        let same = missed-same c b i (ground arith) in
        elim (Bool-cases (j == c.next)) [
          | inl at_j ↦
              let j_next : j ≡ c.next = ground arith in
              absurd (absent i p (ground (arith, same)) (ground (arith, same, missed-new c b)))
          | inr other_j ↦
              let also = missed-same c b j (ground arith) in
              v.once i j p q (ground (arith, same)) (ground (arith, also))
                (ground (arith, same, also))
        ]
  ]

  missed_clean :
      (i : ℕ)
      → i < cache_size
      → ((missed b c).entries i).valid ≡ true
      → ((missed b c).entries i).dirty ≡ false
      → ((missed b c).entries i).bytes ≡ (missed b c).disk ((missed b c).entries i).block
  missed_clean i p valid dirty = elim (Bool-cases (i == c.next)) [
    | inl at ↦ let e : i ≡ c.next = ground arith in ground (arith, missed-new c b, missed-bytes c b)
    | inr other ↦
        let same = missed-same c b i (ground arith) in
        let was = v.clean i p (ground (arith, same)) (ground (arith, same)) in
        elim (Bool-cases (c.entries c.next).dirty) [
          | inl back ↦
              let apart : (c.entries i).block ≢ (c.entries c.next).block = λ e. absurd (
                ground (
                  arith,
                  v.once i c.next p v.next_in (ground (arith, same))
                      (v.dirty_valid c.next v.next_in back) e,
                )) in
              ground (arith, missed-else c b (c.entries i).block apart)
          | inr kept ↦ ground (arith, missed-disk c b kept)
        ]
  ]

  missed-IsCoherent : IsCoherent (missed b c)
  missed-IsCoherent = record {
    next_in = rw (missed-next c b) (omega arith);
    group_zero = λ j p valid. elim (Bool-cases (j == c.next)) [
      | inl same ↦ let e : j ≡ c.next = ground arith in ground (arith, missed-new c b)
      | inr other ↦ ground (arith, missed-same c b j (ground arith), v.group_zero j)
    ];
    dirty_valid = λ j p dirty. elim (Bool-cases (j == c.next)) [
      | inl same ↦ let e : j ≡ c.next = ground arith in ground (arith, missed-new c b)
      | inr other ↦ ground (arith, missed-same c b j (ground arith), v.dirty_valid j)
    ];
    once = missed_once;
    clean = missed_clean;
  }

  missed-Holds : Holds (missed b c) b c.next
  missed-Holds = record {
    inside = v.next_in;
    valid = ground (arith, missed-new c b);
    block = ground (arith, missed-new c b);
  }

  missed-disk_new : (missed b c).disk b ≡ c.disk b
  missed-disk_new = elim (Bool-cases (c.entries c.next).dirty) [
    | inl back ↦
        missed-else c b b
          (λ e. absent c.next v.next_in (v.dirty_valid c.next v.next_in back) (sym e))
    | inr kept ↦ ground (arith, missed-disk c b kept)
  ]

  missed-Absent :
      (k : ℕ)
      → k ≢ b
      → ((i : ℕ)
          → i < cache_size
          → i ≢ c.next
          → (c.entries i).valid ≡ true
          → (c.entries i).block ≢ k)
      → Absent (missed b c) k
  missed-Absent k ne nowhere i p valid at = elim (Bool-cases (i == c.next)) [
    | inl same ↦ let e : i ≡ c.next = ground arith in ne (ground (arith, missed-new c b))
    | inr other ↦
        let same = missed-same c b i (ground arith) in
        nowhere i p (ground arith) (ground (arith, same)) (ground (arith, same))
  ]

  missed-disk_evicted :
      {k i : ℕ} → i ≡ c.next → Holds c k i → (missed b c).disk k ≡ (c.entries i).bytes
  missed-disk_evicted {k} {i} at h = elim (Bool-cases (c.entries c.next).dirty) [
    | inl back ↦ ground (arith, missed-back c b back, h.block)
    | inr kept ↦ ground (arith, missed-disk c b kept, v.clean c.next v.next_in, h.valid, h.block)
  ]

  missed-disk_gone : {k : ℕ} → Absent c k → (missed b c).disk k ≡ c.disk k
  missed-disk_gone {k} gone = elim (Bool-cases (c.entries c.next).dirty) [
    | inl back ↦
        missed-else c b k (λ e. gone c.next v.next_in (v.dirty_valid c.next v.next_in back) (sym e))
    | inr kept ↦ ground (arith, missed-disk c b kept)
  ]

  -- No block's bytes change by a miss.
  missed-view : (k : ℕ) → view (missed b c) k ≡ view c k
  missed-view k = elim (cases v k) [
    | inl (i, h) ↦
        let before = view-Holds v h in
        let ne : k ≢ b = λ e. absent i h.inside h.valid (h.block ∙ e) in
        elim (Bool-cases (i == c.next)) [
          | inl at ↦
              let e : i ≡ c.next = ground arith in
              let out = missed-Absent k ne (λ j p other valid_j block_j.
                other (v.once j i p h.inside valid_j h.valid (block_j ∙ sym h.block) ∙ e)) in
              view-Absent missed-IsCoherent out ∙ missed-disk_evicted e h ∙ sym before
          | inr other ↦
              let same = missed-same c b i (ground arith) in
              let after : Holds (missed b c) k i = record {
                inside = h.inside;
                valid = ground (arith, same, h.valid);
                block = ground (arith, same, h.block);
              } in
              ground (arith, view-Holds missed-IsCoherent after, same)
        ]
    | inr gone ↦ elim (Bool-cases (k == b)) [
      | inl same ↦
          let e : k ≡ b = ground arith in
          rw e (
            view-Holds missed-IsCoherent missed-Holds
            ∙ missed-bytes c b
            ∙ missed-disk_new
            ∙ sym (view-Absent v absent))
      | inr other ↦
          let out = missed-Absent k (ground arith) (λ i p ne valid at. gone i p valid at) in
          view-Absent missed-IsCoherent out ∙ missed-disk_gone gone ∙ sym (view-Absent v gone)
    ]
  ]

-- what cache_get promises
pub record Got (c : Cache) (b i : ℕ) (d : Cache) : Type 0 where
  pub coherent : IsCoherent d
  pub held : Holds d b i
  pub same : (k : ℕ) → view d k ≡ view c k

-- Whatever the cache holds, cache_get returns an entry that holds the block; the cache stays coherent, and
-- every block has the bytes it had.
pub cache_get-Got :
    (c : Cache) (b : ℕ) → IsCoherent c → Got c b (cache_get b 0 c).0 (cache_get b 0 c).1
unfolding cache_get cache_get_at
cache_get-Got c b v = elim (Option-cases (cache_lookup b 0 c)) [
  | inl none_found ↦
      let absent = lookup-Absent v none_found in
      rw none_found (record {
        coherent = missed-IsCoherent v absent;
        held = missed-Holds v absent;
        same = missed-view v absent;
      })
  | inr (i, found) ↦
      rw found (record { coherent = v; held = lookup-Holds v found; same = λ k. refl })
]
