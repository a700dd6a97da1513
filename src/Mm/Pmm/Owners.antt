-- ===== src/Mm/Pmm/Owners.antt =====
-- Clients of pmm.c: who allocates a page owns it until it gives it back.
use swift_bsd.Prelude.{
  ℕ, ◌<◌, ◌≡◌, ◌≢◌, arith, ◌/◌, ◌*◌, Bool, true, false, inl, inr, update, refl, Bool-cases,
}
use swift_bsd.Bitmap.{bit_test}
use swift_bsd.Mm.Pmm.{Pmm, max_pages, page_size, page_alloc, page_free}
use swift_bsd.Mm.Pmm.Inv.{IsValid}
use swift_bsd.Mm.Pmm.Alloc.{Allocation, page, exhausted, page_alloc-Allocation, page_free_lem}

pub record Client : Type 0 where
  pub mem : Pmm
  pub owned : ℕ → Bool

abbrev after_alloc : Client → ℕ × Pmm → Client
after_alloc c r = record { mem = r.1; owned = update c.owned (r.0 / page_size) true }

abbrev after_free : Client → ℕ → Client
after_free c p = record { mem = page_free c.mem (p * page_size); owned = update c.owned p false }

-- A client allocates, and it frees only a page that it owns.
pub data Step (c : Client) : Client → Type 0 where
  alloc : (page_alloc c.mem).0 ≢ 0 → Step c (after_alloc c (page_alloc c.mem))
  free : (p : ℕ) → c.owned p ≡ true → Step c (after_free c p)

pub data Reach (c : Client) : Client → Type 0 where
  start : Reach c c
  next : {d e : Client} → Reach c d → Step d e → Reach c e

pub record IsSafe (c : Client) : Type 0 where
  pub valid : IsValid c.mem
  pub taken : (p : ℕ) → c.owned p ≡ true → (p < max_pages) × (bit_test c.mem.bitmap p ≡ true)

alloc-IsSafe :
    {c : Client} {r : ℕ × Pmm} → IsSafe c → r.0 ≢ 0 → Allocation c.mem r → IsSafe (after_alloc c r)
alloc-IsSafe {c} s ne (page p addr s' at low was_free first bits count v' last) = record {
  valid = v';
  taken = λ q h. (ground (arith, s.valid.last_in, s.taken q), ground (arith, bits q, s.taken q));
}
alloc-IsSafe {c} s ne (exhausted all) = absurd (ne refl)

pub Step-IsSafe : {c d : Client} → IsSafe c → Step c d → IsSafe d
Step-IsSafe {c} s (alloc ne) = alloc-IsSafe s ne (page_alloc-Allocation c.mem s.valid)
Step-IsSafe {c} s (free p h) =
    let f = page_free_lem c.mem (p * page_size) s.valid (omega (arith, (s.taken p h).0)) in
    record {
      valid = f.2;
      taken = λ q k. (ground (arith, s.taken q), ground (arith, s.taken q, f.0 q));
    }

pub Reach-IsSafe : {c d : Client} → IsSafe c → Reach c d → IsSafe d
Reach-IsSafe s start = s
Reach-IsSafe s (next r st) = Step-IsSafe (Reach-IsSafe s r) st

Allocation-fresh :
    {c : Client} {r : ℕ × Pmm}
    → IsSafe c
    → Allocation c.mem r
    → r.0 ≢ 0
    → c.owned (r.0 / page_size) ≡ false
Allocation-fresh {c} s (page p addr s' at low was_free first bits count v' last) ne =
    let e : addr / page_size ≡ p = omega arith in
    rw e
      (elim (Bool-cases (c.owned p)) [ inl mine ↦ ground (arith, s.taken p) | inr other ↦ other ])
Allocation-fresh s (exhausted all) ne = absurd (ne refl)

-- However clients allocate pages and free pages that they own, starting where nobody owns one:
-- a page that page_alloc hands out is owned by nobody, and every owned page is marked as taken.
pub page_alloc-fresh :
    (s : Pmm) {c : Client}
    → IsValid s
    → Reach (record { mem = s; owned = λ _. false }) c
    → ((page_alloc c.mem).0 ≢ 0 → c.owned ((page_alloc c.mem).0 / page_size) ≡ false)
      × ((p : ℕ) → c.owned p ≡ true → bit_test c.mem.bitmap p ≡ true)
page_alloc-fresh s {c} v r =
    let safe : IsSafe c = Reach-IsSafe (record { valid = v; taken = λ p h. absurd (cc) }) r in
    (Allocation-fresh safe (page_alloc-Allocation c.mem safe.valid), λ p h. (safe.taken p h).1)
