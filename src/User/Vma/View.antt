-- ===== src/User/Vma/View.antt =====
-- What a table of memory areas says of an address, whatever slots it uses.
use swift_bsd.Prelude.{
  ℕ, ◌≤◌, ◌<◌, ◌≡◌, ◌≢◌, true, false, ◌^◌, if◌then◌else◌, add64, sub64, ℤ, is_negative,
}
use swift_bsd.User.Vma.{Vma, Space, vma_max, covers}

-- protection, flags and file of an address, and its offset in the file if there is one
pub record Backing : Type 0 where
  pub prot : ℕ
  pub flags : ℕ
  pub fd : ℤ
  pub offset : ℕ

abbrev pub backing : Vma → ℕ → Backing
backing v x = record {
  prot = v.prot;
  flags = v.flags;
  fd = v.fd;
  offset = if is_negative v.fd then 0 else add64 v.foff (sub64 x v.start);
}

-- The area in some slot gives address `x` the backing `b`.
abbrev pub Backs : Space → ℕ → Backing → Type 0
Backs s x b = (i : ℕ) × (i < vma_max) × (covers (s.vmas i) x ≡ true) × (backing (s.vmas i) x ≡ b)

-- Two areas share no address.
abbrev pub Apart : Vma → Vma → Type 0
Apart v w = (x : ℕ) → covers v x ≡ true → covers w x ≡ false

-- The areas in use lie below 2^64, the right way round.
abbrev pub IsOrdered : Space → Type 0
IsOrdered s =
    (i : ℕ)
    → ((s.vmas i).start ≤ (s.vmas i).end) × ((s.vmas i).end < 2 ^ 64) × ((s.vmas i).foff < 2 ^ 64)

-- No two slots share an address.
abbrev pub IsDisjoint : Space → Type 0
IsDisjoint s = (i j : ℕ) → i < vma_max → j < vma_max → i ≢ j → Apart (s.vmas i) (s.vmas j)
