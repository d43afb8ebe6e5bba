-- ===== src/Locks/Ranges.antt =====
-- ByteRange::overlaps.
use level_fs.Base.{ℕ, ◌+◌, ◌^◌, ◌≤◌, ◌<◌, ◌≡◌, ◌↔◌, true, arith, if◌then◌else◌, leb}
use level_fs.Locks.{ByteRange, overlaps}

-- A byte of the range; its end does not wrap.
abbrev pub Holds : ℕ → ByteRange → Type 0
Holds p r = (r.start ≤ p) × (p < r.start + r.len)

-- The first byte that two overlapping ranges share.
abbrev shared_byte : ByteRange → ByteRange → ℕ
shared_byte r other = if leb r.start other.start then other.start else r.start

-- Two ranges of at least one byte whose ends do not wrap overlap exactly when they share a byte.
pub overlaps_iff :
    (r other : ByteRange)
    → 0 < r.len
    → 0 < other.len
    → r.start + r.len < 2 ^ 64
    → other.start + other.len < 2 ^ 64
    → (overlaps r other ≡ true) ↔ ((p : ℕ) × Holds p r × Holds p other)
unfolding overlaps
overlaps_iff r other pr po wr wo = (
  λ h. (shared_byte r other, (ground arith, ground arith), (ground arith, ground arith)),
  λ s. let hr = s.1 in let ho = s.2 in ground arith,
)
