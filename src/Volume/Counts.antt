-- ===== src/Volume/Counts.antt =====
-- How many of the first entries of a table are empty.
use level_fs.Base.{ℕ, zero, suc, ◌+◌, ◌<◌, ◌==◌, if◌then◌else◌, ◌≡◌, ◌≢◌, refl, arith}

unfoldable pub zeros : (ℕ → ℕ) → ℕ → ℕ
zeros f zero = 0
zeros f (suc n) = (if f n == 0 then 1 else 0) + zeros f n

zeros_same : (f g : ℕ → ℕ) (n : ℕ) → ((i : ℕ) → i < n → g i ≡ f i) → zeros g n ≡ zeros f n
unfolding zeros
zeros_same f g zero h = refl
zeros_same f g (suc n) h = ground (arith, h n, zeros_same f g n (λ i p. h i (omega arith)))

-- Filling an empty entry leaves one empty entry less.
pub zeros_filled :
    (f g : ℕ → ℕ) (k x n : ℕ)
    → ((i : ℕ) → g i ≡ (if k == i then x else f i))
    → x ≢ 0
    → f k ≡ 0
    → k < n
    → zeros g n + 1 ≡ zeros f n
unfolding zeros
zeros_filled f g k x zero h ne e p = absurd (omega arith)
zeros_filled f g k x (suc n) h ne e p =
    ground (arith, h n, zeros_filled f g k x n h ne e, zeros_same f g n)
