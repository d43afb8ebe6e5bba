-- ===== src/Navigation/Buffer/Bytes.antt =====
-- Reading bytes back out of a buffer.
use level_fs.Base.{
  ℕ, zero, suc, ◌+◌, ◌/◌, ◌^◌, ◌<◌, ◌≤◌, ◌==◌, leb, ◌≡◌, refl, ap, List, [], ◌∷◌, true, false, ◌||◌,
  arith, mem, length, String, ==_refl, ==_ne,
}
use level_fs.Navigation.Buffer.{Buffer, put_bytes, get_bytes, to_bytes, from_bytes, c_string}

pub from_bytes-to_bytes : (n x : ℕ) → x < 256 ^ n → from_bytes (to_bytes n x) ≡ x
unfolding from_bytes to_bytes
from_bytes-to_bytes zero x h = omega (arith, h)
from_bytes-to_bytes (suc n) x h =
    rw (from_bytes-to_bytes n (x / 256) (omega (arith, h))) (omega arith)

pub length-to_bytes : (n x : ℕ) → length (to_bytes n x) ≡ n
unfolding to_bytes
length-to_bytes zero x = refl
length-to_bytes (suc n) x = ap suc (length-to_bytes n (x / 256))

put_bytes_below : (o i : ℕ) (bs : List ℕ) (b : Buffer) → i < o → put_bytes o bs b i ≡ b i
unfolding put_bytes
put_bytes_below o i [] b h = refl
put_bytes_below o i (x ∷ xs) b h = ground (arith, put_bytes_below (o + 1) i xs b)

pub put_bytes_above :
    (o i : ℕ) (bs : List ℕ) (b : Buffer) → o + length bs ≤ i → put_bytes o bs b i ≡ b i
unfolding put_bytes
put_bytes_above o i [] b h = refl
put_bytes_above o i (x ∷ xs) b h = ground (arith, put_bytes_above (o + 1) i xs b)

-- Bytes written outside a range are not seen in it.
pub get_bytes-apart :
    (n p o : ℕ) (bs : List ℕ) (b : Buffer)
    → leb (p + n) o || leb (o + length bs) p ≡ true
    → get_bytes p n (put_bytes o bs b) ≡ get_bytes p n b
unfolding get_bytes
get_bytes-apart zero p o bs b h = refl
get_bytes-apart (suc n) p o bs b h =
    let head : put_bytes o bs b p ≡ b p =
      ground (arith, put_bytes_below o p bs b, put_bytes_above o p bs b) in
    let next : (leb (p + 1 + n) o || leb (o + length bs) (p + 1)) ≡ true = ground arith in
    rw (head, get_bytes-apart n (p + 1) o bs b next)

get_bytes_ext :
    (n p : ℕ) (f g : Buffer) → ((i : ℕ) → p ≤ i → f i ≡ g i) → get_bytes p n f ≡ get_bytes p n g
unfolding get_bytes
get_bytes_ext zero p f g h = refl
get_bytes_ext (suc n) p f g h =
    rw (h p (omega arith), get_bytes_ext n (p + 1) f g (λ i le. h i (omega (arith, le))))

put_bytes_head : (o x : ℕ) (xs : List ℕ) (b : Buffer) → put_bytes o (x ∷ xs) b o ≡ x
unfolding put_bytes
put_bytes_head o x xs b = rw (==_refl o)

put_bytes_tail :
    (o x i : ℕ) (xs : List ℕ) (b : Buffer)
    → o + 1 ≤ i
    → put_bytes o (x ∷ xs) b i ≡ put_bytes (o + 1) xs b i
unfolding put_bytes
put_bytes_tail o x i xs b h = rw (==_ne i o (omega (arith, h)))

pub get_bytes-put_bytes :
    (o : ℕ) (bs : List ℕ) (b : Buffer) → get_bytes o (length bs) (put_bytes o bs b) ≡ bs
unfolding get_bytes
get_bytes-put_bytes o [] b = refl
get_bytes-put_bytes o (x ∷ xs) b = rw (
  put_bytes_head o x xs b,
  get_bytes_ext (length xs) (o + 1) (put_bytes o (x ∷ xs) b) (put_bytes (o + 1) xs b)
      (λ i. put_bytes_tail o x i xs b),
  get_bytes-put_bytes (o + 1) xs b,
)

-- A string in zeros is read up to its end.
pub c_string-put_bytes :
    (o n : ℕ) (s : String) (b : Buffer)
    → mem 0 s ≡ false
    → length s ≤ n
    → ((i : ℕ) → o ≤ i → b i ≡ 0)
    → c_string (get_bytes o n (put_bytes o s b)) ≡ s
unfolding c_string get_bytes put_bytes
c_string-put_bytes o zero [] b plain fits zeros = refl
c_string-put_bytes o (suc n) [] b plain fits zeros = rw (zeros o (omega arith), put_bytes)
c_string-put_bytes o zero (x ∷ xs) b plain fits zeros = absurd (omega (arith, fits))
c_string-put_bytes o (suc n) (x ∷ xs) b plain fits zeros =
    let nonzero : (x == 0) ≡ false = ground arith in
    let rest : mem 0 xs ≡ false = ground arith in
    rw (
      put_bytes_head o x xs b,
      nonzero,
      get_bytes_ext n (o + 1) (put_bytes o (x ∷ xs) b) (put_bytes (o + 1) xs b)
          (λ i. put_bytes_tail o x i xs b),
      c_string-put_bytes (o + 1) n xs b rest (omega (arith, fits))
          (λ i le. zeros i (omega (arith, le))),
    )
