-- ===== src/Tasks/Chunks.antt =====
-- The chunks of ParallelExecutor::parallelForRange of src/utils/handler.hpp, and the queue of class
-- ThreadPool that runs them. Indices and their sums stay below 2 ^ 64.
use level_fs.Base.{
  ℕ, zero, suc, ◌+◌, ◌-◌, ◌*◌, ◌/◌, ◌≤◌, ◌<◌, ◌≡◌, refl, sym, ap, ◌∙◌, ltb, leb, ◌==◌, append-nil,
  if◌then◌else◌, List, [], ◌∷◌, ◌++◌, arith, Bool-cases, inl, inr, true,
}

-- One chunk of the range, from its first index to before its last.
unfoldable pub smaller : ℕ → ℕ → ℕ
smaller a b = if ltb b a then b else a

-- The loop over the workers, with the rounds left and the start of the next chunk.
unfoldable pub chunks_from : ℕ → ℕ → ℕ → ℕ → List (ℕ × ℕ)
chunks_from zero size at end = []
chunks_from (suc rounds) size at end =
    let rest = chunks_from rounds size (at + size) end in
    if ltb at end then (at, smaller (at + size) end) ∷ rest else []

unfoldable pub chunk_size : ℕ → ℕ → ℕ
chunk_size range workers = (range + workers - 1) / workers

unfoldable pub range_chunks : ℕ → ℕ → ℕ → List (ℕ × ℕ)
range_chunks start end workers = chunks_from workers (chunk_size (end - start) workers) start end

-- The loop in one chunk.
unfoldable pub indices : ℕ → ℕ → List ℕ
indices zero j = []
indices (suc count) j = j ∷ indices count (suc j)

unfoldable pub run_chunks : List (ℕ × ℕ) → List ℕ
run_chunks [] = []
run_chunks ((from, to) ∷ chunks) = indices (to - from) from ++ run_chunks chunks

-- FSOptimizer::runParallelScan
unfoldable pub scan_chunks : ℕ → ℕ → ℕ → List (ℕ × ℕ)
scan_chunks start end workers = if leb end start then [] else range_chunks start end workers

-- FSOptimizer::parallelProcess over the places of a vector
unfoldable pub process_chunks : ℕ → ℕ → List (ℕ × ℕ)
process_chunks size workers = if size == 0 then [] else range_chunks 0 size workers

indices-append : (m n j : ℕ) → indices m j ++ indices n (j + m) ≡ indices (m + n) j
unfolding indices
indices-append zero n j =
    let same : j + 0 ≡ j = omega arith in
    let plain : 0 + n ≡ n = omega arith in rw (same, plain) refl
indices-append (suc m) n j =
    let next : j + suc m ≡ suc j + m = omega arith in
    let more : suc m + n ≡ suc (m + n) = omega arith in
    rw (next, more) (ap (λ js. j ∷ js) (indices-append m n (suc j)))

chunks_from_done : (rounds size at end : ℕ) → end ≤ at → chunks_from rounds size at end ≡ []
unfolding chunks_from
chunks_from_done zero size at end h = refl
chunks_from_done (suc rounds) size at end h = ground (arith, h)

chunks_from_next :
    (rounds size at end : ℕ)
    → at < end
    → run_chunks (chunks_from (suc rounds) size at end)
      ≡ indices (smaller (at + size) end - at) at
        ++ run_chunks (chunks_from rounds size (at + size) end)
unfolding run_chunks chunks_from
chunks_from_next rounds size at end h =
    let more : ltb at end ≡ true = ground (arith, h) in rw more refl

chunks_from_none : (size at end : ℕ) → chunks_from 0 size at end ≡ []
unfolding chunks_from
chunks_from_none size at end = refl

no_chunks : (size at end j : ℕ) → run_chunks (chunks_from 0 size at end) ≡ indices 0 j
unfolding run_chunks chunks_from indices
no_chunks size at end j = refl

chunks_from-indices :
    (rounds size at end : ℕ)
    → at ≤ end
    → end ≤ at + rounds * size
    → run_chunks (chunks_from rounds size at end) ≡ indices (end - at) at
unfolding run_chunks smaller
chunks_from-indices zero size at end low high =
    let nothing : end - at ≡ 0 = omega (arith, low, high) in
    no_chunks size at end at ∙ ap (λ n. indices n at) (sym nothing)
chunks_from-indices (suc rounds) size at end low high = elim (Bool-cases (ltb at end)) [
  | inr past ↦
      let nothing : end - at ≡ 0 = ground (arith, past) in
      ap run_chunks (
        chunks_from_done (suc rounds) size at end (ground (arith, past))
        ∙ sym (chunks_from_none size at end))
      ∙ no_chunks size at end at
      ∙ ap (λ n. indices n at) (sym nothing)
  | inl more ↦ elim (Bool-cases (ltb end (at + size))) [
    | inl last ↦
        let cut : smaller (at + size) end ≡ end = ground (arith, last) in
        chunks_from_next rounds size at end (ground (arith, more))
        ∙ ap (λ cs. indices (smaller (at + size) end - at) at ++ run_chunks cs)
            (chunks_from_done rounds size (at + size) end (ground (arith, last)))
        ∙ append-nil (indices (smaller (at + size) end - at) at)
        ∙ ap (λ n. indices (n - at) at) cut
    | inr inside ↦
        let fits : at + size ≤ end = ground (arith, inside) in
        let whole : smaller (at + size) end - at ≡ size = ground (arith, inside) in
        let rest : size + (end - (at + size)) ≡ end - at = omega (arith, fits) in
        let product : suc rounds * size ≡ size + rounds * size = grind arith in
        chunks_from_next rounds size at end (ground (arith, more))
        ∙ ap (λ n. indices n at ++ run_chunks (chunks_from rounds size (at + size) end)) whole
        ∙ ap (λ js. indices size at ++ js)
            (chunks_from-indices rounds size (at + size) end fits (omega (arith, high, product)))
        ∙ indices-append size (end - (at + size)) at
        ∙ ap (λ n. indices n at) rest
  ]
]

chunk_size-le : (range workers : ℕ) → 0 < workers → range ≤ workers * chunk_size range workers
unfolding chunk_size
chunk_size-le range workers h = grind arith

chunks_of_range :
    (start end workers : ℕ)
    → 0 < workers
    → start ≤ end
    → run_chunks (range_chunks start end workers) ≡ indices (end - start) start
unfolding range_chunks
chunks_of_range start end workers h low =
    chunks_from-indices workers (chunk_size (end - start) workers) start end low
      (omega (arith, chunk_size-le (end - start) workers h, low))

scan_chunks-range_chunks :
    (start end workers : ℕ)
    → 0 < workers
    → start ≤ end
    → run_chunks (scan_chunks start end workers) ≡ indices (end - start) start
unfolding scan_chunks
scan_chunks-range_chunks start end workers h low = elim (Bool-cases (leb end start)) [
  | inl empty ↦
      let nothing : end - start ≡ 0 = ground (arith, empty) in
      rw empty (
        ap run_chunks (sym (chunks_from_none 0 start end))
        ∙ no_chunks 0 start end start
        ∙ ap (λ n. indices n start) (sym nothing))
  | inr some_left ↦ rw some_left (chunks_of_range start end workers h low)
]

process_chunks-range_chunks :
    (size workers : ℕ) → 0 < workers → run_chunks (process_chunks size workers) ≡ indices size 0
unfolding process_chunks
process_chunks-range_chunks size workers h = elim (Bool-cases (size == 0)) [
  | inl empty ↦
      let nothing : size ≡ 0 = ground (arith, empty) in
      rw empty (
        ap run_chunks (sym (chunks_from_none 0 0 0))
        ∙ no_chunks 0 0 0 0
        ∙ ap (λ n. indices n 0) (sym nothing))
  | inr some_left ↦
      let all : size - 0 ≡ size = omega arith in
      rw some_left (chunks_of_range 0 size workers h (omega arith) ∙ ap (λ n. indices n 0) all)
]

-- The chunks of a range, run one after the other, take each index of the range once and in order, if
-- there is a worker and the range does not end before it starts: those of parallelForRange, those of
-- runParallelScan, and those of parallelProcess over as many elements as the range ends at.
pub range_chunks-indices :
    (start end workers : ℕ)
    → 0 < workers
    → start ≤ end
    → (run_chunks (range_chunks start end workers) ≡ indices (end - start) start)
      × (run_chunks (scan_chunks start end workers) ≡ indices (end - start) start)
      × (run_chunks (process_chunks end workers) ≡ indices end 0)
range_chunks-indices start end workers h low = (
  chunks_of_range start end workers h low,
  scan_chunks-range_chunks start end workers h low,
  process_chunks-range_chunks end workers h,
)
