-- ===== src/Defrag/Moved.antt =====
-- A file that has been moved.
use level_fs.Base.{
  ℕ, zero, suc, ◌+◌, ◌≤◌, ◌<◌, ◌≡◌, refl, sym, ap, ◌∙◌, ◌==◌, ==_refl, ==_ne, if◌then◌else◌,
  if_true, if_false, List, [], ◌∷◌, some, Bool, true, false, ◌&&◌, length, mem, map, arith,
  Bool-cases, Option-cases, inl, inr,
}
use level_fs.Defrag.{
  DefragVolume, lat_end, links_from, get_file_chain, breaks_after, fragment_count, read_backup,
  write_backup, link_new, free_old, move_cluster_chain,
}
use level_fs.Defrag.Links.{
  row, IsStored, IsRow, links_from-row, link_new-IsRow, free_old-IsRow, link_new-content,
  free_old-content,
}

-- What is read before is written behind each other.
read_backup-map :
    (v : DefragVolume) (cs values : List ℕ)
    → read_backup v cs ≡ some values
    → values ≡ map v.content cs
unfolding read_backup
read_backup-map v [] values h = cc
read_backup-map v (c ∷ cs) values h = elim (Bool-cases (v.readable c)) [
  | inr e ↦ cc (rw e at h)
  | inl e ↦ elim (Option-cases (read_backup v cs)) [
    | inl f ↦ cc (rw (e, f) at h)
    | inr (rest, f) ↦
        let result : values ≡ v.content c ∷ rest = cc (rw (e, f) at h) in
        result ∙ ap (λ vs. v.content c ∷ vs) (read_backup-map v cs rest f)
  ]
]

-- The volume after one cluster is written.
abbrev with_content : ℕ → ℕ → DefragVolume → DefragVolume
with_content at x v = record v { content = λ c. if c == at then x else v.content c }

write_backup_next :
    (x : ℕ) (xs : List ℕ) (at : ℕ) (v : DefragVolume)
    → v.writable at ≡ true
    → v.readable at ≡ true
    → write_backup at (x ∷ xs) v ≡ write_backup (at + 1) xs (with_content at x v)
unfolding write_backup
write_backup_next x xs at v w r = rw (w, r) refl

write_backup_done :
    (x : ℕ) (xs : List ℕ) (at : ℕ) (v : DefragVolume)
    → (write_backup at (x ∷ xs) v).1 ≡ true
    → (v.writable at ≡ true) × (v.readable at ≡ true)
unfolding write_backup
write_backup_done x xs at v h = elim (Bool-cases (v.writable at)) [
  | inr w ↦ cc (rw w at h)
  | inl w ↦ elim (Bool-cases (v.readable at)) [ inr r ↦ cc (rw (w, r) at h) | inl r ↦ (w, r) ]
]

write_backup_before :
    (values : List ℕ) (at d : ℕ) (v : DefragVolume)
    → d < at
    → (write_backup at values v).1 ≡ true
    → (write_backup at values v).0.content d ≡ v.content d
write_backup_before [] at d v below h = unfold write_backup in refl
write_backup_before (x ∷ xs) at d v below h =
    let (w, r) = write_backup_done x xs at v h in
    let next = write_backup_next x xs at v w r in
    ap (λ (t : DefragVolume × Bool). t.0.content d) next
    ∙ write_backup_before xs (at + 1) d (with_content at x v) (omega (arith, below))
        (sym (ap (λ (t : DefragVolume × Bool). t.1) next) ∙ h)
    ∙ if_false (d == at) x (v.content d) (==_ne d at (λ e. omega (arith, e, below)))

write_backup-row :
    (values : List ℕ) (at : ℕ) (v : DefragVolume)
    → (write_backup at values v).1 ≡ true
    → map (write_backup at values v).0.content (row (length values) at) ≡ values
unfolding row
write_backup-row [] at v h = refl
write_backup-row (x ∷ xs) at v h =
    let (w, r) = write_backup_done x xs at v h in
    let next = write_backup_next x xs at v w r in
    let later = sym (ap (λ (t : DefragVolume × Bool). t.1) next) ∙ h in
    let first : (write_backup (at + 1) xs (with_content at x v)).0.content at ≡ x =
      write_backup_before xs (at + 1) at (with_content at x v) (omega arith) later
      ∙ if_true (at == at) x (v.content at) (==_refl at) in
    ap (λ (t : DefragVolume × Bool). map t.0.content (row (suc (length xs)) at)) next
    ∙ ap
        (λ y.
          y
          ∷ map (write_backup (at + 1) xs (with_content at x v)).0.content
              (row (length xs) (at + 1)))
        first
    ∙ ap (λ ys. x ∷ ys) (write_backup-row xs (at + 1) (with_content at x v) later)

-- The volume once the data and the directory entry are written.
abbrev entered : ℕ → ℕ → ℕ → DefragVolume → DefragVolume
entered entry_sector entry_idx start v = record v {
  starts = λ sector place.
      if sector == entry_sector && place == entry_idx then start else v.starts sector place;
}

moved :
    (c : ℕ) (cs values : List ℕ) (s entry_sector entry_idx : ℕ) (v : DefragVolume)
    → read_backup v (c ∷ cs) ≡ some values
    → (write_backup s values v).1 ≡ true
    → move_cluster_chain (c ∷ cs) s entry_sector entry_idx true v ≡ (
      free_old (c ∷ cs) (
          link_new
            (suc (length cs))
            s
            (entered entry_sector entry_idx s (write_backup s values v).0)),
      true,
    )
unfolding move_cluster_chain
moved c cs values s entry_sector entry_idx v e w = rw (e, move_cluster_chain) (rw w refl)

-- A move that succeeds has read and written everything.
move_done :
    (c : ℕ) (cs : List ℕ) (s entry_sector entry_idx : ℕ) (v : DefragVolume)
    → (move_cluster_chain (c ∷ cs) s entry_sector entry_idx true v).1 ≡ true
    → (values : List ℕ) × (read_backup v (c ∷ cs) ≡ some values)
      × ((write_backup s values v).1 ≡ true)
unfolding move_cluster_chain
move_done c cs s entry_sector entry_idx v h = elim (Option-cases (read_backup v (c ∷ cs))) [
  | inl e ↦ cc (rw (e, move_cluster_chain) at h)
  | inr (values, e) ↦ elim (Bool-cases (write_backup s values v).1) [
    | inl w ↦ (values, e, w)
    | inr w ↦ cc (rw w at (rw (e, move_cluster_chain) at h))
  ]
]

length-map_content : (f : ℕ → ℕ) (cs : List ℕ) → length (map f cs) ≡ length cs
length-map_content f [] = refl
length-map_content f (c ∷ cs) = ap suc (length-map_content f cs)

breaks_after-row : (n at : ℕ) → breaks_after at (row n (at + 1)) ≡ 0
unfolding breaks_after row
breaks_after-row zero at = refl
breaks_after-row (suc n) at =
    omega
      (arith, ap {B = ℕ} (λ b. if b then 0 else 1) (==_refl (at + 1)), breaks_after-row n (at + 1))

get_file_chain-row :
    (n s : ℕ) (v : DefragVolume)
    → IsRow v (suc n) s
    → 0 < s
    → s + suc n < lat_end
    → suc n ≤ 100000
    → get_file_chain v s ≡ row (suc n) s
unfolding get_file_chain
get_file_chain-row n s v r positive high small =
    let not_zero : (s == 0) ≡ false = ground (arith, positive) in
    if_false (s == 0) [] (links_from v 100000 s) not_zero
    ∙ links_from-row 100000 n s v r positive high (omega (arith, small))

fragment_count-row : (n at : ℕ) → fragment_count (row (suc n) at) ≡ 1
unfolding fragment_count row
fragment_count-row n at = omega (arith, breaks_after-row n at)

-- A file that the defragmenter has moved, to clusters that are none of its old ones and whose places in
-- the table are stored, is the row of clusters from its new start: its chain is this row, without a
-- break, the data along it is that of the old chain in the same order, and the directory entry gives the
-- new start.
pub move_cluster_chain-row :
    (c : ℕ) (cs : List ℕ) (s entry_sector entry_idx : ℕ) (v : DefragVolume)
    → (move_cluster_chain (c ∷ cs) s entry_sector entry_idx true v).1 ≡ true
    → 0 < s
    → s + suc (length cs) < lat_end
    → suc (length cs) ≤ 100000
    → ((i : ℕ) → i < suc (length cs) → IsStored (s + i))
    → ((i : ℕ) → i < suc (length cs) → mem (s + i) (c ∷ cs) ≡ false)
    → (get_file_chain (move_cluster_chain (c ∷ cs) s entry_sector entry_idx true v).0 s
        ≡ row (suc (length cs)) s)
      × (map
            (move_cluster_chain (c ∷ cs) s entry_sector entry_idx true v).0.content
            (row (suc (length cs)) s)
          ≡ map v.content (c ∷ cs))
      × (fragment_count (row (suc (length cs)) s) ≡ 1)
      × ((move_cluster_chain (c ∷ cs) s entry_sector entry_idx true v).0.starts entry_sector
            entry_idx
          ≡ s)
move_cluster_chain-row c cs s entry_sector entry_idx v h positive high small stored apart =
    let (values, e, w) = move_done c cs s entry_sector entry_idx v h in
    let n = suc (length cs) in
    let data_written = (write_backup s values v).0 in
    let linked = link_new n s (entered entry_sector entry_idx s data_written) in
    let final = free_old (c ∷ cs) linked in
    let result =
      ap (λ (r : DefragVolume × Bool). r.0) (moved c cs values s entry_sector entry_idx v e w) in
    let row_of =
      free_old-IsRow (c ∷ cs) n s linked apart
        (link_new-IsRow n s (entered entry_sector entry_idx s data_written) stored) in
    let copied = read_backup-map v (c ∷ cs) values e in
    let count : length values ≡ n = ap length copied ∙ length-map_content v.content (c ∷ cs) in
    let same =
      (free_old-content (c ∷ cs) linked).0
      ∙ (link_new-content n s (entered entry_sector entry_idx s data_written)).0 in
    let starts =
      (free_old-content (c ∷ cs) linked).1
      ∙ (link_new-content n s (entered entry_sector entry_idx s data_written)).1 in
    (
      ap (λ (t : DefragVolume). get_file_chain t s) result
          ∙ get_file_chain-row (length cs) s final row_of positive high small,
      ap (λ (t : DefragVolume). map t.content (row n s)) result
          ∙ ap (λ (f : ℕ → ℕ). map f (row n s)) same
          ∙ ap (λ k. map data_written.content (row k s)) (sym count)
          ∙ write_backup-row values s v w
          ∙ copied,
      fragment_count-row (length cs) s,
      ap (λ (t : DefragVolume). t.starts entry_sector entry_idx) result
          ∙ ap (λ (f : ℕ → ℕ → ℕ). f entry_sector entry_idx) starts
          ∙ rw (==_refl entry_sector, ==_refl entry_idx) refl,
    )
