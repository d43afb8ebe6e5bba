-- ===== src/Defrag/Finished.antt =====
-- A file that defragFile has gone through, and a directory's files.
use level_fs.Base.{
  ℕ, zero, suc, ◌+◌, ◌≤◌, ◌<◌, ◌≡◌, ◌≢◌, refl, sym, ap, subst, ◌∙◌, ◌==◌, leb, List, [], ◌∷◌, Bool,
  true, false, ◌&&◌, ◌||◌, not, length, mem, map, keep, arith, Bool-cases, inl, inr,
}
use level_fs.Entries.{FileEntry, Location}
use level_fs.Defrag.{
  DefragVolume, lat_free, lat_end, get_link, links_from, get_file_chain, fragment_count,
  is_contiguous, find_contiguous_space, move_cluster_chain,
}
use level_fs.Defrag.Space.{find_contiguous_space-found}
use level_fs.Defrag.Links.{IsStored, row}
use level_fs.Defrag.Moved.{move_cluster_chain-row}
use level_fs.Defrag.File.{
  type_file, perm_write, defrag_dry_run, defrag_force, has_bit, Defragmenter, skipped,
  dry_processed, no_space, move_failed, processed, defrag_file, is_file, defrag_files,
  defrag_directory_files,
}

length-links_from : (v : DefragVolume) (limit c : ℕ) → length (links_from v limit c) ≤ limit
unfolding links_from
length-links_from v zero c = omega arith
length-links_from v (suc limit) c = elim (Bool-cases (c == 0 || (c == lat_end || c == lat_free))) [
  | inl stops ↦ rw stops (omega arith)
  | inr goes_on ↦ elim (Bool-cases (get_link v c == c)) [
    | inl loop ↦ rw (goes_on, loop) (omega arith)
    | inr next ↦ rw (goes_on, next) (omega (arith, length-links_from v limit (get_link v c)))
  ]
]

length-get_file_chain : (v : DefragVolume) (c : ℕ) → length (get_file_chain v c) ≤ 100000
unfolding get_file_chain
length-get_file_chain v c = elim (Bool-cases (c == 0)) [
  | inl e ↦ rw e (omega arith)
  | inr e ↦ rw e (length-links_from v 100000 c)
]

module _ (v : DefragVolume) (entry_sector entry_idx : ℕ) where
  -- The volume after the move of a chain to the space that is found for it.
  abbrev moved_volume : List ℕ → DefragVolume × Bool
  moved_volume chain =
      move_cluster_chain chain (find_contiguous_space v (length chain)) entry_sector entry_idx true
        v

  moved-contiguous :
      (chain : List ℕ)
      → is_contiguous chain ≡ false
      → length chain ≤ 100000
      → v.data_start ≤ v.total_clusters
      → v.total_clusters < lat_end
      → ((i : ℕ) → i < length chain → IsStored (find_contiguous_space v (length chain) + i))
      → ((c : ℕ) → mem c chain ≡ true → get_link v c ≢ lat_free)
      → find_contiguous_space v (length chain) ≢ 0
      → (moved_volume chain).1 ≡ true
      → let v' = (moved_volume chain).0 in
        let start = v'.starts entry_sector entry_idx in
        (is_contiguous (get_file_chain v' start) ≡ true)
        × (map v'.content (get_file_chain v' start) ≡ map v.content chain)
  unfolding is_contiguous
  moved-contiguous [] broken small inside high stored used found done =
      let whole : true ≡ false = unfold fragment_count in broken in cc whole
  moved-contiguous (c ∷ cs) broken small inside high stored used found done =
      let n = suc (length cs) in
      let s = find_contiguous_space v n in
      let v' = (moved_volume (c ∷ cs)).0 in
      let space = find_contiguous_space-found v n (omega arith) found inside in
      let positive : 0 < s = omega (arith, found) in
      let apart : (i : ℕ) → i < n → mem (s + i) (c ∷ cs) ≡ false = λ i below.
        elim (Bool-cases (mem (s + i) (c ∷ cs))) [
          | inl old ↦ absurd (used (s + i) old (space.free i below))
          | inr new ↦ new
        ] in
      let (chain, content, fragments, start) =
        move_cluster_chain-row c cs s entry_sector entry_idx v done positive
          (omega (arith, space.fits, high)) small stored apart in
      let new_chain : get_file_chain v' (v'.starts entry_sector entry_idx) ≡ row n s =
        ap (get_file_chain v') start ∙ chain in
      (
        ap (λ cs. leb (fragment_count cs) 1) new_chain ∙ ap (λ k. leb k 1) fragments,
        ap (map v'.content) new_chain ∙ content,
      )

-- What a call that moves a file does.
defrag_file-moves :
    (e : FileEntry) (entry_sector entry_idx : ℕ) (d : Defragmenter)
    → has_bit d.flags defrag_dry_run ≡ false
    → (defrag_file e entry_sector entry_idx true d).0.result.files_processed
      ≢ d.result.files_processed
    → let chain = get_file_chain d.volume e.start_cluster in
      (is_contiguous chain ≡ false)
      × (find_contiguous_space d.volume (length chain) ≢ 0)
      × ((moved_volume d.volume entry_sector entry_idx chain).1 ≡ true)
      × ((defrag_file e entry_sector entry_idx true d).0.volume
          ≡ (moved_volume d.volume entry_sector entry_idx chain).0)
unfolding defrag_file skipped no_space move_failed processed
defrag_file-moves e entry_sector entry_idx d wet h =
    let chain = get_file_chain d.volume e.start_cluster in
    elim (Bool-cases (not (e.type == type_file) || e.start_cluster == 0)) [
      | inl a ↦ absurd (h (rw a refl))
      | inr a ↦
          elim (Bool-cases
            (not (has_bit e.attributes perm_write) && not (has_bit d.flags defrag_force))) [
              | inl b ↦ absurd (h (rw (a, b) refl))
              | inr b ↦ elim (Bool-cases (is_contiguous chain)) [
                | inl f ↦ absurd (h (rw (a, b, f) refl))
                | inr f ↦ elim (Bool-cases (find_contiguous_space d.volume (length chain) == 0)) [
                  | inl g ↦ absurd (h (rw (a, b, f, wet, g) refl))
                  | inr g ↦
                      elim (Bool-cases (moved_volume d.volume entry_sector entry_idx chain).1) [
                        | inr k ↦ absurd (h (rw (a, b, f, wet, g, k) refl))
                        | inl k ↦ (f, ground (arith, g), k, rw (a, b, f, wet, g, k) refl)
                      ]
                ]
              ]
            ]
    ]

-- A file that defragFile counts as processed, outside a dry run, is contiguous from the start cluster
-- that its directory entry then has, and its data along the new chain is the data along the old one; if
-- the directory's sector can be read and written, the data of the volume starts before its end, no link
-- of the old chain is free, and the places of the new clusters in the table are stored.
pub defrag_file-contiguous :
    (e : FileEntry) (entry_sector entry_idx : ℕ) (d : Defragmenter)
    → has_bit d.flags defrag_dry_run ≡ false
    → (defrag_file e entry_sector entry_idx true d).0.result.files_processed
      ≢ d.result.files_processed
    → d.volume.data_start ≤ d.volume.total_clusters
    → d.volume.total_clusters < lat_end
    → ((c : ℕ)
        → mem c (get_file_chain d.volume e.start_cluster) ≡ true
        → get_link d.volume c ≢ lat_free)
    → ((i : ℕ)
        → i < length (get_file_chain d.volume e.start_cluster)
        → IsStored
            (find_contiguous_space d.volume (length (get_file_chain d.volume e.start_cluster)) + i))
    → let v = (defrag_file e entry_sector entry_idx true d).0.volume in
      let start = v.starts entry_sector entry_idx in
      (is_contiguous (get_file_chain v start) ≡ true)
      × (map v.content (get_file_chain v start)
          ≡ map d.volume.content (get_file_chain d.volume e.start_cluster))
defrag_file-contiguous e entry_sector entry_idx d wet counted inside high used stored =
    let chain = get_file_chain d.volume e.start_cluster in
    let (broken, found, done, result) = defrag_file-moves e entry_sector entry_idx d wet counted in
    subst
      (λ (v : DefragVolume).
        (is_contiguous (get_file_chain v (v.starts entry_sector entry_idx)) ≡ true)
        × (map v.content (get_file_chain v (v.starts entry_sector entry_idx))
            ≡ map d.volume.content chain))
      (sym result)
      (moved-contiguous d.volume entry_sector entry_idx chain broken
        (length-get_file_chain d.volume e.start_cluster) inside high stored used found done)

-- The files that a result accounts for.
abbrev pub files_seen : Defragmenter → ℕ
files_seen d = d.result.files_processed + d.result.files_skipped + d.result.files_failed

files_seen-defrag_file :
    (e : FileEntry) (entry_sector entry_idx : ℕ) (entry_ok : Bool) (d : Defragmenter)
    → (not (e.type == type_file) || e.start_cluster == 0) ≡ false
    → files_seen (defrag_file e entry_sector entry_idx entry_ok d).0 ≡ suc (files_seen d)
unfolding defrag_file skipped dry_processed no_space move_failed processed
files_seen-defrag_file e entry_sector entry_idx entry_ok d a =
    let chain = get_file_chain d.volume e.start_cluster in
    let space = find_contiguous_space d.volume (length chain) in
    elim (Bool-cases
      (not (has_bit e.attributes perm_write) && not (has_bit d.flags defrag_force))) [
        | inl b ↦ rw (a, b) (omega arith)
        | inr b ↦ elim (Bool-cases (is_contiguous chain)) [
          | inl f ↦ rw (a, b, f) (omega arith)
          | inr f ↦ elim (Bool-cases (has_bit d.flags defrag_dry_run)) [
            | inl t ↦ rw (a, b, f, t) (omega arith)
            | inr t ↦ elim (Bool-cases (space == 0)) [
              | inl g ↦ rw (a, b, f, t, g) (omega arith)
              | inr g ↦
                  elim (Bool-cases
                    (move_cluster_chain chain space entry_sector entry_idx entry_ok d.volume).1) [
                      | inl k ↦ rw (a, b, f, t, g, k) (omega arith)
                      | inr k ↦ rw (a, b, f, t, g, k) (omega arith)
                    ]
            ]
          ]
        ]
      ]

files_seen-defrag_files :
    (entry_ok : Location → Bool) (slots : List (Location × FileEntry)) (d : Defragmenter)
    → files_seen (defrag_files entry_ok (keep is_file slots) d)
      ≡ files_seen d + length (keep is_file slots)
unfolding defrag_files
files_seen-defrag_files entry_ok [] d = omega arith
files_seen-defrag_files entry_ok ((l, e) ∷ slots) d = elim (Bool-cases (is_file (l, e))) [
  | inr other ↦ rw other (files_seen-defrag_files entry_ok slots d)
  | inl file ↦
      let next = (defrag_file e l.sector l.index (entry_ok l) d).0 in
      let one : files_seen next ≡ suc (files_seen d) =
        files_seen-defrag_file e l.sector l.index (entry_ok l) d (ground (arith, file)) in
      rw file (omega (arith, files_seen-defrag_files entry_ok slots next, one))
]

-- Going over a directory's entries counts each file that has clusters exactly once, as processed, as
-- skipped or as failed, whatever fails on the way and whatever the flags are.
pub files_seen-defrag_directory_files :
    (entry_ok : Location → Bool) (slots : List (Location × FileEntry)) (d : Defragmenter)
    → files_seen (defrag_directory_files entry_ok slots d)
      ≡ files_seen d + length (keep is_file slots)
unfolding defrag_directory_files
files_seen-defrag_directory_files entry_ok slots d = files_seen-defrag_files entry_ok slots d
