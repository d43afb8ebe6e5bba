-- ===== src/Entries/Changes.antt =====
-- A change of one entry, seen along a chain.
use level_fs.Base.{
  ℕ, zero, suc, ◌+◌, ◌*◌, ◌≤◌, ◌<◌, ◌==◌, ==_refl, ==_ne, ◌≡◌, ◌≢◌, refl, sym, ap, ◌∙◌, ◌⊎◌,
  if_false, if◌then◌else◌, List, [], ◌∷◌, ◌++◌, Option, none, some, Bool, true, false, ◌&&◌, map,
  arith, Bool-cases, inl, inr,
}
use level_fs.Entries.{
  FileEntry, Location, slots_from, read_slots, slots_of_sectors, slots_of_cluster, change_at,
  with_sector,
}
use level_fs.Entries.Chains.{slots_of_chain}

abbrev pub same_place : Location → Location → Bool
same_place l m = l.cluster == m.cluster && (l.sector == m.sector && l.index == m.index)

-- Where a place differs from another.
abbrev Differs : Location → Location → Type 0
Differs m l = (m.cluster ≢ l.cluster) ⊎ ((m.sector ≢ l.sector) ⊎ (m.index ≢ l.index))

Differs-same_place : (m l : Location) → Differs m l → same_place m l ≡ false
Differs-same_place m l (inl h) = rw (==_ne m.cluster l.cluster h) refl
Differs-same_place m l (inr (inl h)) = ground (arith, ==_ne m.sector l.sector h)
Differs-same_place m l (inr (inr h)) = ground (arith, ==_ne m.index l.index h)

pub same_place_refl : (l : Location) → same_place l l ≡ true
same_place_refl l = rw (==_refl l.cluster, ==_refl l.sector, ==_refl l.index) refl

both :
    {x y : Location × FileEntry} {xs ys : List (Location × FileEntry)}
    → x ≡ y
    → xs ≡ ys
    → x ∷ xs ≡ y ∷ ys
both {x} {y} {xs} {ys} e es = ap (λ z. z ∷ xs) e ∙ ap (λ zs. y ∷ zs) es

module _ (f : FileEntry → FileEntry) (l : Location) where
  -- The entry at one place is changed.
  abbrev pub changed : (Location × FileEntry) → Location × FileEntry
  changed (m, e) = (m, if same_place m l then f e else e)

  changed_other : (m : Location) (e : FileEntry) → Differs m l → changed (m, e) ≡ (m, e)
  changed_other m e h =
      ap {B = Location × FileEntry} (λ b. (m, if b then f e else e)) (Differs-same_place m l h)

  changed_same : (e : FileEntry) → changed (l, e) ≡ (l, f e)
  changed_same e =
      ap {B = Location × FileEntry} (λ b. (l, if b then f e else e)) (same_place_refl l)

  -- No place from an index on is that of the change.
  abbrev Apart : ℕ → ℕ → ℕ → Type 0
  Apart c sector index = (c ≢ l.cluster) ⊎ ((sector ≢ l.sector) ⊎ (l.index < index))

  Apart-Differs :
      (c sector index : ℕ)
      → Apart c sector index
      → Differs (record { cluster = c; sector = sector; index = index }) l
  Apart-Differs c sector index (inl h) = inl h
  Apart-Differs c sector index (inr (inl h)) = inr (inl h)
  Apart-Differs c sector index (inr (inr h)) = inr (inr (λ e. omega (arith, h, e)))

  Apart-suc : (c sector index : ℕ) → Apart c sector index → Apart c sector (suc index)
  Apart-suc c sector index (inl h) = inl h
  Apart-suc c sector index (inr (inl h)) = inr (inl h)
  Apart-suc c sector index (inr (inr h)) = inr (inr (omega (arith, h)))

  slots_from_untouched :
      (c sector index : ℕ) (es : List FileEntry)
      → Apart c sector index
      → map changed (slots_from c sector index es) ≡ slots_from c sector index es
  unfolding slots_from
  slots_from_untouched c sector index [] h = refl
  slots_from_untouched c sector index (e ∷ es) h =
      both
        (changed_other (record { cluster = c; sector = sector; index = index }) e
          (Apart-Differs c sector index h))
        (slots_from_untouched c sector (suc index) es (Apart-suc c sector index h))

  slots_from-change_at :
      (j base : ℕ) (es : List FileEntry)
      → l.index ≡ base + j
      → map changed (slots_from l.cluster l.sector base es)
        ≡ slots_from l.cluster l.sector base (change_at j f es)
  unfolding slots_from
  slots_from-change_at zero base [] h = refl
  slots_from-change_at (suc j) base [] h = refl
  slots_from-change_at zero base (e ∷ es) h =
      let here : l.index ≡ base = omega (arith, h) in
      rw (← here) (
        both (changed_same e)
          (slots_from_untouched l.cluster l.sector (suc l.index) es (inr (inr (omega arith)))))
  slots_from-change_at (suc j) base (e ∷ es) h =
      both (changed_other (record l { index = base }) e (inr (inr (λ at. omega (arith, h, at)))))
        (slots_from-change_at j (suc base) es (omega (arith, h)))

  read_slots_untouched :
      (c sector : ℕ) (o : Option (List FileEntry))
      → Apart c sector 0
      → map changed (read_slots c sector o) ≡ read_slots c sector o
  read_slots_untouched c sector none h = refl
  read_slots_untouched c sector (some es) h = slots_from_untouched c sector 0 es h

  number-Apart : (c sector : ℕ) → c * 8 + sector ≢ l.cluster * 8 + l.sector → Apart c sector 0
  number-Apart c sector h = elim (Bool-cases (c == l.cluster)) [
    | inl same ↦
        let at : c ≡ l.cluster = ground (arith, same) in inr (inl (λ e. h (omega (arith, at, e))))
    | inr other ↦ inl (ground (arith, other))
  ]

  map-changed_append :
      (xs ys : List (Location × FileEntry))
      → map changed (xs ++ ys) ≡ map changed xs ++ map changed ys
  map-changed_append [] ys = refl
  map-changed_append (x ∷ xs) ys = ap (λ zs. changed x ∷ zs) (map-changed_append xs ys)

  -- The view after the change.
  module _ (view : ℕ → Option (List FileEntry)) (es : List FileEntry)
      (there : view (l.cluster * 8 + l.sector) ≡ some es) (low : l.sector < 8) where
    abbrev after : ℕ → Option (List FileEntry)
    after = with_sector (l.cluster * 8 + l.sector) (change_at l.index f es) view

    read_slots_after :
        (c sector : ℕ)
        → sector < 8
        → read_slots c sector (after (c * 8 + sector))
          ≡ map changed (read_slots c sector (view (c * 8 + sector)))
    read_slots_after c sector h = elim (Bool-cases (c * 8 + sector == l.cluster * 8 + l.sector)) [
      | inl same ↦
          let number : c * 8 + sector ≡ l.cluster * 8 + l.sector = ground (arith, same) in
          let at_cluster : c ≡ l.cluster = omega (arith, number, h, low) in
          let at_sector : sector ≡ l.sector = omega (arith, number, h, low) in
          rw (at_cluster, at_sector)
            (rw (==_refl (l.cluster * 8 + l.sector), there)
              (sym (slots_from-change_at l.index 0 es (omega arith))))
      | inr other ↦
          ap (read_slots c sector) (
            if_false (c * 8 + sector == l.cluster * 8 + l.sector) (some (change_at l.index f es))
              (view (c * 8 + sector)) other)
          ∙ sym (
              read_slots_untouched c sector (view (c * 8 + sector))
                (number-Apart c sector (ground (arith, other))))
    ]

    slots_of_sectors_after :
        (c left sector : ℕ)
        → left + sector ≤ 8
        → slots_of_sectors after c left sector ≡ map changed (slots_of_sectors view c left sector)
    unfolding slots_of_sectors
    slots_of_sectors_after c zero sector h = refl
    slots_of_sectors_after c (suc left) sector h =
        ap (λ zs. zs ++ slots_of_sectors after c left (suc sector))
          (read_slots_after c sector (omega (arith, h)))
        ∙ ap (λ zs. map changed (read_slots c sector (view (c * 8 + sector))) ++ zs)
            (slots_of_sectors_after c left (suc sector) (omega (arith, h)))
        ∙ sym (
            map-changed_append (read_slots c sector (view (c * 8 + sector)))
              (slots_of_sectors view c left (suc sector)))

    pub slots_of_chain_after :
        (cs : List ℕ) → slots_of_chain after cs ≡ map changed (slots_of_chain view cs)
    unfolding slots_of_chain slots_of_cluster
    slots_of_chain_after [] = refl
    slots_of_chain_after (c ∷ cs) =
        ap (λ zs. zs ++ slots_of_chain after cs) (slots_of_sectors_after c 8 0 (omega arith))
        ∙ ap (λ zs. map changed (slots_of_cluster view c) ++ zs) (slots_of_chain_after cs)
        ∙ sym (map-changed_append (slots_of_cluster view c) (slots_of_chain view cs))
