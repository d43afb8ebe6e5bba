-- ===== src/Entries/Applying.antt =====
-- A change at a place that a search has found.
use level_fs.Base.{
  ℕ, zero, suc, ◌+◌, ◌*◌, ◌≤◌, ◌<◌, ◌==◌, ◌≡◌, refl, sym, ap, subst, ◌∙◌, if_true, if_false,
  if◌then◌else◌, List, [], ◌∷◌, Option, none, some, Bool, true, false, ◌||◌, not, map, leb, All,
  All-append, length, arith, Bool-cases, Option-cases, inl, inr,
}
use level_fs.Entries.{
  FileEntry, Store, Location, slots_from, read_slots, slots_of_sectors, slots_of_cluster,
  chain_from, find_from, first, change_sector, change_entry, find_entry_with,
}
use level_fs.Entries.Chains.{slots_of_chain, find_from-first}
use level_fs.Entries.Changes.{changed, slots_of_chain_after}

-- A place of a sector that can be read.
pub record IsSlot (view : ℕ → Option (List FileEntry)) (x : Location × FileEntry) : Type 0 where
  pub low : x.0.sector < 8
  pub there :
      (es : List FileEntry) × (view (x.0.cluster * 8 + x.0.sector) ≡ some es)
      × (x.0.index < length es)

pub slots_from-IsSlot :
    (view : ℕ → Option (List FileEntry)) (c sector index : ℕ) (all_es es : List FileEntry)
    → view (c * 8 + sector) ≡ some all_es
    → index + length es ≡ length all_es
    → sector < 8
    → All (IsSlot view) (slots_from c sector index es)
unfolding slots_from
slots_from-IsSlot view c sector index all_es [] h n low = tt
slots_from-IsSlot view c sector index all_es (e ∷ es) h n low = (
  record { low = low; there = (all_es, h, omega (arith, n)) },
  slots_from-IsSlot view c sector (suc index) all_es es h (omega (arith, n)) low,
)

pub read_slots-IsSlot :
    (view : ℕ → Option (List FileEntry)) (c sector : ℕ)
    → sector < 8
    → All (IsSlot view) (read_slots c sector (view (c * 8 + sector)))
read_slots-IsSlot view c sector low = elim (Option-cases (view (c * 8 + sector))) [
  | inl e ↦ rw e tt
  | inr (es, e) ↦
      subst (λ (o : Option (List FileEntry)). All (IsSlot view) (read_slots c sector o)) (sym e)
        (slots_from-IsSlot view c sector 0 es es e (omega arith) low)
]

pub slots_of_sectors-IsSlot :
    (view : ℕ → Option (List FileEntry)) (c left sector : ℕ)
    → left + sector ≤ 8
    → All (IsSlot view) (slots_of_sectors view c left sector)
unfolding slots_of_sectors
slots_of_sectors-IsSlot view c zero sector h = tt
slots_of_sectors-IsSlot view c (suc left) sector h =
    All-append (IsSlot view) (read_slots c sector (view (c * 8 + sector)))
      (slots_of_sectors view c left (suc sector))
      (read_slots-IsSlot view c sector (omega (arith, h)))
      (slots_of_sectors-IsSlot view c left (suc sector) (omega (arith, h)))

pub slots_of_chain-IsSlot :
    (view : ℕ → Option (List FileEntry)) (cs : List ℕ) → All (IsSlot view) (slots_of_chain view cs)
unfolding slots_of_chain slots_of_cluster
slots_of_chain-IsSlot view [] = tt
slots_of_chain-IsSlot view (c ∷ cs) =
    All-append (IsSlot view) (slots_of_cluster view c) (slots_of_chain view cs)
      (slots_of_sectors-IsSlot view c 8 0 (omega arith)) (slots_of_chain-IsSlot view cs)

pub first-All :
    (P : (Location × FileEntry) → Type 0) (p : (Location × FileEntry) → Bool)
    (xs : List (Location × FileEntry)) (x : Location × FileEntry)
    → All P xs
    → first p xs ≡ some x
    → P x
first-All P p [] x _ h = cc
first-All P p (y ∷ xs) x (g, gs) h = elim (Bool-cases (p y)) [
  | inl e ↦ let same : y ≡ x = cc (if_true (p y) (some y) (first p xs) e) in subst P (same) g
  | inr e ↦ first-All P p xs x gs (sym (if_false (p y) (some y) (first p xs) e) ∙ h)
]

-- The entries along the chain of a directory.
abbrev pub slots : Store → ℕ → List (Location × FileEntry)
slots st c = slots_of_chain st.entries (chain_from st.next_cluster 1000 c)

-- A sector holds eight entries.
pub record IsStore (st : Store) : Type 0 where
  pub sized : (k : ℕ) (es : List FileEntry) → st.entries k ≡ some es → length es ≤ 8

pub guarded :
    (b : Bool) (o : Option (Location × FileEntry)) (x : Location × FileEntry)
    → (if b then none else o) ≡ some x
    → (b ≡ false) × (o ≡ some x)
guarded true o x h = cc
guarded false o x h = (refl, h)

pub opened : (a b : Bool) → (not a || b) ≡ false → (a ≡ true) × (b ≡ false)
opened true b h = (refl, h)
opened false b h = cc

-- A directory that can be searched.
pub record IsOpen (st : Store) (c : ℕ) : Type 0 where
  pub is_open : st.is_open ≡ true
  pub not_zero : (c == 0) ≡ false

pub found_at :
    (st : Store) (p : (Location × FileEntry) → Bool) (c : ℕ) (x : Location × FileEntry)
    → find_entry_with st p c ≡ some x
    → IsOpen st c × (first p (slots st c) ≡ some x)
unfolding find_entry_with
found_at st p c x h =
    let (open_now, at) =
      guarded (not st.is_open || c == 0) (find_from st.entries st.next_cluster p 1000 c) x h in
    let (is_open, not_zero) = opened st.is_open (c == 0) open_now in
    (
      record { is_open = is_open; not_zero = not_zero },
      sym (find_from-first st.entries st.next_cluster p 1000 c) ∙ at,
    )

pub find_entry_with-first :
    (st : Store) (p : (Location × FileEntry) → Bool) (c : ℕ)
    → IsOpen st c
    → find_entry_with st p c ≡ first p (slots st c)
unfolding find_entry_with
find_entry_with-first st p c o =
    let open_now : (not st.is_open || c == 0) ≡ false = rw (o.is_open, o.not_zero) refl in
    if_false (not st.is_open || c == 0) none (find_from st.entries st.next_cluster p 1000 c)
      open_now
    ∙ find_from-first st.entries st.next_cluster p 1000 c

-- A change at a place that a search has found succeeds, and changes that entry along the chain.
pub record Applies (f : FileEntry → FileEntry) (l : Location) (c : ℕ) (st : Store)
    (r : Store × Bool) : Type 0 where
  pub accepted : r.1 ≡ true
  pub stays_open : IsOpen r.0 c
  pub after : slots r.0 c ≡ map (changed f l) (slots st c)

pub change_sector-Applies :
    (f : FileEntry → FileEntry) (l : Location) (c : ℕ) (st : Store) (es : List FileEntry)
    → IsOpen st c
    → st.entries (l.cluster * 8 + l.sector) ≡ some es
    → l.sector < 8
    → l.index < 8
    → Applies f l c st (change_sector f true l st (some es))
unfolding change_sector
change_sector-Applies f l c st es o there low index =
    let inside : (leb 8 l.index || not true) ≡ false = ground (arith, index) in
    rw inside (record {
      accepted = refl;
      stays_open = record { is_open = o.is_open; not_zero = o.not_zero };
      after = slots_of_chain_after f l st.entries es there low (chain_from st.next_cluster 1000 c);
    })

pub change_entry-Applies :
    (f : FileEntry → FileEntry) (p : (Location × FileEntry) → Bool) (c : ℕ) (st : Store)
    (x : Location × FileEntry)
    → IsStore st
    → find_entry_with st p c ≡ some x
    → Applies f x.0 c st (change_entry f true x.0 st)
unfolding change_entry
change_entry-Applies f p c st x sized h =
    let (o, at) = found_at st p c x h in
    let slot =
      first-All (IsSlot st.entries) p (slots st c) x
        (slots_of_chain-IsSlot st.entries (chain_from st.next_cluster 1000 c)) at in
    let (es, there, index) = slot.there in
    let k = x.0.cluster * 8 + x.0.sector in
    let result =
      if_false (not st.is_open) (st, false) (change_sector f true x.0 st (st.entries k))
        (ap not o.is_open)
      ∙ ap (change_sector f true x.0 st) there in
    subst (λ (r : Store × Bool). Applies f x.0 c st r) (sym result)
      (change_sector-Applies f x.0 c st es o there slot.low
        (omega (arith, index, sized.sized k es there)))
