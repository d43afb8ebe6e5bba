-- ===== src/Levels/Registered.antt =====
-- A level that was registered is found.
use level_fs.Base.{
  ℕ, ◌+◌, ◌%◌, ◌^◌, ◌≤◌, ◌<◌, ◌≡◌, ◌≢◌, refl, sym, ◌∙◌, ◌==◌, ==_refl, ==_ne, if_false, leb, length,
  List, none, some, false, String, list_eq_refl, arith, Bool-cases, Option-cases, inl, inr,
}
use level_fs.Levels.{
  LevelDescriptor, Registry, sectors_of, find_in, is_free_place, has_id, has_level_name,
  find_level_by_id, find_level_by_name, fill_in, new_level, register_new_level,
}
use level_fs.Levels.Filling.{
  IsNumbered, All-more, Numbered-Absent, find_in-Absent, fill_in-find, fill_in-All, fill_in-none,
}

-- A level with the values that it was registered with.
pub record HasValues (name : String) (level_id parent content timestamp : ℕ) (d : LevelDescriptor)
    : Type 0 where
  pub named : d.name ≡ name
  pub numbered : d.level_id ≡ level_id
  pub parent_level : d.parent_level_id ≡ parent
  pub content_cluster : d.root_content_cluster ≡ content
  pub created : (d.create_time ≡ timestamp) × (d.mod_time ≡ timestamp)
  pub active : d.flags ≡ 1
  pub counts : (d.ref_count ≡ 1) × (d.child_count ≡ 0)

new_level-HasValues :
    (name : String) (level_id parent content timestamp : ℕ) (d : LevelDescriptor)
    → HasValues name level_id parent content timestamp
        (new_level name level_id parent content timestamp d)
unfolding new_level
new_level-HasValues name level_id parent content timestamp d = record {
  named = refl;
  numbered = refl;
  parent_level = refl;
  content_cluster = refl;
  created = (refl, refl);
  active = refl;
  counts = (refl, refl);
}

module _ (r : Registry) (chain : List ℕ) (name : String) (parent content timestamp : ℕ) where
  -- The level that is written.
  abbrev registered : LevelDescriptor → LevelDescriptor
  registered = new_level name r.next_level_id parent content timestamp

  -- The registry once a level is written.
  abbrev with_level : (ℕ → List LevelDescriptor) → Registry
  with_level sectors' = record r {
    next_level_id = (r.next_level_id + 1) % 2 ^ 64;
    total_levels = (r.total_levels + 1) % 2 ^ 64;
    sectors = sectors';
  }

  registered_sectors :
      (r.registry_cluster == 0) ≡ false
      → length name < 32
      → find_in is_free_place r.sectors (sectors_of chain) ≢ none
      → (sectors' : ℕ → List LevelDescriptor) × (fill_in registered r.sectors (sectors_of chain)
          ≡ some sectors')
        × (register_new_level name parent content timestamp chain r
            ≡ some (with_level sectors', r.next_level_id))
  unfolding register_new_level
  registered_sectors there short free =
      elim (Option-cases (fill_in registered r.sectors (sectors_of chain))) [
        | inl f ↦ absurd (free (fill_in-none registered r.sectors (sectors_of chain) f))
        | inr (sectors', f) ↦
            let held : leb 32 (length name) ≡ false = ground (arith, short) in
            (sectors', f, rw (there, f, held) refl)
      ]

-- Where the registry has a free place, a level whose name fits its array and is not in use is
-- registered under the next id, and is found by this id and by its name, with the name, the id, the
-- parent, the content cluster and the time that were given, active, and with counts of 1 and 0; if the
-- ids of the active levels were below the next one.
pub find_level-register_new_level :
    (r : Registry) (chain : List ℕ) (name : String) (parent content timestamp : ℕ)
    → IsNumbered r chain
    → find_level_by_name r chain name ≡ none
    → length name < 32
    → r.registry_cluster ≢ 0
    → find_in is_free_place r.sectors (sectors_of chain) ≢ none
    → (r' : Registry) × (register_new_level name parent content timestamp chain r
        ≡ some (r', r.next_level_id))
      × ((d : LevelDescriptor) × (find_level_by_id r' chain r.next_level_id ≡ some d)
          × HasValues name r.next_level_id parent content timestamp d)
      × ((d : LevelDescriptor) × (find_level_by_name r' chain name ≡ some d)
          × HasValues name r.next_level_id parent content timestamp d)
unfolding find_level_by_id find_level_by_name
find_level-register_new_level r chain name parent content timestamp numbered unused short registry
      free =
    let fill = registered r chain name parent content timestamp in
    let ks = sectors_of chain in
    let there : (r.registry_cluster == 0) ≡ false = ==_ne r.registry_cluster 0 registry in
    let (sectors', filled, result) =
      registered_sectors r chain name parent content timestamp there short free in
    let nameless : find_in (has_level_name name) r.sectors ks ≡ none =
      sym
        (if_false (r.registry_cluster == 0) none (find_in (has_level_name name) r.sectors ks) there)
      ∙ unused in
    let (d, by_id) =
      fill_in-find fill (has_id r.next_level_id) r.sectors sectors' ks filled
        (λ x. unfold new_level in rw (==_refl r.next_level_id) refl)
        (Numbered-Absent r.next_level_id r.sectors ks numbered.ids) in
    let (e, by_name) =
      fill_in-find fill (has_level_name name) r.sectors sectors' ks filled
        (λ x. unfold new_level in rw (list_eq_refl name) refl)
        (find_in-Absent (has_level_name name) r.sectors ks nameless) in
    (
      with_level r chain name parent content timestamp sectors',
      result,
      (
        fill d,
        if_false (r.registry_cluster == 0) none (find_in (has_id r.next_level_id) sectors' ks) there
            ∙ by_id,
        new_level-HasValues name r.next_level_id parent content timestamp d,
      ),
      (
        fill e,
        if_false (r.registry_cluster == 0) none (find_in (has_level_name name) sectors' ks) there
            ∙ by_name,
        new_level-HasValues name r.next_level_id parent content timestamp e,
      ),
    )

-- A registration of a level whose name fits its array comes to a result and keeps the ids of the active
-- levels below the next one, whether it finds a place or not, as long as the ids stay below 2 ^ 64.
pub register_new_level-IsNumbered :
    (r : Registry) (chain : List ℕ) (name : String) (parent content timestamp : ℕ)
    → length name < 32
    → r.next_level_id + 1 < 2 ^ 64
    → IsNumbered r chain
    → (result : Registry × ℕ) × (register_new_level name parent content timestamp chain r
        ≡ some result)
      × IsNumbered result.0 chain
unfolding register_new_level
register_new_level-IsNumbered r chain name parent content timestamp short small numbered =
    let fill = registered r chain name parent content timestamp in
    let ks = sectors_of chain in
    let n = r.next_level_id in
    let m = (n + 1) % 2 ^ 64 in
    let next : m ≡ n + 1 = omega (arith, small) in
    let grows : n ≤ m = omega (arith, next) in
    let written = with_level r chain name parent content timestamp in
    elim (Bool-cases (r.registry_cluster == 0)) [
      | inl e ↦ ((r, 0), rw e refl, numbered)
      | inr e ↦ elim (Option-cases (fill_in fill r.sectors ks)) [
        | inl f ↦ (
          (written r.sectors, 0),
          rw (e, f) refl,
          record { ids = All-more n m r.sectors ks grows numbered.ids },
        )
        | inr (sectors', f) ↦
            let held : leb 32 (length name) ≡ false = ground (arith, short) in
            (
              (written sectors', n),
              rw (e, f, held) refl,
              record {
                ids =
                    fill_in-All fill n m r.sectors sectors' ks ks grows f
                      (λ d. unfold new_level in ground (arith, next)) numbered.ids;
              },
            )
      ]
    ]
