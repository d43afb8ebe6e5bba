-- ===== src/Permissions/Cached.antt =====
-- PermissionCache: what get answers after add, and the number of entries.
use level_fs.Base.{
  ℕ, ◌+◌, ◌-◌, ◌≤◌, ◌<◌, ◌==◌, ltb, leb, if◌then◌else◌, ◌≡◌, refl, List, [], ◌∷◌, ◌++◌, none, some,
  Bool, true, false, not, arith, String, list_eq, list_eq_refl, keep, length, length-append,
  length-keep-le, Bool-cases, Option-cases, inl, inr,
}
use level_fs.Permissions.{
  is_valid_option, parse_perm_string, flag_of_letter, plus_sign, minus_sign, CacheEntry, is_expired,
  remove_expired, update_entry, erase_oldest, add_permission, find_entry, get_permission,
}

-- No entry has the path.
unfoldable absent : String → List CacheEntry → Bool
absent path [] = true
absent path (e ∷ es) = if list_eq e.path path then false else absent path es

update_entry-absent :
    (path : String) (perms now : ℕ) (es : List CacheEntry)
    → update_entry path perms now es ≡ none
    → absent path es ≡ true
unfolding update_entry absent
update_entry-absent path perms now [] h = refl
update_entry-absent path perms now (e ∷ es) h =
    ground (arith, update_entry-absent path perms now es)

-- A fresh entry is found once the expired ones before it are gone.
find_entry-fresh :
    (path : String) (now later : ℕ) (e : CacheEntry) (es : List CacheEntry)
    → absent path es ≡ true
    → list_eq e.path path ≡ true
    → is_expired later e ≡ false
    → find_entry path (remove_expired later (es ++ e ∷ []))
      ≡ record { perms = e.perms; found = true }
unfolding find_entry remove_expired absent
find_entry-fresh path now later e [] gone same fresh = rw (fresh, same)
find_entry-fresh path now later e (x ∷ xs) gone same fresh =
    let other : list_eq x.path path ≡ false = ground arith in
    let rest : absent path xs ≡ true = ground arith in
    elim (Bool-cases (is_expired later x)) [
      | inl old ↦ rw old (find_entry-fresh path now later e xs rest same fresh)
      | inr young ↦ rw (young, other) (find_entry-fresh path now later e xs rest same fresh)
    ]

update_entry-found :
    (path : String) (perms now later : ℕ) (es es' : List CacheEntry)
    → update_entry path perms now es ≡ some es'
    → later ≤ now + 30
    → find_entry path (remove_expired later es') ≡ record { perms = perms; found = true }
unfolding find_entry remove_expired update_entry
update_entry-found path perms now later [] es' h fresh = cc
update_entry-found path perms now later (x ∷ xs) es' h fresh =
    elim (Bool-cases (list_eq x.path path)) [
      | inl here ↦
          let e : es' ≡ record x { perms = perms; cache_time = now } ∷ xs = ground (arith, here) in
          let young : ltb 30 (later - now) ≡ false = ground arith in rw (e, young, here)
      | inr other ↦ elim (Option-cases (update_entry path perms now xs)) [
        | inl gone ↦ absurd (ground (arith, other, gone))
        | inr (r, found) ↦
            let e : es' ≡ x ∷ r = ground (arith, other, found) in
            elim (Bool-cases (is_expired later x)) [
              | inl old ↦ rw (e, old) (update_entry-found path perms now later xs r found fresh)
              | inr young ↦
                  rw (e, young, other) (update_entry-found path perms now later xs r found fresh)
            ]
      ]
    ]

absent-erase_oldest :
    (path : String) (es : List CacheEntry)
    → absent path es ≡ true
    → absent path (erase_oldest es) ≡ true
unfolding absent
absent-erase_oldest path [] h = refl
absent-erase_oldest path (e ∷ es) h = ground arith

length-update_entry :
    (path : String) (perms now : ℕ) (es es' : List CacheEntry)
    → update_entry path perms now es ≡ some es'
    → length es' ≡ length es
unfolding update_entry
length-update_entry path perms now [] es' h = cc
length-update_entry path perms now (x ∷ xs) es' h =
    elim (Option-cases (update_entry path perms now xs)) [
      | inl gone ↦ ground (arith, gone)
      | inr (r, found) ↦ ground (arith, found, length-update_entry path perms now xs r found)
    ]

-- A permission that was added is found under its path for thirty seconds, whatever the cache held.
pub get_permission-add_permission :
    (path : String) (perms now later : ℕ) (cache : List CacheEntry)
    → later ≤ now + 30
    → (get_permission path later (add_permission path perms now cache)).1
      ≡ record { perms = perms; found = true }
unfolding get_permission add_permission
get_permission-add_permission path perms now later cache fresh =
    let kept = remove_expired now cache in
    let e : CacheEntry = record { path = path; perms = perms; cache_time = now } in
    elim (Option-cases (update_entry path perms now kept)) [
      | inl none_there ↦
          let gone = update_entry-absent path perms now kept none_there in
          let young : is_expired later e ≡ false = ground arith in
          elim (Bool-cases (leb 64 (length kept))) [
            | inl full ↦
                rw (none_there, full, add_permission)
                  (find_entry-fresh path now later e (erase_oldest kept)
                    (absent-erase_oldest path kept gone) (list_eq_refl path) young)
            | inr room ↦
                rw (none_there, room, add_permission)
                  (find_entry-fresh path now later e kept gone (list_eq_refl path) young)
          ]
      | inr (updated, found) ↦
          rw (found, add_permission)
            (update_entry-found path perms now later kept updated found fresh)
    ]

length-erase_oldest : (es : List CacheEntry) → length (erase_oldest es) ≡ length es - 1
length-erase_oldest [] = omega arith
length-erase_oldest (e ∷ es) = omega arith

-- The cache keeps to its 64 entries: an addition to at most that many leaves at most that many.
pub add_permission_bounded :
    (path : String) (perms now : ℕ) (cache : List CacheEntry)
    → length cache ≤ 64
    → length (add_permission path perms now cache) ≤ 64
unfolding add_permission remove_expired
add_permission_bounded path perms now cache h =
    let kept = keep (λ e. not (is_expired now e)) cache in
    let e : CacheEntry = record { path = path; perms = perms; cache_time = now } in
    let size = length-keep-le (λ e. not (is_expired now e)) cache in
    elim (Option-cases (update_entry path perms now kept)) [
      | inl none_there ↦ elim (Bool-cases (leb 64 (length kept))) [
        | inl full ↦
            rw (none_there, full, add_permission)
              (omega (
                arith,
                length-append (erase_oldest kept) (e ∷ []),
                length-erase_oldest kept,
                size,
                h,
              ))
        | inr room ↦
            let small : length kept < 64 = ground arith in
            rw (none_there, room, add_permission)
              (omega (arith, length-append kept (e ∷ []), small))
      ]
      | inr (updated, found) ↦
          rw (found, add_permission)
            (omega (arith, length-update_entry path perms now kept updated found, size, h))
    ]

-- An option that isValidOption refuses changes no permission.
pub parse_perm_string_invalid :
    (option : String) (perms : ℕ)
    → is_valid_option option ≡ false
    → parse_perm_string option perms ≡ perms
unfolding parse_perm_string is_valid_option
parse_perm_string_invalid [] perms h = refl
parse_perm_string_invalid (sign ∷ []) perms h = refl
parse_perm_string_invalid (sign ∷ letter ∷ c ∷ cs) perms h = refl
parse_perm_string_invalid (sign ∷ letter ∷ []) perms h =
    elim (Option-cases (flag_of_letter letter)) [
      | inl e ↦ rw (e, parse_perm_string)
      | inr (flag, e) ↦
          let (p, m) : ((sign == plus_sign) ≡ false) × ((sign == minus_sign) ≡ false) =
            (ground (arith, e), ground (arith, e)) in
          rw (e, p, m, parse_perm_string)
    ]
