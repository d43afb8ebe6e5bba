-- ===== src/Defrag/Links.antt =====
-- The links of a chain that was moved.
use level_fs.Base.{
  ℕ, zero, suc, ◌+◌, ◌-◌, ◌/◌, ◌%◌, ◌<◌, ◌≡◌, ◌≢◌, refl, ap, ◌∙◌, ◌==◌, ==_refl, ==_ne, ltb,
  if◌then◌else◌, List, [], ◌∷◌, false, ◌&&◌, ◌||◌, mem, arith, Bool-cases, inl, inr,
}
use level_fs.Defrag.{
  DefragVolume, lat_free, lat_end, get_link, set_link, links_from, link_new, free_old,
}

pub other_place : (c d : ℕ) → d ≢ c → (d / 256 == c / 256 && d % 256 == c % 256) ≡ false
other_place c d h = elim (Bool-cases (d / 256 == c / 256)) [
  | inl same ↦
      let quotient : d / 256 ≡ c / 256 = ground (arith, same) in
      rw same (==_ne (d % 256) (c % 256) (λ e. h (omega (arith, quotient, e))))
  | inr other ↦ rw other refl
]

pub get_link-set_link :
    (v : DefragVolume) (c d next : ℕ)
    → get_link (set_link c next v) d ≡ (if d == c && ltb (c % 256) 32 then next else get_link v d)
unfolding get_link set_link
get_link-set_link v c d next = elim (Bool-cases (d == c)) [
  | inl same ↦
      let at : d ≡ c = ground (arith, same) in
      rw (at, ==_refl c, ==_refl (c / 256), ==_refl (c % 256))
        (elim (Bool-cases (ltb (c % 256) 32)) [
          | inl stored ↦ rw stored refl
          | inr lost ↦ rw lost refl
        ])
  | inr other ↦
      let apart : (d / 256 == c / 256 && d % 256 == c % 256) ≡ false =
        other_place c d (ground (arith, other)) in
      rw (other, apart) refl
]

-- The clusters of a row.
unfoldable pub row : ℕ → ℕ → List ℕ
row zero at = []
row (suc n) at = at ∷ row n (at + 1)

-- Clusters whose place a write of the table's sector stores.
abbrev pub IsStored : ℕ → Type 0
IsStored c = c % 256 < 32

pub get_link-set_link_stored :
    (v : DefragVolume) (c d next : ℕ)
    → IsStored c
    → get_link (set_link c next v) d ≡ (if d == c then next else get_link v d)
get_link-set_link_stored v c d next h = get_link-set_link v c d next ∙ ground (arith, h)

pub set_link_other :
    (v : DefragVolume) (c d next : ℕ) → d ≢ c → get_link (set_link c next v) d ≡ get_link v d
set_link_other v c d next h = get_link-set_link v c d next ∙ rw (==_ne d c h) refl

-- The links of a new chain.
pub link_new_before :
    (n at d : ℕ) (v : DefragVolume) → d < at → get_link (link_new n at v) d ≡ get_link v d
unfolding link_new
link_new_before zero at d v h = refl
link_new_before (suc zero) at d v h = set_link_other v at d lat_end (λ e. omega (arith, h, e))
link_new_before (suc (suc n)) at d v h =
    link_new_before (suc n) (at + 1) d (set_link at (at + 1) v) (omega (arith, h))
    ∙ set_link_other v at d (at + 1) (λ e. omega (arith, h, e))

pub link_new_first :
    (n at : ℕ) (v : DefragVolume)
    → IsStored at
    → get_link (link_new (suc n) at v) at ≡ (if n == 0 then lat_end else at + 1)
unfolding link_new
link_new_first zero at v h = get_link-set_link_stored v at at lat_end h ∙ rw (==_refl at) refl
link_new_first (suc n) at v h =
    link_new_before (suc n) (at + 1) at (set_link at (at + 1) v) (omega arith)
    ∙ get_link-set_link_stored v at at (at + 1) h
    ∙ rw (==_refl at) (ground arith)

pub free_old_other :
    (cs : List ℕ) (d : ℕ) (v : DefragVolume)
    → mem d cs ≡ false
    → get_link (free_old cs v) d ≡ get_link v d
unfolding free_old
free_old_other [] d v h = refl
free_old_other (c ∷ cs) d v h =
    free_old_other cs d (set_link c lat_free v) (ground (arith, h))
    ∙ set_link_other v c d lat_free (λ e. absurd (ground (arith, h, e)))

-- The links of a chain that was moved, seen from one of its clusters on.
pub record IsRow (v : DefragVolume) (n at : ℕ) : Type 0 where
  pub links : (i : ℕ) → i < n → get_link v (at + i) ≡ (if suc i == n then lat_end else at + i + 1)

pub IsRow-suc : (v : DefragVolume) (n at : ℕ) → IsRow v (suc n) at → IsRow v n (at + 1)
IsRow-suc v n at r = record {
  links = λ i below.
      let place : at + 1 + i ≡ at + suc i = omega arith in
      rw place (r.links (suc i) (omega (arith, below)) ∙ ground arith);
}

pub IsRow-first :
    (v : DefragVolume) (n at : ℕ)
    → IsRow v (suc n) at
    → get_link v at ≡ (if n == 0 then lat_end else at + 1)
IsRow-first v n at r =
    let place : at ≡ at + 0 = omega arith in
    ap (get_link v) place ∙ r.links 0 (omega arith) ∙ ground arith

-- One round of the loop.
pub links_from_step :
    (v : DefragVolume) (limit at next : ℕ)
    → 0 < at
    → at < lat_end
    → get_link v at ≡ next
    → next ≢ at
    → links_from v (suc limit) at ≡ at ∷ links_from v limit next
unfolding links_from
links_from_step v limit at next positive high e ne =
    let goes_on : (at == 0 || (at == lat_end || at == lat_free)) ≡ false =
      ground (arith, positive, high) in
    rw (goes_on, e, ==_ne next at ne) refl

pub links_from_end : (v : DefragVolume) (limit : ℕ) → links_from v limit lat_end ≡ []
unfolding links_from
links_from_end v zero = refl
links_from_end v (suc limit) = refl

pub links_from-row :
    (limit n at : ℕ) (v : DefragVolume)
    → IsRow v (suc n) at
    → 0 < at
    → at + suc n < lat_end
    → n < limit
    → links_from v limit at ≡ row (suc n) at
unfolding row
links_from-row zero n at v r positive high enough = absurd (omega (arith, enough))
links_from-row (suc limit) zero at v r positive high enough =
    links_from_step v limit at lat_end positive (omega (arith, high)) (IsRow-first v 0 at r)
      (λ e. omega (arith, e, high))
    ∙ ap (λ cs. at ∷ cs) (links_from_end v limit)
links_from-row (suc limit) (suc n) at v r positive high enough =
    links_from_step v limit at (at + 1) positive (omega (arith, high))
      (IsRow-first v (suc n) at r ∙ ground arith) (λ e. omega (arith, e))
    ∙ ap (λ cs. at ∷ cs)
        (links_from-row limit n (at + 1) v (IsRow-suc v (suc n) at r) (omega arith)
          (omega (arith, high)) (omega (arith, enough)))

pub IsRow-cons :
    (v : DefragVolume) (n at : ℕ)
    → get_link v at ≡ (if n == 0 then lat_end else at + 1)
    → IsRow v n (at + 1)
    → IsRow v (suc n) at
IsRow-cons v n at e r = record {
  links = λ i below. elim (Bool-cases (i == 0)) [
    | inl first ↦
        let nothing : i ≡ 0 = ground (arith, first) in
        let place : at + i ≡ at = omega (arith, nothing) in
        ap (get_link v) place ∙ e ∙ ground (arith, nothing)
    | inr later ↦
        let more : 0 < i = ground (arith, later) in
        let place : at + i ≡ at + 1 + (i - 1) = omega (arith, more) in
        let back : suc (i - 1) ≡ i = omega (arith, more) in
        ap (get_link v) place
        ∙ r.links (i - 1) (omega (arith, below, more))
        ∙ ground (arith, more, place)
  ];
}

pub IsStored-first : (at n : ℕ) → ((i : ℕ) → i < n → IsStored (at + i)) → 0 < n → IsStored at
IsStored-first at n h some_left =
    let place : at + 0 ≡ at = omega arith in rw place at (h 0 some_left)

pub link_new-IsRow :
    (n at : ℕ) (v : DefragVolume)
    → ((i : ℕ) → i < n → IsStored (at + i))
    → IsRow (link_new n at v) n at
unfolding link_new
link_new-IsRow zero at v h = record { links = λ i below. absurd (omega (arith, below)) }
link_new-IsRow (suc zero) at v h =
    IsRow-cons (link_new 1 at v) 0 at (link_new_first 0 at v (IsStored-first at 1 h (omega arith)))
      (record { links = λ i below. absurd (omega (arith, below)) })
link_new-IsRow (suc (suc n)) at v h =
    IsRow-cons (link_new (suc (suc n)) at v) (suc n) at
      (link_new_first (suc n) at v (IsStored-first at (suc (suc n)) h (omega arith)))
      (link_new-IsRow (suc n) (at + 1) (set_link at (at + 1) v) (λ i below.
        let place : at + 1 + i ≡ at + suc i = omega arith in
        rw place (h (suc i) (omega (arith, below)))))

pub free_old-IsRow :
    (cs : List ℕ) (n at : ℕ) (v : DefragVolume)
    → ((i : ℕ) → i < n → mem (at + i) cs ≡ false)
    → IsRow v n at
    → IsRow (free_old cs v) n at
free_old-IsRow cs n at v h r = record {
  links = λ i below. free_old_other cs (at + i) v (h i below) ∙ r.links i below;
}

-- What the links leave alone.
pub link_new-content :
    (n at : ℕ) (v : DefragVolume)
    → ((link_new n at v).content ≡ v.content) × ((link_new n at v).starts ≡ v.starts)
unfolding link_new set_link
link_new-content zero at v = (refl, refl)
link_new-content (suc zero) at v = (refl, refl)
link_new-content (suc (suc n)) at v = link_new-content (suc n) (at + 1) (set_link at (at + 1) v)

pub free_old-content :
    (cs : List ℕ) (v : DefragVolume)
    → ((free_old cs v).content ≡ v.content) × ((free_old cs v).starts ≡ v.starts)
unfolding free_old set_link
free_old-content [] v = (refl, refl)
free_old-content (c ∷ cs) v = free_old-content cs (set_link c lat_free v)
