-- ===== src/Lifecycle/Points/Selection.antt =====
-- Which unloading point `selectUnloadingPoint` gives, and when it gives none.
use trinetra_systems.Common.{
  filter, filter-eq-nil, filter-Mem, find, find-eq-some, includes, includes→Mem, nat_eq, string_eq,
  Bool, Bool-cases, true, false, List, [], ◌∷◌, map, Memᴰ, Option, none, some, String, ◌==◌, ◌≡◌,
  ◌≢◌, ◌⊎◌, inl, inr, refl, arith,
}
use trinetra_systems.Lifecycle.State.{
  PointStatus, PointStatus-discrete, point_status_eq, Point, AssignmentRule, Env,
}
use trinetra_systems.Lifecycle.Points.{
  accepts_material, point_allows_material, is_available, insert_by, sort_by, rule_le, point_le,
  is_for_material, is_for_site, applies, point_named, first_of_points, choose_point,
  select_unloading_point,
}

module _ {ℓ} {A : Type ℓ} (le : A → A → Bool) where
  insert_by-Mem : (x : A) (ys : List A) (a : A) → Memᴰ a (insert_by le x ys) → (a ≡ x) ⊎ Memᴰ a ys
  unfolding insert_by
  insert_by-Mem x [] a (Memᴰ.head e) = inl e
  insert_by-Mem x [] a (Memᴰ.tail m) = elim m [ ]
  insert_by-Mem x (y ∷ ys) a m = elim (Bool-cases (le x y)) [
    | inl t ↦ elim (rw t at m) [ Memᴰ.head e ↦ inl e | Memᴰ.tail n ↦ inr n ]
    | inr f ↦ elim (rw f at m) [
      | Memᴰ.head e ↦ inr (Memᴰ.head e)
      | Memᴰ.tail n ↦ elim (insert_by-Mem x ys a n) [ inl e ↦ inl e | inr k ↦ inr (Memᴰ.tail k) ]
    ]
  ]

  pub sort_by-Mem : (xs : List A) (a : A) → Memᴰ a (sort_by le xs) → Memᴰ a xs
  unfolding sort_by
  sort_by-Mem [] a m = m
  sort_by-Mem (x ∷ xs) a m = elim (insert_by-Mem x (sort_by le xs) a m) [
    | inl e ↦ Memᴰ.head e
    | inr n ↦ Memᴰ.tail (sort_by-Mem xs a n)
  ]

  insert_by_some : (x : A) (ys : List A) → insert_by le x ys ≡ [] → ⊥
  unfolding insert_by
  insert_by_some x [] h = absurd (cc)
  insert_by_some x (y ∷ ys) h = elim (Bool-cases (le x y)) [
    | inl t ↦ absurd (cc (rw t at h))
    | inr f ↦ absurd (cc (rw f at h))
  ]

  sort_by-eq-nil : (xs : List A) → sort_by le xs ≡ [] → xs ≡ []
  unfolding sort_by
  sort_by-eq-nil [] h = refl
  sort_by-eq-nil (x ∷ xs) h = absurd (insert_by_some x (sort_by le xs) h)

first-Mem : (ps : List Point) (p : Point) → first_of_points ps ≡ some p → Memᴰ p ps
first-Mem [] p h = absurd (cc)
first-Mem (q ∷ ps) p h = Memᴰ.head (cc)

first-eq-none : (ps : List Point) → first_of_points ps ≡ none → ps ≡ []
first-eq-none [] h = refl
first-eq-none (q ∷ ps) h = absurd (cc)

named-Mem : (id : String) (ps : List Point) (p : Point) → point_named id ps ≡ some p → Memᴰ p ps
unfolding point_named
named-Mem id ps p h = (find-eq-some (λ (p : Point). p.id == id) ps p h).0

chosen-Mem :
    (env : Env) (available : List Point) (material site : Option AssignmentRule) (p : Point)
    → (elim material [
      | some rule ↦ point_named rule.unloading_point_id available
      | none ↦ elim site [
        | some rule ↦ point_named rule.unloading_point_id available
        | none ↦ first_of_points (sort_by (point_le env) available)
      ]
    ])
      ≡ some p
    → Memᴰ p available
chosen-Mem env available (some rule) site p h = named-Mem rule.unloading_point_id available p h
chosen-Mem env available none (some rule) p h = named-Mem rule.unloading_point_id available p h
chosen-Mem env available none none p h =
    sort_by-Mem (point_le env) available p (first-Mem (sort_by (point_le env) available) p h)

choose-Mem :
    (env : Env) (material : Option String) (available : List Point) (ranked : List AssignmentRule)
    (p : Point)
    → choose_point env material available ranked ≡ some p
    → Memᴰ p available
unfolding choose_point
choose-Mem env material available ranked p h =
    chosen-Mem env available (find (is_for_material material) ranked) (find is_for_site ranked) p h

selected-Mem :
    (env : Env) (site : String) (material : Option String) (points : List Point)
    (rules : List AssignmentRule) (p : Point)
    → select_unloading_point env site material points rules ≡ some p
    → Memᴰ p points × (is_available site material p ≡ true)
unfolding select_unloading_point
selected-Mem env site material points rules p h =
    filter-Mem (is_available site material) points p
      (choose-Mem env material (filter (is_available site material) points) _ p h)

-- What a point with these materials takes: everything, or the materials that it lists.
abbrev pub Takes : List String → Option String → Type 0
Takes ids material = (ids ≡ []) ⊎ ((m : String) × (material ≡ some m) × Memᴰ m ids)

accepts-Takes :
    (ids : List String) (material : Option String)
    → accepts_material ids material ≡ true
    → Takes ids material
accepts-Takes [] material h = inl refl
accepts-Takes (a ∷ ids) none h = absurd (cc)
accepts-Takes (a ∷ ids) (some m) h = inr (m, refl, includes→Mem (a ∷ ids) m h)

available_parts :
    (site : String) (material : Option String) (p : Point)
    → is_available site material p ≡ true
    → (p.site_id == site ≡ true)
      × (p.status ≡ PointStatus.available)
      × (p.is_active ≡ true)
      × (accepts_material p.allowed_material_ids material ≡ true)
unfolding is_available point_allows_material PointStatus-discrete
available_parts site material p h = ground arith

-- A point that is given is one of the points, stands on the site, has the status AVAILABLE, is
-- active, and takes the material: it lists no materials, or a material is given and listed.
pub select_unloading_point-available :
    (env : Env) (site : String) (material : Option String) (points : List Point)
    (rules : List AssignmentRule) (p : Point)
    → select_unloading_point env site material points rules ≡ some p
    → Memᴰ p points
      × (p.site_id ≡ site)
      × (p.status ≡ PointStatus.available)
      × (p.is_active ≡ true)
      × Takes p.allowed_material_ids material
select_unloading_point-available env site material points rules p h =
    let (m, available) = selected-Mem env site material points rules p h in
    let (at_site, status, active, accepts) = available_parts site material p available in
    (
      m,
      (string_eq.test_iff p.site_id site).0 at_site,
      status,
      active,
      accepts-Takes p.allowed_material_ids material accepts,
    )

named_some :
    (id : String) (ps : List Point)
    → includes (map (λ (p : Point). p.id) ps) id ≡ true
    → point_named id ps ≢ none
unfolding point_named includes find
named_some id [] e h = absurd (cc)
named_some id (p ∷ ps) e h = elim (Bool-cases (p.id == id)) [
  | inl t ↦ absurd (cc (rw t at h))
  | inr f ↦ named_some id ps (rw f at e) (rw f at h)
]

-- Every ranked rule names an available point.
ranked_named :
    (env : Env) (site : String) (available : List Point) (rules : List AssignmentRule)
    (test : AssignmentRule → Bool) (rule : AssignmentRule)
    → find test (sort_by (rule_le env) (filter (applies site available) rules)) ≡ some rule
    → point_named rule.unloading_point_id available ≢ none
ranked_named env site available rules test rule h =
    let kept = filter (applies site available) rules in
    let (m, _) = find-eq-some test (sort_by (rule_le env) kept) rule h in
    let (_, e) =
      filter-Mem (applies site available) rules rule (sort_by-Mem (rule_le env) kept rule m) in
    named_some rule.unloading_point_id available (ground arith)

chosen-none :
    (env : Env) (available : List Point) (material site : Option AssignmentRule)
    → ((rule : AssignmentRule)
        → (material ≡ some rule) ⊎ (site ≡ some rule)
        → point_named rule.unloading_point_id available ≢ none)
    → (elim material [
      | some rule ↦ point_named rule.unloading_point_id available
      | none ↦ elim site [
        | some rule ↦ point_named rule.unloading_point_id available
        | none ↦ first_of_points (sort_by (point_le env) available)
      ]
    ])
      ≡ none
    → available ≡ []
chosen-none env available (some rule) site named h = absurd (named rule (inl refl) h)
chosen-none env available none (some rule) named h = absurd (named rule (inr refl) h)
chosen-none env available none none named h =
    sort_by-eq-nil (point_le env) available (first-eq-none (sort_by (point_le env) available) h)

-- No point is given only where no point of the site is available for the material.
pub select_unloading_point-eq-none :
    (env : Env) (site : String) (material : Option String) (points : List Point)
    (rules : List AssignmentRule)
    → select_unloading_point env site material points rules ≡ none
    → (p : Point) → Memᴰ p points
    → is_available site material p ≡ false
unfolding select_unloading_point choose_point
select_unloading_point-eq-none env site material points rules h p m =
    let available = filter (is_available site material) points in
    let ranked = sort_by (rule_le env) (filter (applies site available) rules) in
    filter-eq-nil (is_available site material) points
      (chosen-none env available (find (is_for_material material) ranked) (find is_for_site ranked)
        (λ rule e. elim e [
          | inl q ↦ ranked_named env site available rules (is_for_material material) rule q
          | inr q ↦ ranked_named env site available rules is_for_site rule q
        ])
        h)
      p m
