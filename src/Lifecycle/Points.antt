-- ===== src/Lifecycle/Points.antt =====
-- apps/api/src/domain/unloadingAssignment.ts, and the handling of unloading points in
-- apps/api/src/modules/transactions/lifecycle.ts.
pub mod Selection
use trinetra_systems.Common.{
  ℕ, filter, find, any, includes, ltb, nat_eq, string_eq, is_some, Bool, true, false, not, ◌&&◌,
  ◌||◌, List, [], ◌∷◌, map, Option, none, some, String, ◌==◌, ◌!=◌, if◌then◌else◌,
}
use trinetra_systems.Workflow.Steps.{UnloadingStatus, unloading_status_eq}
use trinetra_systems.Lifecycle.State.{
  PointStatus, point_status_eq, Unloading, Transaction, Point, AssignmentRule, Db, Actor, Env,
  Reason, Result, ok, failed, ◌>>=◌, ◌>>◌, http, require, found,
}

-- `[].length === 0 || (materialId !== null && allowed.includes(materialId))`
abbrev pub accepts_material : List String → Option String → Bool
accepts_material [] material = true
accepts_material (a ∷ as') none = false
accepts_material (a ∷ as') (some material) = includes (a ∷ as') material

unfoldable pub point_allows_material : Point → Option String → Bool
point_allows_material point material =
    if not point.is_active || point.status == PointStatus.inactive
    then false
    else accepts_material point.allowed_material_ids material

unfoldable pub is_available : String → Option String → Point → Bool
is_available site material point =
    point.site_id == site
    && point.status == PointStatus.available
    && point_allows_material point material

-- `Array.prototype.sort`, which is stable, by a test `left <= right`
module _ {ℓ} {A : Type ℓ} (le : A → A → Bool) where
  unfoldable pub insert_by : A → List A → List A
  insert_by x [] = x ∷ []
  insert_by x (y ∷ ys) = let later = insert_by x ys in if le x y then x ∷ y ∷ ys else y ∷ later

  unfoldable pub sort_by : List A → List A
  sort_by [] = []
  sort_by (x ∷ xs) = insert_by x (sort_by xs)

-- `left.priority - right.priority || left.id.localeCompare(right.id)`
abbrev pub rule_le : Env → AssignmentRule → AssignmentRule → Bool
rule_le env l r = ltb l.priority r.priority || (l.priority == r.priority && env.locale_le l.id r.id)

abbrev pub point_le : Env → Point → Point → Bool
point_le env l r =
    ltb l.sort_order r.sort_order || (l.sort_order == r.sort_order && env.locale_le l.code r.code)

abbrev pub is_for_material : Option String → AssignmentRule → Bool
is_for_material none rule = false
is_for_material (some material) rule = elim rule.material_id [
  | none ↦ false
  | some m ↦ m == material
]

abbrev pub is_for_site : AssignmentRule → Bool
is_for_site rule = elim rule.material_id [ none ↦ true | some m ↦ false ]

abbrev pub applies : String → List Point → AssignmentRule → Bool
applies site available rule =
    rule.is_active
    && rule.site_id == site
    && includes (map (λ (p : Point). p.id) available) rule.unloading_point_id

unfoldable pub point_named : String → List Point → Option Point
point_named id = find (λ (p : Point). p.id == id)

abbrev pub first_of_points : List Point → Option Point
first_of_points [] = none
first_of_points (p ∷ ps) = some p

-- the choice among the available points by the ranked rules
unfoldable pub choose_point : Env → Option String → List Point → List AssignmentRule → Option Point
choose_point env material available ranked = elim (find (is_for_material material) ranked) [
  | some rule ↦ point_named rule.unloading_point_id available
  | none ↦ elim (find is_for_site ranked) [
    | some rule ↦ point_named rule.unloading_point_id available
    | none ↦ first_of_points (sort_by (point_le env) available)
  ]
]

unfoldable pub select_unloading_point :
    Env → String → Option String → List Point → List AssignmentRule → Option Point
select_unloading_point env site material points rules =
    let available = filter (is_available site material) points in
    choose_point env material available
      (sort_by (rule_le env) (filter (applies site available) rules))

unfoldable pub resolve_configured_point : Env → Actor → String → Option String → Db → Result Point
resolve_configured_point env actor site material db =
    let points =
      filter
        (λ (p : Point).
          p.organization_id == actor.organization_id && p.site_id == site && not p.deleted)
        db.points in
    let rules =
      filter
        (λ (r : AssignmentRule).
          r.organization_id == actor.organization_id && r.site_id == site && r.is_active)
        db.rules in
    found (select_unloading_point env site material points rules) 409 Reason.no_configured_point

-- An unloading that keeps its point busy.
abbrev pub holds : String → Option Unloading → Bool
holds point none = false
holds point (some unloading) =
    elim unloading.point_id [ none ↦ false | some p ↦ p == point ]
    && (unloading.status == UnloadingStatus.not_started
        || unloading.status == UnloadingStatus.in_progress)

-- `tx.unloading.findFirst` for an occupant of the point other than the transaction
unfoldable pub has_occupant : String → String → Db → Bool
has_occupant point id db =
    any (λ (t : Transaction). t.id != id && holds point t.unloading) db.transactions

unfoldable pub load_assignable_point :
    Actor → String → String → Option String → String → Db → Result Point
load_assignable_point actor site point_id material id db = do
  point ←
      found
        (find
          (λ (p : Point).
            p.id == point_id && p.organization_id == actor.organization_id && not p.deleted)
          db.points)
        404 Reason.point_not_found
  require (point.site_id == site) 400 Reason.point_elsewhere
  require (point.is_active && point.status != PointStatus.inactive) 409 Reason.point_inactive
  require (accepts_material point.allowed_material_ids material) 409 Reason.material_not_accepted
  require (not (point.status == PointStatus.occupied && has_occupant point.id id db)) 409
      Reason.point_occupied
  ok point

abbrev pub set_point_status : String → PointStatus → Db → Db
set_point_status id status db = record db {
  points = map (λ (p : Point). if p.id == id then record p { status = status } else p) db.points;
}

unfoldable pub occupy_point : String → String → Db → Result Db
occupy_point point id db = do
  require (not (has_occupant point id db)) 409 Reason.point_occupied
  ok (set_point_status point PointStatus.occupied db)

abbrev free_point : String → Point → Point
free_point id p =
    if p.id == id && p.status == PointStatus.occupied
    then record p { status = PointStatus.available }
    else p

unfoldable pub release_point_if_idle : String → String → Db → Db
release_point_if_idle point id db =
    if has_occupant point id db then db else record db { points = map (free_point point) db.points }
