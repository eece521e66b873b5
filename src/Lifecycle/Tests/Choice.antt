-- ===== src/Lifecycle/Tests/Choice.antt =====
-- The choice of an unloading point among three.
use trinetra_systems.Common.{
  ℕ, true, false, List, [], ◌∷◌, Memᴰ, none, some, String, string_eq, ◌≡◌, refl,
}
use trinetra_systems.Lifecycle.State.{PointStatus, PointStatus-discrete, Point}
use trinetra_systems.Lifecycle.Points.{
  is_available, point_allows_material, insert_by, sort_by, point_named, choose_point,
  select_unloading_point,
}
use trinetra_systems.Lifecycle.Points.Selection.{
  Takes, select_unloading_point-available, select_unloading_point-eq-none,
}
use trinetra_systems.Lifecycle.Tests.{plain, computed}

abbrev bay : String → ℕ → PointStatus → Point
bay id order status = record {
  id = id;
  organization_id = "o1";
  site_id = "s1";
  code = id;
  name = id;
  status = status;
  is_active = true;
  allowed_material_ids = "m1" ∷ [];
  sort_order = order;
  deleted = false;
}

abbrev bays : List Point
bays =
    bay "p1" 1 PointStatus.occupied
    ∷ bay "p3" 3 PointStatus.available
    ∷ bay "p2" 2 PointStatus.available
    ∷ []

unfoldable selected : Unit {0}
unfolding computed is_available point_allows_material PointStatus-discrete insert_by sort_by
    point_named choose_point select_unloading_point
selected = tt

lowest_bay :
    select_unloading_point plain "s1" (some "m1") bays [] ≡ some (bay "p2" 2 PointStatus.available)
unfolding selected
lowest_bay = refl

no_bay : select_unloading_point plain "s1" (some "m2") bays [] ≡ none
unfolding selected
no_bay = refl

select_unloading_point-available_example :
    Memᴰ (bay "p2" 2 PointStatus.available) bays
    × ((bay "p2" 2 PointStatus.available).site_id ≡ "s1")
    × (PointStatus.available ≡ PointStatus.available)
    × (true ≡ true)
    × Takes ("m1" ∷ []) (some "m1")
select_unloading_point-available_example =
    select_unloading_point-available plain "s1" (some "m1") bays []
      (bay "p2" 2 PointStatus.available) lowest_bay

select_unloading_point-eq-none_example :
    is_available "s1" (some "m2") (bay "p1" 1 PointStatus.occupied) ≡ false
select_unloading_point-eq-none_example =
    select_unloading_point-eq-none plain "s1" (some "m2") bays [] no_bay
      (bay "p1" 1 PointStatus.occupied) (Memᴰ.head refl)
