-- ===== src/Lifecycle/Operation/Rows.antt =====
-- How the steps of the handlers change the rows of the transactions.
use trinetra_systems.Common.{
  find, any, find-eq-some, string_eq, Bool, Bool-cases, true, false, ◌&&◌, List, [], ◌∷◌, map, Memᴰ,
  Option, none, some, String, ◌==◌, ◌!=◌, if◌then◌else◌, ◌≡◌, inl, inr, refl, sym, ap, ap₂, arith,
}
use trinetra_systems.Transaction.Status.{TransactionStatus, status_eq}
use trinetra_systems.Workflow.Steps.{
  UnloadingStatus, UnloadingStatus-discrete, WorkflowProgressContext,
}
use trinetra_systems.Workflow.Guards.Refusals.{Refusal}
use trinetra_systems.Lifecycle.State.{
  Unloading, Transaction, Db, Actor, Env, ok, ok-injective, require, found, found-eq-ok, >>=-eq-ok,
  update_where,
}
use trinetra_systems.Lifecycle.Progress.{point_of, assert_mutable, load_transaction}
use trinetra_systems.Lifecycle.Points.{holds, has_occupant, occupy_point, release_point_if_idle}
use trinetra_systems.Lifecycle.Handlers.{
  admit, release_previous, with_unloading, with_status, set_unloading_status, is_claimed, claim,
  release_held,
}
use trinetra_systems.Lifecycle.Handlers.Runs.{admit_steps}

-- The transaction that a handler has loaded is a row that is not locked.
load-Mem :
    (actor : Actor) (id : String) (db : Db) (t : Transaction)
    → load_transaction actor id db ≡ ok t
    → Memᴰ t db.transactions
unfolding load_transaction
load-Mem actor id db t h =
    let named : Transaction → Bool =
      λ t. t.id == id && t.organization_id == actor.organization_id in
    let (u, got, h1) = >>=-eq-ok (found (find named db.transactions) 404 _) _ h in
    let (_, _, h2) = >>=-eq-ok (require (actor.can_access_site u.site_id) 403 _) _ h1 in
    let (m, _) = find-eq-some named db.transactions u (found-eq-ok _ _ _ got) in
    rw (sym (ok-injective h2)) m

pub admit-Mem :
    (env : Env) (actor : Actor) (id : String) (guard : WorkflowProgressContext → Option Refusal)
    (db : Db) (t : Transaction)
    → admit env actor id guard db ≡ ok t
    → Memᴰ t db.transactions × (assert_mutable t.status ≡ ok tt)
admit-Mem env actor id guard db t h =
    let (u, loaded, mutable, (_, _, _, same)) = admit_steps env actor id guard db t h in
    (rw (sym same) (load-Mem actor id db u loaded), rw (sym same) mutable)

pub occupy-transactions :
    (point id : String) (db occupied : Db)
    → occupy_point point id db ≡ ok occupied
    → (occupied.transactions ≡ db.transactions) × (has_occupant point id db ≡ false)
unfolding occupy_point
occupy-transactions point id db occupied h = ground arith

release-transactions :
    (point id : String) (db : Db)
    → (release_point_if_idle point id db).transactions ≡ db.transactions
unfolding release_point_if_idle
release-transactions point id db = ground arith

pub release_held-transactions :
    (point : Option String) (id : String) (db : Db)
    → (release_held point id db).transactions ≡ db.transactions
unfolding release_held
release_held-transactions none id db = refl
release_held-transactions (some point) id db = release-transactions point id db

pub release_previous-transactions :
    (previous : Option String) (point id : String) (db : Db)
    → (release_previous previous point id db).transactions ≡ db.transactions
unfolding release_previous release_point_if_idle
release_previous-transactions none point id db = refl
release_previous-transactions (some previous) point id db = ground arith

pub claim-transactions :
    (id : String) (status : TransactionStatus) (change : Transaction → Transaction)
    (db claimed : Db)
    → claim id status change db ≡ ok claimed
    → claimed.transactions
      ≡ map (λ t. if is_claimed id status t then change t else t) db.transactions
unfolding claim
claim-transactions id status change db claimed h = ground arith

twice_at :
    (id : String) (f g : Transaction → Transaction) (x : Transaction)
    → (g x).id ≡ x.id
    → update_where id f (update_where id g x) ≡ (if x.id == id then f (g x) else x)
twice_at id f g x keeps = elim (Bool-cases (x.id == id)) [
  | inl e ↦ rw (e, keeps, e)
  | inr e ↦ rw (e, e)
]

-- Two updates of one row are one.
pub twice :
    (id : String) (f g : Transaction → Transaction)
    → ((t : Transaction) → (g t).id ≡ t.id)
    → (xs : List Transaction)
    → map (update_where id f) (map (update_where id g) xs)
      ≡ map (λ t. if t.id == id then f (g t) else t) xs
twice id f g keeps [] = refl
twice id f g keeps (x ∷ xs) =
    ap₂ (λ t ts. t ∷ ts) (twice_at id f g x (keeps x)) (twice id f g keeps xs)

-- `claim` after an update of the same row.
claim_at :
    (id : String) (status : TransactionStatus) (f g : Transaction → Transaction) (x : Transaction)
    → (g x).id ≡ x.id
    → (if is_claimed id status (update_where id g x)
        then f (update_where id g x)
        else update_where id g x)
      ≡ (if x.id == id then if (g x).status == status then f (g x) else g x else x)
claim_at id status f g x keeps = elim (Bool-cases (x.id == id)) [
  | inl e ↦ rw (e, keeps, e)
  | inr e ↦ rw (e, e)
]

pub claimed_twice :
    (id : String) (status : TransactionStatus) (f g : Transaction → Transaction)
    → ((t : Transaction) → (g t).id ≡ t.id)
    → (xs : List Transaction)
    → map (λ t. if is_claimed id status t then f t else t) (map (update_where id g) xs)
      ≡ map (λ t. if t.id == id then if (g t).status == status then f (g t) else g t else t) xs
claimed_twice id status f g keeps [] = refl
claimed_twice id status f g keeps (x ∷ xs) =
    ap₂ (λ t ts. t ∷ ts) (claim_at id status f g x (keeps x)) (claimed_twice id status f g keeps xs)

and_left : (a b : Bool) → a && b ≡ true → a ≡ true
and_left a b h = ground arith

pub has_occupant_of :
    (point id : String) (db db' : Db)
    → db.transactions ≡ db'.transactions
    → has_occupant point id db ≡ has_occupant point id db'
unfolding has_occupant
has_occupant_of point id db db' e =
    ap (any (λ (t : Transaction). t.id != id && holds point t.unloading)) e

-- A completed unloading holds no point.
completed_held :
    (o : Option Unloading) (point : String)
    → holds point (set_unloading_status UnloadingStatus.completed o) ≡ false
unfolding UnloadingStatus-discrete
completed_held none point = refl
completed_held (some u) point = ground arith

pub completed_keeps :
    (moved : Bool) (t : Transaction) (point : String)
    → holds point
        (if moved
          then with_status TransactionStatus.unloaded (with_unloading UnloadingStatus.completed t)
          else with_unloading UnloadingStatus.completed t).unloading
      ≡ false
completed_keeps true t point = completed_held t.unloading point
completed_keeps false t point = completed_held t.unloading point

pub assigned_point :
    (point wanted : String)
    → holds wanted (some (record { point_id = some point; status = UnloadingStatus.not_started }))
      ≡ true
    → wanted ≡ point
assigned_point point wanted e = sym ((string_eq.test_iff point wanted).0 (and_left _ _ e))

pub started_point :
    (o : Option Unloading) (point wanted : String)
    → point_of o ≡ some point
    → holds wanted (set_unloading_status UnloadingStatus.in_progress o) ≡ true
    → wanted ≡ point
started_point none point wanted h e = cc
started_point (some u) point wanted h e =
    let same : (point == wanted) ≡ true = and_left _ _ (rw h at e) in
    sym ((string_eq.test_iff point wanted).0 same)
