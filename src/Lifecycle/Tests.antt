-- ===== src/Lifecycle/Tests.antt =====
-- Two trucks on one site, and the theorems at the requests that finish the first of them.
pub mod Choice
pub mod Weighing
use trinetra_systems.Common.{
  ℕ, any, all, true, false, List, [], ◌∷◌, Memᴰ, none, some, String, string_eq, ◌≡◌, ◌⊎◌, inl, inr,
  refl, sym, ap, ◌∙◌, arith,
}
use trinetra_systems.Common.Int.{◌+ℤ◌, ◌-ℤ◌}
use trinetra_systems.Transaction.Status.{TransactionStatus, can_transition}
use trinetra_systems.Transaction.Graph.{Reach}
use trinetra_systems.Workflow.Tests.{limestone, evaluated}
use trinetra_systems.Workflow.Steps.{UnloadingStatus, UnloadingStatus-discrete}
use trinetra_systems.Weight.Decimal.{
  trim, value_from, split_digits, fraction_of, unsigned_amount, kg_to_milligrams, decimal,
  unsigned_decimal, milligrams_to_kg_decimal,
}
use trinetra_systems.Weight.Net.{calculate_net_weight}
use trinetra_systems.Lifecycle.State.{
  WeighmentKind, WeighmentKind-discrete, ApprovalDecision, ApprovalDecision-discrete, PointStatus,
  PointStatus-discrete, Weighment, Transaction, Point, AuditAction, Db, Actor, Env, ok,
}
use trinetra_systems.Lifecycle.Progress.{
  weighment_of, progress_from, transaction_progress, assert_mutable, load_transaction, load_fresh,
}
use trinetra_systems.Lifecycle.Points.{
  holds, has_occupant, release_point_if_idle, is_available, point_allows_material, insert_by,
  sort_by, point_named, choose_point, select_unloading_point,
}
use trinetra_systems.Lifecycle.Points.Selection.{
  select_unloading_point-available, select_unloading_point-eq-none,
}
use trinetra_systems.Workflow.Guards.{assert_can_complete_unloading}
use trinetra_systems.Lifecycle.Handlers.{
  admit, claim, net_weight_of, finalize_transaction, complete_unloading, release_held,
}
use trinetra_systems.Lifecycle.Handlers.Completion.{
  KeepsValue, NetOf, finalize_transaction-completed,
}
use trinetra_systems.Lifecycle.Handlers.{
  record_second_weighment, weight_within, accessible_weighbridge,
}
use trinetra_systems.Lifecycle.Handlers.SecondWeighment.{
  IsWeighed, record_second_weighment-IsWeighed,
}
use trinetra_systems.Workflow.Guards.{assert_can_record_second_weighment}
use trinetra_systems.Weight.Parse.{WeightInput, parse_weight_kg, outside_limits}
use trinetra_systems.Lifecycle.Operation.{Operation, run}
use trinetra_systems.Lifecycle.Operation.Invariant.{
  IsConsistent, Requests, none_yet, request, requests-IsConsistent, requests-completed,
  requests-Reach,
}

abbrev plain : Env
plain = record {
  decimal_text = λ text. text;
  locale_le = λ left right. true;
  limits = record { min_kg = 1; max_kg = 100000000 };
}

abbrev operator : Actor
operator = record {
  organization_id = "o1";
  can_access_site = λ site. true;
  can_access_weighbridge = λ bridge site. true;
}

abbrev weighment : WeighmentKind → ℕ → List ℕ → Weighment
weighment kind sequence weight = record {
  kind = kind;
  sequence = sequence;
  weighbridge_id = "b1";
  weight_kg = weight;
}

-- 3.5 kg gross and 1.25 kg tare
abbrev truck : Transaction
truck = record {
  id = "t1";
  organization_id = "o1";
  site_id = "s1";
  status = TransactionStatus.second_weighment;
  vehicle = some "KA01";
  material_id = some "m1";
  weighbridge_id = some "b1";
  snapshot = some limestone;
  weighments =
      weighment WeighmentKind.gross 1 (b'3' ∷ b'.' ∷ b'5' ∷ [])
      ∷ weighment WeighmentKind.tare 2 (b'1' ∷ b'.' ∷ b'2' ∷ b'5' ∷ [])
      ∷ [];
  documents = [];
  approvals =
      record {
        id = "a1";
        sort_order = 3;
        department_name = "Store";
        decision = ApprovalDecision.approved;
      }
      ∷ [];
  unloading = some (record { point_id = some "p1"; status = UnloadingStatus.completed });
  net_weight_kg = some (b'2' ∷ b'.' ∷ b'2' ∷ b'5' ∷ b'0' ∷ []);
  completed_at = false;
  exception_reason = false;
}

-- a second truck, which is unloading at the same point
abbrev second_truck : Transaction
second_truck = record truck {
  id = "t2";
  status = TransactionStatus.unloading;
  weighments = weighment WeighmentKind.gross 1 (b'4' ∷ []) ∷ [];
  unloading = some (record { point_id = some "p1"; status = UnloadingStatus.in_progress });
  net_weight_kg = none;
}

abbrev yard : Db
yard = record {
  transactions = truck ∷ second_truck ∷ [];
  points = [];
  rules = [];
  weighbridges = [];
  audits = [];
}

abbrev finished : Transaction
finished = record truck { status = TransactionStatus.completed; completed_at = true }

abbrev after : Db
after = record yard {
  transactions = finished ∷ second_truck ∷ [];
  audits = record { action = AuditAction.transaction_completed; entity_id = "t1" } ∷ [];
}

unfoldable computed : Unit {0}
unfolding evaluated trim value_from split_digits fraction_of unsigned_amount kg_to_milligrams
    decimal unsigned_decimal milligrams_to_kg_decimal calculate_net_weight ◌+ℤ◌ ◌-ℤ◌ any all
    weighment_of progress_from transaction_progress assert_mutable load_transaction load_fresh admit
    claim net_weight_of finalize_transaction run WeighmentKind-discrete ApprovalDecision-discrete
    can_transition
computed = tt

finish : finalize_transaction plain operator "t1" yard ≡ ok (after, finished)
unfolding computed
finish = refl

truck_or_second : (a : Transaction) → Memᴰ a yard.transactions → (a ≡ truck) ⊎ (a ≡ second_truck)
truck_or_second a (Memᴰ.head e) = inl e
truck_or_second a (Memᴰ.tail (Memᴰ.head e)) = inr e
truck_or_second a (Memᴰ.tail (Memᴰ.tail m)) = elim m [ ]

truck_idle : (point : String) → holds point truck.unloading ≡ false
unfolding UnloadingStatus-discrete
truck_idle point = ground arith

other_id : truck.id ≡ second_truck.id → ⊥
other_id e = absurd (cc ((string_eq.test_iff truck.id second_truck.id).1 e))

yard-IsConsistent : IsConsistent yard
yard-IsConsistent = record {
  unique = λ a b ma mb same. elim (truck_or_second a ma) [
    | inl ea ↦ elim (truck_or_second b mb) [
      | inl eb ↦ cc
      | inr eb ↦
          absurd
            (other_id (cc (ap (λ (t : Transaction). t.id) ea, ap (λ (t : Transaction). t.id) eb)))
    ]
    | inr ea ↦ elim (truck_or_second b mb) [
      | inl eb ↦
          absurd
            (other_id (cc (ap (λ (t : Transaction). t.id) ea, ap (λ (t : Transaction). t.id) eb)))
      | inr eb ↦ cc
    ]
  ];
  exclusive = λ a b ma mb point ha hb. elim (truck_or_second a ma) [
    | inl ea ↦ absurd (cc (truck_idle point, ap (λ (t : Transaction). holds point t.unloading) ea))
    | inr ea ↦ elim (truck_or_second b mb) [
      | inl eb ↦
          absurd (cc (truck_idle point, ap (λ (t : Transaction). holds point t.unloading) eb))
      | inr eb ↦ ap (λ (t : Transaction). t.id) (ea ∙ sym eb)
    ]
  ];
}

plain_keeps : KeepsValue plain
plain_keeps text = refl

finish_run : run plain operator (Operation.finalize "t1") yard ≡ ok (after, finished)
unfolding computed
finish_run = refl

abbrev requests : Requests plain yard after
requests = request none_yet operator (Operation.finalize "t1") finished finish_run

requests-IsConsistent_example : IsConsistent after
requests-IsConsistent_example = requests-IsConsistent plain yard after yard-IsConsistent requests

requests-Reach_example :
    (t' : Transaction) × Memᴰ t' after.transactions
    × (t'.id ≡ "t1")
    × Reach TransactionStatus.second_weighment t'.status
requests-Reach_example =
    requests-Reach plain yard after truck yard-IsConsistent (Memᴰ.head refl) requests

finalize_transaction-completed_example :
    Memᴰ finished after.transactions
    × (finished.status ≡ TransactionStatus.completed)
    × (finished.completed_at ≡ true)
    × NetOf finished
finalize_transaction-completed_example =
    finalize_transaction-completed plain operator "t1" yard after finished plain_keeps
      yard-IsConsistent finish

-- The second truck is unloaded after the first one has left.
abbrev unloaded_truck : Transaction
unloaded_truck = record second_truck {
  status = TransactionStatus.unloaded;
  unloading = some (record { point_id = some "p1"; status = UnloadingStatus.completed });
}

abbrev later : Db
later = record after {
  transactions = finished ∷ unloaded_truck ∷ [];
  audits = record { action = AuditAction.unloading_completed; entity_id = "t2" } ∷ after.audits;
}

unload_run : run plain operator (Operation.complete "t2") after ≡ ok (later, unloaded_truck)
unfolding computed complete_unloading release_held release_point_if_idle has_occupant
    assert_can_complete_unloading
unload_run = refl

requests-completed_example : Memᴰ finished later.transactions
requests-completed_example =
    requests-completed plain after later finished
      (requests-IsConsistent plain yard after yard-IsConsistent requests) refl (Memᴰ.head refl)
      (request none_yet operator (Operation.complete "t2") unloaded_truck unload_run)
