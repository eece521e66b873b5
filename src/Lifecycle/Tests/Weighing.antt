-- ===== src/Lifecycle/Tests/Weighing.antt =====
-- A second weighment.
use trinetra_systems.Common.{true, [], ◌∷◌, Memᴰ, none, string_eq, ◌≡◌, refl, sym, ap, ◌∙◌}
use trinetra_systems.Transaction.Status.{TransactionStatus}
use trinetra_systems.Lifecycle.State.{WeighmentKind, Transaction, AuditAction, Db, ok}
use trinetra_systems.Lifecycle.Handlers.{
  record_second_weighment, weight_within, accessible_weighbridge,
}
use trinetra_systems.Lifecycle.Handlers.SecondWeighment.{
  IsWeighed, record_second_weighment-IsWeighed,
}
use trinetra_systems.Workflow.Guards.{assert_can_record_second_weighment}
use trinetra_systems.Weight.Parse.{WeightInput, parse_weight_kg, outside_limits}
use trinetra_systems.Lifecycle.Operation.Invariant.{IsConsistent}
use trinetra_systems.Lifecycle.Tests.{
  plain, operator, weighment, truck, yard, computed, plain_keeps,
}

-- The first truck before its second weighment, at a weighbridge that is in use.
abbrev empty_truck : Transaction
empty_truck = record truck {
  status = TransactionStatus.unloaded;
  weighments = weighment WeighmentKind.gross 1 (b'3' ∷ b'.' ∷ b'5' ∷ []) ∷ [];
  net_weight_kg = none;
}

abbrev scale : Db
scale = record yard {
  transactions = empty_truck ∷ [];
  weighbridges =
      record { id = "b1"; organization_id = "o1"; site_id = "s1"; is_active = true } ∷ [];
}

abbrev weighed_db : Db
weighed_db = record scale {
  transactions = truck ∷ [];
  audits =
      record { action = AuditAction.net_weight_calculated; entity_id = "t1" }
      ∷ record { action = AuditAction.second_weighment_recorded; entity_id = "t1" }
      ∷ [];
}

second_run :
    record_second_weighment plain operator "t1"
      (WeightInput.text (b'1' ∷ b'.' ∷ b'2' ∷ b'5' ∷ []))
      none
      scale
    ≡ ok (weighed_db, truck)
unfolding computed record_second_weighment weight_within accessible_weighbridge parse_weight_kg
    outside_limits assert_can_record_second_weighment
second_run = refl

only_empty_truck : (a : Transaction) → Memᴰ a scale.transactions → a ≡ empty_truck
only_empty_truck a (Memᴰ.head e) = e
only_empty_truck a (Memᴰ.tail m) = elim m [ ]

scale-IsConsistent : IsConsistent scale
scale-IsConsistent = record {
  unique = λ a b ma mb same. only_empty_truck a ma ∙ sym (only_empty_truck b mb);
  exclusive = λ a b ma mb point ha hb.
      ap (λ (t : Transaction). t.id) (only_empty_truck a ma ∙ sym (only_empty_truck b mb));
}

record_second_weighment-IsWeighed_example : Memᴰ truck weighed_db.transactions × IsWeighed truck
record_second_weighment-IsWeighed_example =
    record_second_weighment-IsWeighed plain operator "t1"
      (WeightInput.text (b'1' ∷ b'.' ∷ b'2' ∷ b'5' ∷ [])) none scale weighed_db truck plain_keeps
      scale-IsConsistent second_run
