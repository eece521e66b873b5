-- ===== src/Lifecycle/Operation.antt =====
-- The operations of apps/api/src/modules/transactions/lifecycle.ts as data, and what each leaves.
pub mod Rows
pub mod Effect
pub mod Invariant
use trinetra_systems.Common.{List, [], ◌∷◌, ℕ, Option, String}
use trinetra_systems.Weight.Parse.{WeightInput}
use trinetra_systems.Lifecycle.State.{Transaction, Db, Actor, Env, Result}
use trinetra_systems.Lifecycle.Handlers.{
  assign_unloading, start_unloading, complete_unloading, record_second_weighment,
  finalize_transaction,
}

pub data Operation : Type 0 where
  assign : String → Option String → Operation
  start complete finalize : String → Operation
  second_weighment : String → WeightInput → Option String → Operation

unfoldable pub run : Env → Actor → Operation → Db → Result (Db × Transaction)
run env actor (Operation.assign id wanted) db = assign_unloading env actor id wanted db
run env actor (Operation.start id) db = start_unloading env actor id db
run env actor (Operation.complete id) db = complete_unloading env actor id db
run env actor (Operation.finalize id) db = finalize_transaction env actor id db
run env actor (Operation.second_weighment id input wanted) db =
    record_second_weighment env actor id input wanted db
