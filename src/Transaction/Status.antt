-- ===== src/Transaction/Status.antt =====
-- apps/api/src/domain/transactionState.ts: the statuses of a transaction and the platform graph.
use trinetra_systems.Common.{Bool, not, List, [], ◌∷◌, Eq, eq_of, includes}

pub data TransactionStatus : Type 0 where
  arrived identified document_pending document_verified material_classified : TransactionStatus
  first_weighment pending_approval approved unloading unloaded : TransactionStatus
  second_weighment completed on_hold rejected cancelled exception : TransactionStatus

unfoldable pub TransactionStatus-discrete : Discrete TransactionStatus
TransactionStatus-discrete = hlevel

instance abbrev pub status_eq : Eq TransactionStatus
status_eq = eq_of TransactionStatus-discrete

abbrev pub terminal : List TransactionStatus
terminal = completed ∷ rejected ∷ cancelled ∷ []

-- the record `ALLOWED`
unfoldable pub allowed : TransactionStatus → List TransactionStatus
allowed arrived = identified ∷ on_hold ∷ cancelled ∷ exception ∷ []
allowed identified =
    first_weighment ∷ document_pending ∷ material_classified ∷ on_hold ∷ cancelled ∷ []
allowed document_pending = document_verified ∷ on_hold ∷ rejected ∷ cancelled ∷ []
allowed document_verified = first_weighment ∷ material_classified ∷ on_hold ∷ []
allowed material_classified = first_weighment ∷ on_hold ∷ cancelled ∷ []
allowed first_weighment = pending_approval ∷ unloading ∷ on_hold ∷ exception ∷ []
allowed pending_approval = approved ∷ on_hold ∷ rejected ∷ cancelled ∷ []
allowed approved = unloading ∷ on_hold ∷ exception ∷ []
allowed unloading = unloaded ∷ on_hold ∷ exception ∷ []
allowed unloaded = second_weighment ∷ exception ∷ []
allowed second_weighment = completed ∷ exception ∷ []
allowed completed = []
allowed on_hold = identified ∷ document_pending ∷ pending_approval ∷ unloading ∷ cancelled ∷ []
allowed rejected = []
allowed cancelled = []
allowed exception = []

unfoldable pub can_transition : TransactionStatus → TransactionStatus → Bool
unfolding allowed includes
can_transition source target = includes (allowed source) target

unfoldable pub is_terminal_status : TransactionStatus → Bool
unfolding includes
is_terminal_status status = includes terminal status

unfoldable pub is_open_weighbridge_status : TransactionStatus → Bool
unfolding includes
is_open_weighbridge_status status = not (includes terminal status)
