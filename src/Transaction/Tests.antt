-- ===== src/Transaction/Tests.antt =====
-- A visit from arrival to completion.
use trinetra_systems.Common.{Memᴰ, ◌≢◌, ◌↔◌, refl}
use trinetra_systems.Transaction.Status.{
  TransactionStatus, TransactionStatus-discrete, can_transition,
}
use trinetra_systems.Transaction.Graph.{
  Reach, here, move, visits, completed_visits, completed_reachable_iff,
}

abbrev visit : Reach TransactionStatus.arrived TransactionStatus.completed
unfolding can_transition TransactionStatus-discrete
visit =
    move {t = TransactionStatus.second_weighment}
      (move {t = TransactionStatus.unloaded}
        (move {t = TransactionStatus.unloading}
          (move {t = TransactionStatus.first_weighment}
            (move {t = TransactionStatus.identified} (move here refl) refl) refl)
          refl)
        refl)
      refl

completed_visits_example :
    Memᴰ TransactionStatus.unloading (visits visit)
    × Memᴰ TransactionStatus.unloaded (visits visit)
    × Memᴰ TransactionStatus.second_weighment (visits visit)
completed_visits_example = completed_visits visit (λ e. cc) (λ e. cc) (λ e. cc)

completed_reachable_iff_example : Reach TransactionStatus.on_hold TransactionStatus.completed ↔ (
    (TransactionStatus.on_hold ≢ TransactionStatus.rejected)
    × (TransactionStatus.on_hold ≢ TransactionStatus.cancelled)
    × (TransactionStatus.on_hold ≢ TransactionStatus.exception))
completed_reachable_iff_example = completed_reachable_iff TransactionStatus.on_hold
