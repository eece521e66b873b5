-- ===== src/Lifecycle/Handlers/Completion.antt =====
-- The row that `finalizeTransaction` answers with.
use trinetra_systems.Common.{
  ℕ, find, find-eq-some, Mem-map, string_eq, Bool, true, false, List, map, Memᴰ, some, String,
  eq_refl, ◌==◌, if◌then◌else◌, ◌≡◌, refl, sym, ap, ◌∙◌,
}
use trinetra_systems.Common.Int.{ℤ, pos, ◌+ℤ◌, ltb_ℤ}
use trinetra_systems.Transaction.Status.{TransactionStatus, status_eq}
use trinetra_systems.Transaction.Graph.{to_completed}
use trinetra_systems.Workflow.Guards.{assert_can_finalize}
use trinetra_systems.Weight.Decimal.{kg_to_milligrams}
use trinetra_systems.Weight.Net.{
  NetWeightResult, calculate_net_weight, calculate_net_weight-eq-some, calculate_net_weight_lem,
}
use trinetra_systems.Lifecycle.State.{
  WeighmentKind, Weighment, Transaction, Db, Actor, Env, ok, found-eq-ok,
}
use trinetra_systems.Lifecycle.Progress.{weighment_of, load_fresh}
use trinetra_systems.Lifecycle.Handlers.{
  is_claimed, as_completed, net_weight_of, finalize_transaction,
}
use trinetra_systems.Lifecycle.Handlers.Runs.{finalize_transaction_run}
use trinetra_systems.Lifecycle.Operation.Rows.{admit-Mem, claim-transactions}
use trinetra_systems.Lifecycle.Operation.Invariant.{IsConsistent}

-- The net weight of a completed transaction: gross less tare, exactly, and not below zero.
pub record NetOf (t : Transaction) : Type 0 where
  pub gross : Weighment
  pub tare : Weighment
  pub gross_weight : ℤ
  pub tare_weight : ℤ
  pub net : ℤ
  pub text : List ℕ
  pub has_gross : weighment_of WeighmentKind.gross t ≡ some gross
  pub has_tare : weighment_of WeighmentKind.tare t ≡ some tare
  pub gross_reads : kg_to_milligrams gross.weight_kg ≡ some gross_weight
  pub tare_reads : kg_to_milligrams tare.weight_kg ≡ some tare_weight
  pub stored : t.net_weight_kg ≡ some text
  pub text_reads : kg_to_milligrams text ≡ some net
  pub difference : net +ℤ tare_weight ≡ gross_weight
  pub not_negative : ltb_ℤ net (pos 0) ≡ false

pub loaded_row :
    (id : String) (db : Db) (t : Transaction) → load_fresh id db ≡ ok t → Memᴰ t db.transactions
unfolding load_fresh
loaded_row id db t h =
    (find-eq-some (λ (r : Transaction). r.id == id) db.transactions t
      (found-eq-ok (find (λ (r : Transaction). r.id == id) db.transactions) _ _ h)).0

-- The text of a decimal column stands for the weight that was written to it.
abbrev pub KeepsValue : Env → Type 0
KeepsValue env = (text : List ℕ) → kg_to_milligrams (env.decimal_text text) ≡ kg_to_milligrams text

NetOf-as_completed :
    (env : Env) (t : Transaction) (gross tare : Weighment) (net : NetWeightResult)
    → KeepsValue env
    → weighment_of WeighmentKind.gross t ≡ some gross
    → weighment_of WeighmentKind.tare t ≡ some tare
    → net_weight_of env (env.decimal_text gross.weight_kg) (env.decimal_text tare.weight_kg)
      ≡ ok net
    → net.tare_exceeds_gross ≡ false
    → NetOf (as_completed net t)
unfolding net_weight_of weighment_of
NetOf-as_completed env t gross tare net law hg ht h fits =
    let g = env.decimal_text gross.weight_kg in
    let m = env.decimal_text tare.weight_kg in
    let computed : calculate_net_weight g m ≡ some net =
      found-eq-ok (calculate_net_weight g m) _ _ h in
    let (a, b, ga, mb, same) = calculate_net_weight-eq-some g m net computed in
    let (r, given, sum, reads, _) = calculate_net_weight_lem g m a b ga mb in
    let one : r ≡ net = cc in
    record {
      gross = gross;
      tare = tare;
      gross_weight = a;
      tare_weight = b;
      net = net.net_milligrams;
      text = net.net_as_decimal;
      has_gross = hg;
      has_tare = ht;
      gross_reads = sym (law gross.weight_kg) ∙ ga;
      tare_reads = sym (law tare.weight_kg) ∙ mb;
      stored = refl;
      text_reads = rw one at reads;
      difference = rw one at sum;
      not_negative =
          ap (λ (n : NetWeightResult). ltb_ℤ n.net_milligrams (pos 0)) same
          ∙ sym (ap (λ (n : NetWeightResult). n.tare_exceeds_gross) same)
          ∙ fits;
    }

kept_id :
    (test : Bool) (f : Transaction → Transaction) (r : Transaction)
    → (f r).id ≡ r.id
    → (if test then f r else r).id ≡ r.id
kept_id true f r h = h
kept_id false f r h = refl

-- The row that is read after a change of the only row with its id.
pub changed_row :
    (t t' : Transaction) (test : Transaction → Bool) (f : Transaction → Transaction) (db db' : Db)
    → IsConsistent db
    → Memᴰ t db.transactions
    → test t ≡ true
    → db'.transactions ≡ map (λ r. if test r then f r else r) db.transactions
    → ((r : Transaction) → (f r).id ≡ r.id)
    → load_fresh t.id db' ≡ ok t'
    → t' ≡ f t
unfolding load_fresh
changed_row t t' test f db db' c m selected rows keeps h =
    let (m', named) =
      find-eq-some (λ (r : Transaction). r.id == t.id) db'.transactions t'
        (found-eq-ok (find (λ (r : Transaction). r.id == t.id) db'.transactions) _ _ h) in
    let (r, mr, e) = Mem-map (λ r. if test r then f r else r) db.transactions t' (rw rows at m') in
    let same : r ≡ t = c.unique r t mr m (
      sym (kept_id (test r) f r (keeps r))
      ∙ sym (ap (λ (r : Transaction). r.id) e)
      ∙ (string_eq.test_iff t'.id t.id).0 named) in
    e ∙ ap (λ r. if test r then f r else r) same ∙ rw selected refl

-- In a consistent database whose decimal column keeps the value of a text, a finalization that
-- succeeds answers with a stored row that is completed, at its time, and whose net weight is the
-- exact difference of its two weights, not below zero.
pub finalize_transaction-completed :
    (env : Env) (actor : Actor) (id : String) (db db' : Db) (t' : Transaction)
    → KeepsValue env
    → IsConsistent db
    → finalize_transaction env actor id db ≡ ok (db', t')
    → Memᴰ t' db'.transactions
      × (t'.status ≡ TransactionStatus.completed)
      × (t'.completed_at ≡ true)
      × NetOf t'
finalize_transaction-completed env actor id db db' t' law c h =
    let (
      t,
      admitted,
      moves,
      (gross, hg, (tare, ht, (net, computed, fits, (claimed, wins, left, read)))),
    ) =
      finalize_transaction_run env actor id db db' t' h in
    let (m, _) = admit-Mem env actor id assert_can_finalize db t admitted in
    let second = TransactionStatus.second_weighment in
    let rows =
      ap (λ (d : Db). d.transactions) left
      ∙ claim-transactions t.id second (as_completed net) db claimed wins in
    let row : t' ≡ as_completed net t =
      changed_row t t' (is_claimed t.id second) (as_completed net) db db' c m
        (rw (to_completed t.status moves, eq_refl t.id, eq_refl second) refl) rows (λ r. refl)
        read in
    (
      loaded_row t.id db' t' read,
      ap (λ (r : Transaction). r.status) row,
      ap (λ (r : Transaction). r.completed_at) row,
      rw row (NetOf-as_completed env t gross tare net law hg ht computed fits),
    )
