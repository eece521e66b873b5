-- ===== src/Lifecycle/Handlers/SecondWeighment.antt =====
-- The row that `recordSecondWeighment` answers with.
use trinetra_systems.Common.{
  ℕ, ◌+◌, length, any, find_of_append, find_appended, nat_eq, string_eq, false, List, [], ◌∷◌, Memᴰ,
  Option, some, String, eq_refl, ◌==◌, if◌then◌else◌, ◌≡◌, refl, sym, ap, ◌∙◌,
}
use trinetra_systems.Common.Int.{ℤ, ◌+ℤ◌, ltb_ℤ}
use trinetra_systems.Transaction.Status.{TransactionStatus}
use trinetra_systems.Workflow.Guards.{assert_can_record_second_weighment}
use trinetra_systems.Weight.Decimal.{kg_to_milligrams}
use trinetra_systems.Weight.Net.{
  NetWeightResult, calculate_net_weight, calculate_net_weight-eq-some, calculate_net_weight_lem,
  sub_negative,
}
use trinetra_systems.Weight.Parse.{WeightInput}
use trinetra_systems.Lifecycle.State.{
  WeighmentKind, kind_eq, Weighment, Transaction, Db, Actor, Env, ok, found-eq-ok,
}
use trinetra_systems.Lifecycle.Progress.{weighment_of}
use trinetra_systems.Lifecycle.Handlers.{
  after_second, with_weighment, net_weight_of, record_second_weighment,
}
use trinetra_systems.Lifecycle.Handlers.Runs.{record_second_weighment_run}
use trinetra_systems.Lifecycle.Handlers.Completion.{KeepsValue, changed_row, loaded_row}
use trinetra_systems.Lifecycle.Operation.Rows.{admit-Mem, twice}
use trinetra_systems.Lifecycle.Operation.Invariant.{IsConsistent}

-- A weighed transaction: its net weight is gross less tare, exactly, and its status tells whether
-- the tare exceeds the gross weight.
pub record IsWeighed (t : Transaction) : Type 0 where
  pub gross : Weighment
  pub tare : Weighment
  pub gross_weight : ℤ
  pub tare_weight : ℤ
  pub net : ℤ
  pub text : List ℕ
  pub has_gross : weighment_of WeighmentKind.gross t ≡ some gross
  pub has_tare : weighment_of WeighmentKind.tare t ≡ some tare
  pub gross_reads : kg_to_milligrams gross.weight_kg ≡ some gross_weight
  pub tare_reads : kg_to_milligrams tare.weight_kg ≡ some tare_weight
  pub stored : t.net_weight_kg ≡ some text
  pub text_reads : kg_to_milligrams text ≡ some net
  pub difference : net +ℤ tare_weight ≡ gross_weight
  pub outcome : t.status ≡ (
      if ltb_ℤ gross_weight tare_weight
      then TransactionStatus.exception
      else TransactionStatus.second_weighment)

after-IsWeighed :
    (env : Env) (t : Transaction) (bridge : String) (gross tare : Weighment) (net : NetWeightResult)
    → KeepsValue env
    → tare.kind ≡ WeighmentKind.tare
    → weighment_of WeighmentKind.gross t ≡ some gross
    → any (λ (w : Weighment). w.kind == WeighmentKind.tare) t.weighments ≡ false
    → net_weight_of env (env.decimal_text gross.weight_kg) tare.weight_kg ≡ ok net
    → IsWeighed (after_second bridge net (with_weighment tare t))
unfolding net_weight_of weighment_of
after-IsWeighed env t bridge gross tare net law kind hg untared h =
    let g = env.decimal_text gross.weight_kg in
    let m = tare.weight_kg in
    let computed : calculate_net_weight g m ≡ some net =
      found-eq-ok (calculate_net_weight g m) _ _ h in
    let (a, b, ga, mb, same) = calculate_net_weight-eq-some g m net computed in
    let (r, given, sum, reads, _) = calculate_net_weight_lem g m a b ga mb in
    let one : r ≡ net = cc in
    record {
      gross = gross;
      tare = tare;
      gross_weight = a;
      tare_weight = b;
      net = net.net_milligrams;
      text = net.net_as_decimal;
      has_gross =
          find_of_append (λ (w : Weighment). w.kind == WeighmentKind.gross) t.weighments (tare ∷ [])
            gross hg;
      has_tare =
          find_appended (λ (w : Weighment). w.kind == WeighmentKind.tare) t.weighments tare untared
            (rw kind (eq_refl WeighmentKind.tare));
      gross_reads = sym (law gross.weight_kg) ∙ ga;
      tare_reads = mb;
      stored = refl;
      text_reads = rw one at reads;
      difference = rw one at sum;
      outcome =
          ap (λ b. if b then TransactionStatus.exception else TransactionStatus.second_weighment)
            (ap (λ (n : NetWeightResult). n.tare_exceeds_gross) same ∙ sub_negative a b);
    }

-- In a consistent database whose decimal column keeps the value of a text, a second weighment that
-- succeeds answers with a stored row that has both weights and their exact difference, and whose
-- status is EXCEPTION if the tare exceeds the gross weight, else SECOND_WEIGHMENT.
pub record_second_weighment-IsWeighed :
    (env : Env) (actor : Actor) (id : String) (input : WeightInput) (wanted : Option String)
    (db db' : Db) (t' : Transaction)
    → KeepsValue env
    → IsConsistent db
    → record_second_weighment env actor id input wanted db ≡ ok (db', t')
    → Memᴰ t' db'.transactions × IsWeighed t'
record_second_weighment-IsWeighed env actor id input wanted db db' t' law c h =
    let (
      weight,
      _,
      (t, admitted, (gross, hg, (bridge, _, (net, computed, _, rows, untared, read)))),
    ) =
      record_second_weighment_run env actor id input wanted db db' t' h in
    let (m, _) = admit-Mem env actor id assert_can_record_second_weighment db t admitted in
    let tare : Weighment = record {
      kind = WeighmentKind.tare;
      sequence = length t.weighments + 1;
      weighbridge_id = bridge;
      weight_kg = weight.as_decimal;
    } in
    let change : Transaction → Transaction = λ r. after_second bridge net (with_weighment tare r) in
    let row : t' ≡ change t =
      changed_row t t' (λ r. r.id == t.id) change db db' c m (eq_refl t.id)
        (rows
          ∙ twice t.id (after_second bridge net) (with_weighment tare) (λ r. refl) db.transactions)
        (λ r. refl) read in
    (
      loaded_row t.id db' t' read,
      rw row (after-IsWeighed env t bridge gross tare net law refl hg untared computed),
    )
