-- ===== src/Lifecycle/Operation/Invariant.antt =====
-- What every sequence of lifecycle requests keeps, whoever makes them.
use trinetra_systems.Common.{
  Mem-eq-any, Mem-map, map-Mem, string_eq, Bool-cases, true, false, ◌&&◌, map, Memᴰ, String, ◌==◌,
  ◌!=◌, ◌≡◌, ◌≢◌, ◌⊎◌, inl, inr, refl, sym, ap, ◌∙◌, arith,
}
use trinetra_systems.Transaction.Status.{
  TransactionStatus, TransactionStatus-discrete, can_transition,
}
use trinetra_systems.Transaction.Graph.{Reach, here, move}
use trinetra_systems.Lifecycle.State.{Transaction, Db, Actor, Env, ok}
use trinetra_systems.Lifecycle.Progress.{assert_mutable}
use trinetra_systems.Lifecycle.Points.{holds, has_occupant}
use trinetra_systems.Lifecycle.Operation.{Operation, run}
use trinetra_systems.Lifecycle.Operation.Effect.{Effect, run-Effect}

-- Ids name rows, and no two transactions hold one unloading point.
pub record IsConsistent (db : Db) : Type 0 where
  pub unique :
      (a b : Transaction) → Memᴰ a db.transactions → Memᴰ b db.transactions → a.id ≡ b.id → a ≡ b
  pub exclusive :
      (a b : Transaction)
      → Memᴰ a db.transactions
      → Memᴰ b db.transactions
      → (point : String) → holds point a.unloading ≡ true
      → holds point b.unloading ≡ true
      → a.id ≡ b.id

-- Requests that succeed, one after the other; a request that fails leaves the database.
pub data Requests (env : Env) (db : Db) : Db → Type 0 where
  none_yet : Requests env db db
  request :
      {db' db'' : Db}
      → Requests env db db'
      → (actor : Actor) (op : Operation) (answer : Transaction)
      → run env actor op db' ≡ ok (db'', answer)
      → Requests env db db''

-- No other row holds a point without an occupant.
idle_row :
    (db : Db) (point id : String) (t : Transaction)
    → has_occupant point id db ≡ false
    → Memᴰ t db.transactions
    → holds point t.unloading ≡ true
    → t.id ≡ id
unfolding has_occupant
idle_row db point id t idle m h =
    let seen =
      Mem-eq-any (λ (t : Transaction). t.id != id && holds point t.unloading) db.transactions t idle
        m in
    (string_eq.test_iff t.id id).0 (ground arith)

module _ {db db' : Db} (e : Effect db db') where
  row_of :
      (a : Transaction)
      → Memᴰ a db'.transactions
      → (b : Transaction) × Memᴰ b db.transactions × (a ≡ e.change b)
  row_of a m = Mem-map e.change db.transactions a (rw e.rows at m)

  -- A row is the current one, or is left as it is.
  current_or_same :
      (unique : IsConsistent db) (b : Transaction)
      → Memᴰ b db.transactions
      → (b ≡ e.current) ⊎ ((e.change b ≡ b) × (b.id ≢ e.current.id))
  current_or_same c b m = elim (Bool-cases (b.id == e.current.id)) [
    | inl t ↦ inl (c.unique b e.current m e.is_row ((string_eq.test_iff b.id e.current.id).0 t))
    | inr f ↦
        inr (e.keeps_others b f, λ p. absurd (cc ((string_eq.test_iff b.id e.current.id).1 p)))
  ]

  taken_point :
      (c : IsConsistent db) (a b : Transaction)
      → a ≡ e.current
      → Memᴰ b db.transactions
      → e.change b ≡ b
      → (point : String) → holds point (e.change a).unloading ≡ true
      → holds point (e.change b).unloading ≡ true
      → a.id ≡ b.id
  taken_point c a b same m kept point ha hb =
      let held : holds point b.unloading ≡ true = rw kept at hb in
      elim (e.takes point (rw same at ha)) [
        | inl old ↦ rw same (c.exclusive e.current b e.is_row m point old held)
        | inr idle ↦ rw same (sym (idle_row db point e.current.id b idle m held))
      ]

  Effect-exclusive :
      (c : IsConsistent db) (a b : Transaction)
      → Memᴰ a db.transactions
      → Memᴰ b db.transactions
      → (point : String) → holds point (e.change a).unloading ≡ true
      → holds point (e.change b).unloading ≡ true
      → a.id ≡ b.id
  Effect-exclusive c a b ma mb point ha hb = elim (current_or_same c a ma) [
    | inl sa ↦ elim (current_or_same c b mb) [
      | inl sb ↦ cc
      | inr (kb, _) ↦ taken_point c a b sa mb kb point ha hb
    ]
    | inr (ka, _) ↦ elim (current_or_same c b mb) [
      | inl sb ↦ sym (taken_point c b a sb ma ka point hb ha)
      | inr (kb, _) ↦ c.exclusive a b ma mb point (rw ka at ha) (rw kb at hb)
    ]
  ]

  Effect-IsConsistent : IsConsistent db → IsConsistent db'
  Effect-IsConsistent c = record {
    unique = λ a b ma mb same.
        let (x, mx, ea) = row_of a ma in
        let (y, my, eb) = row_of b mb in
        let ids : x.id ≡ y.id = cc (e.keeps_id x, e.keeps_id y) in
        ea ∙ ap e.change (c.unique x y mx my ids) ∙ sym eb;
    exclusive = λ a b ma mb point ha hb.
        let (x, mx, ea) = row_of a ma in
        let (y, my, eb) = row_of b mb in
        let ids = Effect-exclusive c x y mx my point (rw ea at ha) (rw eb at hb) in
        cc (e.keeps_id x, e.keeps_id y);
  }

-- After any sequence of requests no two transactions hold one unloading point, and ids name rows,
-- if both are so before it.
pub requests-IsConsistent :
    (env : Env) (db db' : Db) → IsConsistent db → Requests env db db' → IsConsistent db'
requests-IsConsistent env db db' c none_yet = c
requests-IsConsistent env db db' c (request {db' = mid} rs actor op answer h) =
    Effect-IsConsistent (run-Effect env actor op mid db' answer h)
      (requests-IsConsistent env db mid c rs)

locked-completed :
    (s : TransactionStatus) → assert_mutable s ≡ ok tt → s ≢ TransactionStatus.completed
unfolding assert_mutable TransactionStatus-discrete
locked-completed s h p = absurd (cc (rw p at h))

Effect-completed :
    {db db' : Db} (e : Effect db db') (t : Transaction)
    → IsConsistent db
    → t.status ≡ TransactionStatus.completed
    → Memᴰ t db.transactions
    → Memᴰ t db'.transactions
Effect-completed {db} e t c done m = elim (current_or_same e c t m) [
  | inl same ↦ absurd (locked-completed e.current.status e.is_mutable (cc same))
  | inr (kept, _) ↦
      let moved : Memᴰ (e.change t) (map e.change db.transactions) =
        map-Mem e.change db.transactions t m in
      rw e.rows (rw kept at moved)
]

-- In a consistent database a completed transaction stays exactly as it is, whatever requests come
-- after.
pub requests-completed :
    (env : Env) (db db' : Db) (t : Transaction)
    → IsConsistent db
    → t.status ≡ TransactionStatus.completed
    → Memᴰ t db.transactions
    → Requests env db db'
    → Memᴰ t db'.transactions
requests-completed env db db' t c done m none_yet = m
requests-completed env db db' t c done m (request {db' = mid} rs actor op answer h) =
    Effect-completed (run-Effect env actor op mid db' answer h) t
      (requests-IsConsistent env db mid c rs) done (requests-completed env db mid t c done m rs)

Effect-Reach :
    {db db' : Db} (e : Effect db db') (t : Transaction)
    → IsConsistent db
    → Memᴰ t db.transactions
    → (t' : Transaction) × Memᴰ t' db'.transactions
      × (t'.id ≡ t.id)
      × ((t'.status ≡ t.status) ⊎ (can_transition t.status t'.status ≡ true))
Effect-Reach {db} e t c m =
    let at : Memᴰ (e.change t) _ = rw e.rows (map-Mem e.change db.transactions t m) in
    (
      e.change t,
      at,
      e.keeps_id t,
      elim (current_or_same e c t m) [
        | inl same ↦ rw same e.moves
        | inr (kept, _) ↦ inl (ap (λ (t : Transaction). t.status) kept)
      ],
    )

-- From a consistent database on, requests keep every transaction and move its status along the
-- platform graph only.
pub requests-Reach :
    (env : Env) (db db' : Db) (t : Transaction)
    → IsConsistent db
    → Memᴰ t db.transactions
    → Requests env db db'
    → (t' : Transaction) × Memᴰ t' db'.transactions × (t'.id ≡ t.id) × Reach t.status t'.status
requests-Reach env db db' t c m none_yet = (t, m, refl, here)
requests-Reach env db db' t c m (request {db' = mid} rs actor op answer h) =
    let (u, mu, same, path) = requests-Reach env db mid t c m rs in
    let (v, mv, kept, step) =
      Effect-Reach (run-Effect env actor op mid db' answer h) u
        (requests-IsConsistent env db mid c rs) mu in
    (v, mv, kept ∙ same, elim step [ inl e ↦ rw e path | inr e ↦ move path e ])
