-- ===== src/Kayan/Lifecycle/Faults.antt =====
-- Any sequence of the requests on fault reports of src/kayan/kayan.service.ts.
use kayan_place.Prelude.{
  ℕ, ◌≡◌, ◌⊎◌, inl, inr, List, [], ◌∷◌, some, arith, ◌==◌, if◌then◌else◌, Bool-cases, subst,
}
use kayan_place.Prelude.Rows.{find_row, find_row-append, find_row-update_rows, find_row-true}
use kayan_place.Database.{Exec, state}
use kayan_place.Kayan.Dto.{AuthUser, CreateFaultDto, UpdateFaultDto, FaultStatus}
use kayan_place.Kayan.Tables.{Db, Fault}
use kayan_place.Kayan.Faults.{
  FaultView, create_fault, update_fault, cancel_fault, admin_update_fault_status,
}
use kayan_place.Kayan.Faults.Workflow.{
  IsClosed, ◌⟶◌, ◌⟶*◌, stay, follow, ⟶*-trans, ⟶*-IsClosed, allows_iff,
}
use kayan_place.Kayan.Faults.Log.{
  FaultsLogged, FaultWrite, keeps, creates, edits, moves, FaultWrite-FaultsLogged,
  create_fault-FaultWrite, update_fault-FaultWrite, cancel_fault-FaultWrite,
  admin_update_fault_status-FaultWrite,
}

-- A request that writes a fault report.
pub data FaultCall : Type 0 where
  creates_fault : AuthUser → CreateFaultDto → FaultCall
  updates_fault : AuthUser → ℕ → UpdateFaultDto → FaultCall
  cancels_fault : AuthUser → ℕ → FaultCall
  sets_fault : AuthUser → ℕ → FaultStatus → FaultCall

pub handle_fault : FaultCall → Exec Db (List FaultView)
handle_fault (creates_fault user dto) = create_fault user dto
handle_fault (updates_fault user k dto) = update_fault user k dto
handle_fault (cancels_fault user k) = cancel_fault user k
handle_fault (sets_fault admin k status) = admin_update_fault_status admin k status

-- An exception ends its own request.
pub serve_faults : Db → List FaultCall → Db
serve_faults s [] = s
serve_faults s (c ∷ cs) = serve_faults (state (handle_fault c s)) cs

handle_fault-FaultWrite :
    (c : FaultCall) (s : Db) → FaultsLogged s → FaultWrite s (state (handle_fault c s))
unfolding handle_fault
handle_fault-FaultWrite (creates_fault user dto) s v = create_fault-FaultWrite user dto s
handle_fault-FaultWrite (updates_fault user k dto) s v = update_fault-FaultWrite user k dto s
handle_fault-FaultWrite (cancels_fault user k) s v = cancel_fault-FaultWrite user k s v
handle_fault-FaultWrite (sets_fault admin k status) s v =
    admin_update_fault_status-FaultWrite admin k status s

-- The report of an id, later and earlier.
record Progress (k : ℕ) (f : Fault) (t : Db) : Type 0 where
  report : Fault
  found : find_row (λ x. x.id == k) t.faults ≡ some report
  path : f.status ⟶* report.status

allowed-path : (a b : FaultStatus) → (a ≡ b) ⊎ (a ⟶ b) → a ⟶* b
allowed-path a b (inl e) = subst (λ c. a ⟶* c) e stay
allowed-path a b (inr m) = follow m stay

FaultWrite-Progress :
    {s t : Db} (k : ℕ) (f : Fault)
    → FaultWrite s t
    → find_row (λ x. x.id == k) s.faults ≡ some f
    → Progress k f t
FaultWrite-Progress k f (keeps a b c) e = record { report = f; found = rw a e; path = stay }
FaultWrite-Progress {s} k f (creates g h i j m a b c) e = record {
  report = f;
  found = rw a (find_row-append (λ x. x.id == k) s.faults (g ∷ []) e);
  path = stay;
}
FaultWrite-Progress {s} k f (edits p g i j a b c) e = record {
  report = if p f then g f else f;
  found = rw a (find_row-update_rows (λ x. x.id == k) p g (λ x. ground (arith, i x)) s.faults e);
  path = elim (Bool-cases (p f)) [ inl hit ↦ rw (hit, j f) stay | inr miss ↦ rw miss stay ];
}
FaultWrite-Progress {s} k f (moves n old g h o al i j m a b c) e = record {
  report = if f.id == n then g f else f;
  found = rw a (
      find_row-update_rows (λ x. x.id == k) (λ x. x.id == n) g (λ x. ground (arith, j x)) s.faults
        e);
  path = elim (Bool-cases (f.id == n)) [
    | inl hit ↦
        let same_key : n ≡ k = ground (arith, find_row-true (λ x. x.id == k) s.faults e, hit) in
        let same : old ≡ f =
          ground
            (arith, subst (λ j. find_row (λ x. x.id == j) s.faults ≡ some old) same_key o, e) in
        rw (hit, m f)
          (subst (λ x. x.status ⟶* h.status) same
            (allowed-path old.status h.status ((allows_iff old.status h.status).0 al)))
    | inr miss ↦ rw miss stay
  ];
}

-- Over any requests, failing or not: from a state where the ids of the reports are distinct and
-- below the next one and every report has the status that its history ends in, such a state is
-- reached.
pub serve_faults-FaultsLogged :
    (s : Db) (cs : List FaultCall) → FaultsLogged s → FaultsLogged (serve_faults s cs)
unfolding serve_faults
serve_faults-FaultsLogged s [] v = v
serve_faults-FaultsLogged s (c ∷ cs) v =
    serve_faults-FaultsLogged (state (handle_fault c s)) cs
      (FaultWrite-FaultsLogged (handle_fault-FaultWrite c s v) v)

serve_faults-Progress :
    (s : Db) (cs : List FaultCall) (k : ℕ) (f : Fault)
    → FaultsLogged s
    → find_row (λ x. x.id == k) s.faults ≡ some f
    → Progress k f (serve_faults s cs)
unfolding serve_faults
serve_faults-Progress s [] k f v e = record { report = f; found = e; path = stay }
serve_faults-Progress s (c ∷ cs) k f v e =
    let w = handle_fault-FaultWrite c s v in
    let p = FaultWrite-Progress k f w e in
    let q =
      serve_faults-Progress (state (handle_fault c s)) cs k p.report (FaultWrite-FaultsLogged w v)
        p.found in
    record { report = q.report; found = q.found; path = ⟶*-trans p.path q.path }

-- Over any requests, failing or not, from a state where the ids of the reports are distinct and
-- below the next one and every report has the status that its history ends in: a report that is in
-- the table stays in it, and its status goes only along the moves of the workflow.
pub serve_faults-⟶* :
    (s : Db) (cs : List FaultCall) (k : ℕ) (f : Fault)
    → FaultsLogged s
    → find_row (λ x. x.id == k) s.faults ≡ some f
    → (g : Fault) × (find_row (λ x. x.id == k) (serve_faults s cs).faults ≡ some g)
      × (f.status ⟶* g.status)
serve_faults-⟶* s cs k f v e =
    let p = serve_faults-Progress s cs k f v e in (p.report, p.found, p.path)

-- Over any requests, failing or not, from a state where the ids of the reports are distinct and
-- below the next one and every report has the status that its history ends in: a report that is
-- finished or cancelled stays in the table with that status.
pub serve_faults-IsClosed :
    (s : Db) (cs : List FaultCall) (k : ℕ) (f : Fault)
    → FaultsLogged s
    → find_row (λ x. x.id == k) s.faults ≡ some f
    → IsClosed f.status
    → (g : Fault) × (find_row (λ x. x.id == k) (serve_faults s cs).faults ≡ some g)
      × (f.status ≡ g.status)
serve_faults-IsClosed s cs k f v e c =
    let p = serve_faults-Progress s cs k f v e in (p.report, p.found, ⟶*-IsClosed p.path c)
