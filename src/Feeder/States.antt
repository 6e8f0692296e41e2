-- ===== src/Feeder/States.antt =====
-- The states of the class `OpenDSSState` as an automaton, and the methods as its steps.
use sgidal_example.Prelude.{
  ℕ, String, ◌≡◌, Bool, true, false, List, arith, ok, raise, assertion_error, All, mem,
  if◌then◌else◌, length, ◌<◌, ◌≤◌, get_elem?-lt, map_result, all, [], ◌∷◌, refl, sym, subst,
}
use sgidal_example.Prelude.Exec.{Exec, pure, ◌>>=◌, ◌>>◌}
use sgidal_example.Floats.{Floats, Complex}
use sgidal_example.Indexing.{permutation}
use sgidal_example.Indexing.Permutation.{
  permutation_total, permutation-length, permutation-in_range,
}
use sgidal_example.Feeder.Engine.{
  Engine, History, Coo, Entry, load, batchedit, calc_voltage_bases, set_maxiterations,
  solve_number_one,
}
use sgidal_example.Feeder.Sim.{
  Sim, OpenDssState, unloaded, snapshot_run as at_snapshot, solve_at_time,
  disabled_run as after_disabled_run, disabled_solve, disabled, command,
}
use sgidal_example.Feeder.Run.{
  reenable, snapshot_run, disable_elements, disabled_run, initial_disabled_solve, just_solve, solve,
}
use sgidal_example.Feeder.Matrix.{
  get_y_matrix, get_load_y_matrix, permute_matrix, permute_entry, fits,
}
use sgidal_example.Wls.Taken.{All-get_elem?}

-- The methods that check or change `_state` once the feeder is loaded.
pub data Op : Type 0 where
  run_snapshot disable run_disabled y_matrix load_y_matrix initial_solve solve_again : Op
  solve_at : ℕ → ℕ → Op

abbrev ignore : {S A : Type 0} → Exec S A → Exec S (Unit {0})
ignore m = m >>= λ _. pure tt

module _ {F : Floats} (e : Engine F) where
  abbrev pub perform : Op → Exec (Sim F) (Unit {0})
  perform run_snapshot = snapshot_run
  perform disable = disable_elements
  perform run_disabled = disabled_run
  perform y_matrix = ignore (get_y_matrix e)
  perform load_y_matrix = ignore (get_load_y_matrix e)
  perform initial_solve = initial_disabled_solve
  perform solve_again = just_solve
  perform (solve_at hour second) = solve hour second

-- The states in which a method may be called.
abbrev pub allowed : Op → OpenDssState → Bool
allowed load_y_matrix solve_at_time = true
allowed load_y_matrix _ = false
allowed initial_solve after_disabled_run = true
allowed initial_solve _ = false
allowed (solve_at _ _) after_disabled_run = false
allowed solve_again after_disabled_run = false
allowed _ unloaded = false
allowed _ _ = true

-- The state that it leaves.
abbrev pub target : Op → OpenDssState → OpenDssState
target run_snapshot _ = at_snapshot
target disable _ = disabled
target run_disabled _ = after_disabled_run
target y_matrix _ = after_disabled_run
target load_y_matrix _ = solve_at_time
target initial_solve _ = disabled_solve
target solve_again st = st
target (solve_at _ _) _ = solve_at_time

-- What the matrix methods need of the engine at the moment when they read its matrix: it names only
-- nodes that were there when the feeder was loaded, the entries of its sparse matrix are within the
-- nodes it names, and the matrix has a row and a column for each node of the feeder.
pub record KnowsNodes {F : Floats} (e : Engine F) (names : List String) (h : History) : Type 0 where
  pub named : All (λ v. mem v names ≡ true) (e.y_node_order h)
  pub within :
      All
        (λ x. (x.row < length (e.y_node_order h)) × (x.col < length (e.y_node_order h)))
        (e.y_matrix h).entries
  pub rows : length names ≤ (e.y_matrix h).shape.0
  pub columns : length names ≤ (e.y_matrix h).shape.1

-- A step that may be taken ends in its target state; one that may not raises `AssertionError` and
-- changes nothing, neither in the object nor in OpenDSS.
abbrev pub Refines : {F : Floats} → Engine F → Op → Sim F → Type 0
Refines e op s =
    let (r, s') = perform e op s in
    if allowed op s.state
    then (r ≡ ok tt) × (s'.state ≡ target op s.state) × (s'.all_node_names ≡ s.all_node_names)
    else (r ≡ raise assertion_error) × (s' ≡ s)

module _ {A : Type 0} (n : ℕ) (ps : List ℕ) (shape : ℕ × ℕ) (bounded : All (λ k. k < n) ps)
    (rows : n ≤ shape.0) (columns : n ≤ shape.1) where
  permute_entry-fits :
      (x : Entry A)
      → x.row < length ps
      → x.col < length ps
      → (y : Entry A) × (permute_entry ps x ≡ ok y) × (fits shape y ≡ true)
  unfolding permute_entry fits
  permute_entry-fits x h k =
      let (r, er) = get_elem?-lt ps x.row h in
      let (c, ec) = get_elem?-lt ps x.col k in
      let below_r = All-get_elem? (λ k. k < n) ps x.row r bounded er in
      let below_c = All-get_elem? (λ k. k < n) ps x.col c bounded ec in
      (
        record { row = r; col = c; value = x.value },
        rw (er, ec) refl,
        ground (arith, below_r, below_c, rows, columns),
      )

  permute_entries-fit :
      (xs : List (Entry A))
      → All (λ x. (x.row < length ps) × (x.col < length ps)) xs
      → (ys : List (Entry A)) × (map_result (permute_entry ps) xs ≡ ok ys)
        × (all (fits shape) ys ≡ true)
  permute_entries-fit [] h = ([], refl, refl)
  permute_entries-fit (x ∷ xs) h =
      let (y, moved, fit) = permute_entry-fits x (h.0).0 (h.0).1 in
      let (ys, rest, others) = permute_entries-fit xs h.1 in
      (y ∷ ys, rw (moved, rest) refl, rw (fit, others) refl)

module _ {F : Floats} {e : Engine F} {names : List String} (h : History)
    (k : KnowsNodes e names h) where
  -- The matrix that the engine holds can be brought into the order of the feeder's nodes.
  permute_total :
      (ps : List ℕ) × (permutation (e.y_node_order h) names ≡ ok ps)
      × (m : Coo (Complex F)) × (permute_matrix ps (e.y_matrix h) ≡ ok m)
  unfolding permute_matrix
  permute_total =
      let (ps, found) = permutation_total (e.y_node_order h) names k.named in
      let same = permutation-length (e.y_node_order h) names ps found in
      let (ms, moved, fit) =
        permute_entries-fit (length names) ps (e.y_matrix h).shape
          (permutation-in_range (e.y_node_order h) names ps found) k.rows k.columns
          (e.y_matrix h).entries
          (subst
            (λ l. All (λ (x : Entry (Complex F)). (x.row < l) × (x.col < l)) (e.y_matrix h).entries)
            (sym same) k.within) in
      (ps, found, record (e.y_matrix h) { entries = ms }, rw (moved, fit) refl)

-- The first half of `get_load_y_matrix`, after which the matrix is read.
abbrev load_run : {F : Floats} → Exec (Sim F) (Unit {0})
load_run = do
  disable_elements
  command (batchedit load true)
  command calc_voltage_bases
  command set_maxiterations
  command solve_number_one

module _ {F : Floats} (e : Engine F) where
  -- The engine at the moment when a method reads its matrix, for the two methods that do.
  abbrev pub ReadsKnown : Op → Sim F → Type 0
  ReadsKnown y_matrix s = KnowsNodes e s.all_node_names (disabled_run s).1.history
  ReadsKnown load_y_matrix s = KnowsNodes e s.all_node_names (load_run s).1.history
  ReadsKnown _ s = Unit

  -- Where, at the moment when a method reads the engine's matrix, the engine names only nodes of the
  -- feeder and its matrix lies within them and has a row and a column for each node of the feeder:
  -- each of the eight methods, called in a state in which it is allowed, succeeds, ends in its target
  -- state and keeps the node names; called in any other state it raises `AssertionError` and changes
  -- nothing, neither in the simulator nor in OpenDSS.
  pub perform-Refines : (op : Op) (s : Sim F) → ReadsKnown op s → Refines e op s
  unfolding get_y_matrix get_load_y_matrix reenable snapshot_run disable_elements disabled_run
      initial_disabled_solve just_solve solve
  perform-Refines run_snapshot s k = ground arith
  perform-Refines disable s k = ground arith
  perform-Refines run_disabled s k = ground arith
  perform-Refines y_matrix s k =
      let (ps, found, m, moved) = permute_total (disabled_run s).1.history k in ground arith
  perform-Refines load_y_matrix s k =
      let (ps, found, m, moved) = permute_total (load_run s).1.history k in ground arith
  perform-Refines initial_solve s k = ground arith
  perform-Refines solve_again s k = ground arith
  perform-Refines (solve_at hour second) s k = ground arith
