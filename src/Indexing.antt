-- ===== src/Indexing.antt =====
-- Positions by name: the dict comprehension `{v: i for i, v in enumerate(xs)}` and the lookups that
-- `permutation` (LocalFeeder/FeederSimulator.py) and `get_indices`
-- (measuring_federate/measuring_federate.py, wls_federate/state_estimator_federate.py) make in it.
pub mod Lookup
pub mod Permutation
mod Tests
use sgidal_example.Prelude.{
  ℕ, suc, String, List, [], ◌∷◌, Dict, insert, lookup, Result, or_raise, key_error, map_result,
}

enumerate_into : ℕ → List String → Dict ℕ → Dict ℕ
enumerate_into i [] d = d
enumerate_into i (x ∷ xs) d = enumerate_into (suc i) xs (insert x i d)

-- A name that occurs twice keeps its last position.
unfoldable pub index_map : List String → Dict ℕ
unfolding enumerate_into
index_map xs = enumerate_into 0 xs []

unfoldable pub permutation : List String → List String → Result (List ℕ)
permutation from_list to_list =
    map_result (λ v. or_raise (lookup v (index_map to_list)) key_error) from_list

-- Of the labelled array only the ids are read.
unfoldable pub get_indices : List String → List String → Result (List ℕ)
get_indices array_ids indices =
    map_result (λ v. or_raise (lookup v (index_map indices)) key_error) array_ids
