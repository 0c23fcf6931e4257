-- ===== src/Splitting/Cycles.antt =====
-- card-splitting.ts `hasDependencyCycle`. The map from a node to its mark is the stack of the nodes
-- being visited, which a call gets back as it left it, and the list of those that are done.
use megacorps.Prelude.{
  ℕ, zero, suc, Bool, true, false, Option, none, some, List, [], ◌∷◌, ◌==◌, if◌then◌else◌, contains,
  length,
}

-- `Map<number, number[]>`, by its entries.
abbrev pub Edges : Type 0
Edges = List (ℕ × List ℕ)

-- `edges.get(node) ?? []`.
unfoldable pub targets : Edges → ℕ → List ℕ
targets [] n = []
targets (e ∷ rest) n = if e.0 == n then e.1 else targets rest n

unfoldable pub keys : Edges → List ℕ
keys [] = []
keys (e ∷ rest) = e.0 ∷ keys rest

-- A call of `visit`: a cycle, or the nodes that are done after it.
pub data Visit : Type 0 where
  cycle out_of_fuel : Visit
  clear : List ℕ → Visit

abbrev pub and_then : Visit → (List ℕ → Visit) → Visit
and_then (clear finished) f = f finished
and_then cycle f = cycle
and_then out_of_fuel f = out_of_fuel

unfoldable pub visit_each : (ℕ → List ℕ → Visit) → List ℕ → List ℕ → Visit
visit_each visit_one [] finished = clear finished
visit_each visit_one (n ∷ ns) finished = and_then (visit_one n finished) (visit_each visit_one ns)

unfoldable pub visit : ℕ → Edges → List ℕ → ℕ → List ℕ → Visit
unfolding visit_each
visit zero edges stack n finished = out_of_fuel
visit (suc fuel) edges stack n finished =
    let deeper = visit_each (visit fuel edges (n ∷ stack)) (targets edges n) finished in
    if contains stack n
    then cycle
    else if contains finished n
    then clear finished
    else and_then deeper (λ later. clear (n ∷ later))

abbrev pub found_cycle : Visit → Option Bool
found_cycle cycle = some true
found_cycle (clear finished) = some false
found_cycle out_of_fuel = none

unfoldable pub has_dependency_cycle : Edges → Option Bool
unfolding visit visit_each
has_dependency_cycle edges =
    found_cycle (visit_each (visit (suc (length edges)) edges []) (keys edges) [])
