-- ===== src/Domain/StateMachines/Search.antt =====
-- The breadth-first search in `payment_path` of app/domain/state_machines.py, over any type of
-- states. `next` lists a state's successors in the order in which its frozenset is iterated.
pub mod Walks
pub mod Scan
pub mod Levels
use professional_bot.Prelude.{
  ℕ, zero, suc, Bool, true, false, List, [], ◌∷◌, ◌++◌, Eq, ◌==◌, contains,
}

-- How the `for` loop over the successors ends: by its `return`, or with new `seen` and `queue`.
pub data Round (A : Type 0) : Type 0 where
  found : List A → Round A
  more : List A → List (A × List A) → Round A

-- How the `while` loop ends: by the `return`, or with the queue empty.
pub data Outcome (A : Type 0) : Type 0 where
  arrived : List A → Outcome A
  no_path out_of_fuel : Outcome A

module _ {A : Type 0} ⦃e : Eq A⦄ (next : A → List A) (target : A) where
  unfoldable pub scan : List A → List A → List A → List (A × List A) → Round A
  scan path [] seen queue = more seen queue
  scan path (nxt ∷ rest) seen queue = elim (contains seen nxt) [
    | true ↦ scan path rest seen queue
    | false ↦ elim (nxt == target) [
      | true ↦ found (path ++ nxt ∷ [])
      | false ↦ scan path rest (nxt ∷ seen) (queue ++ (nxt, path ++ nxt ∷ []) ∷ [])
    ]
  ]

  unfoldable pub search : ℕ → List A → List (A × List A) → Outcome A
  search zero seen queue = out_of_fuel
  search (suc fuel) seen [] = no_path
  search (suc fuel) seen ((state, path) ∷ queue) = elim (scan path (next state) seen queue) [
    | found p ↦ arrived p
    | more seen' queue' ↦ search fuel seen' queue'
  ]
