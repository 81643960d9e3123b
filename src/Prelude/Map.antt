-- ===== src/Prelude/Map.antt =====
-- utils::unordered_map as an association list. `find` sees the first entry of a key and `erase`
-- drops every entry of it, so the laws hold of any list. Iteration follows the list; the source's
-- own order is unspecified.
use mathlib.Core.Path.{◌≡◌}
use mathlib.Core.Logic.{inl, inr}
use mathlib.Core.Bool.{Bool, true, false}
use mathlib.Core.Option.{Option, none, some}
use mathlib.Core.List.{List, [], ◌∷◌}
use native.Mathlib.Omega.{arith}
use roq_fix_proxy.Prelude.Tests.{Eq, ◌==◌, Option-cases, if◌then◌else◌}

abbrev pub Map {ℓ κ} : Type ℓ → Type κ → Type (ℓ ⊔ κ)
Map K V = List (K × V)

abbrev pub or_else {ℓ} : {V : Type ℓ} → Option V → V → Option V
or_else none v = some v
or_else (some w) v = some w

module _ {ℓ κ} {K : Type ℓ} {V : Type κ} ⦃e : Eq K⦄ where
  unfoldable pub find : K → Map K V → Option V
  find k [] = none
  find k ((j, v) ∷ m) = if j == k then some v else find k m

  unfoldable pub erase : K → Map K V → Map K V
  erase k [] = []
  erase k ((j, v) ∷ m) = let rest = erase k m in if j == k then rest else (j, v) ∷ rest

  -- m[k] = v
  unfoldable pub assign : K → V → Map K V → Map K V
  unfolding erase
  assign k v m = (k, v) ∷ erase k m

  -- m.try_emplace(k, v), m.emplace(k, v): an entry that is there stays.
  unfoldable pub try_emplace : K → V → Map K V → Map K V
  unfolding find
  try_emplace k v m = elim (find k m) [ none ↦ (k, v) ∷ m | some w ↦ m ]

  -- m.find(k) != m.end()
  unfoldable pub contains : K → Map K V → Bool
  unfolding find
  contains k m = elim (find k m) [ none ↦ false | some v ↦ true ]

  pub find-erase :
      (k j : K) (m : Map K V) → find j (erase k m) ≡ (if k == j then none else find j m)
  unfolding find erase
  find-erase k j [] = ground arith
  find-erase k j ((i, v) ∷ m) =
      ground (arith, find-erase k j m, e.equals_iff i k, e.equals_iff i j, e.equals_iff k j)

  pub find-assign :
      (k j : K) (v : V) (m : Map K V)
      → find j (assign k v m) ≡ (if k == j then some v else find j m)
  unfolding find assign
  find-assign k j v m = ground (arith, find-erase k j m)

  pub find-try_emplace :
      (k j : K) (v : V) (m : Map K V)
      → find j (try_emplace k v m) ≡ (if k == j then or_else (find k m) v else find j m)
  unfolding find try_emplace
  find-try_emplace k j v m = elim (Option-cases (find k m)) [
    | inl absent ↦ rw (absent, try_emplace) (ground (arith, e.equals_iff k j))
    | inr (w, present) ↦ rw (present, try_emplace) (ground (arith, e.equals_iff k j))
  ]

pub ruleset map_laws = (find-erase, find-assign, find-try_emplace)
