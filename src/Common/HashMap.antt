-- ===== src/Common/HashMap.antt =====
-- `std::collections::HashMap<usize, V>` as an association list that holds a key at most once.
-- The order of the list stands for the iteration order, which the source leaves open.
use Prim.Native.Nat.{ℕ, suc, ◌<◌}
use mathlib.Core.Path.{◌≡◌, refl}
use mathlib.Core.Option.{Option, none, some}
use mathlib.Core.List.{List, [], ◌∷◌}
use native.Mathlib.Omega.{arith}
use iperf3_rust.Common.Lists.{length}
use iperf3_rust.Common.Tests.{◌==◌, if◌then◌else◌}

abbrev pub HashMap {ℓ} : Type ℓ → Type ℓ
HashMap V = List (ℕ × V)

module _ {ℓ} {V : Type ℓ} where
  unfoldable pub get : ℕ → HashMap V → Option V
  get k [] = none
  get k ((j, v) ∷ m) = if j == k then some v else get k m

  unfoldable pub insert : ℕ → V → HashMap V → HashMap V
  insert k v [] = (k, v) ∷ []
  insert k v ((j, w) ∷ m) = if j == k then (k, v) ∷ m else (j, w) ∷ insert k v m

  unfoldable pub remove : ℕ → HashMap V → HashMap V
  remove k [] = []
  remove k ((j, w) ∷ m) = if j == k then m else (j, w) ∷ remove k m

  -- `values_mut`, as `iter_mut().for_each` uses it.
  unfoldable pub map_values : (V → V) → HashMap V → HashMap V
  map_values f [] = []
  map_values f ((j, w) ∷ m) = (j, f w) ∷ map_values f m

  abbrev pub values : HashMap V → List V
  values [] = []
  values ((j, w) ∷ m) = w ∷ values m

  pub get-insert :
      (k j : ℕ) (v : V) (m : HashMap V)
      → get j (insert k v m) ≡ (if k == j then some v else get j m)
  unfolding get insert
  get-insert k j v [] = refl
  get-insert k j v ((i, w) ∷ m) = ground (arith, get-insert k j v m)

  pub get-remove-none : (k j : ℕ) (m : HashMap V) → get j m ≡ none → get j (remove k m) ≡ none
  unfolding get remove
  get-remove-none k j [] e = refl
  get-remove-none k j ((i, w) ∷ m) e = ground (arith, get-remove-none k j m)

  abbrev pub KeysBelow : ℕ → HashMap V → Type 0
  KeysBelow k [] = Unit
  KeysBelow k ((j, v) ∷ m) = (j < k) × KeysBelow k m

  pub get_of_KeysBelow : (k : ℕ) (m : HashMap V) → KeysBelow k m → get k m ≡ none
  unfolding get
  get_of_KeysBelow k [] b = refl
  get_of_KeysBelow k ((j, w) ∷ m) b = ground (arith, get_of_KeysBelow k m b.1)

  KeysBelow-suc : (k : ℕ) (m : HashMap V) → KeysBelow k m → KeysBelow (suc k) m
  KeysBelow-suc k [] b = tt
  KeysBelow-suc k ((j, w) ∷ m) b = (omega arith, KeysBelow-suc k m b.1)

  pub insert-KeysBelow :
      (k : ℕ) (v : V) (m : HashMap V) → KeysBelow k m → KeysBelow (suc k) (insert k v m)
  unfolding insert
  insert-KeysBelow k v [] b = (omega arith, tt)
  insert-KeysBelow k v ((j, w) ∷ m) b =
      ground (arith, insert-KeysBelow k v m b.1, KeysBelow-suc k m b.1)

  pub remove-KeysBelow : (k j : ℕ) (m : HashMap V) → KeysBelow k m → KeysBelow k (remove j m)
  unfolding remove
  remove-KeysBelow k j [] b = tt
  remove-KeysBelow k j ((i, w) ∷ m) b = ground (arith, remove-KeysBelow k j m b.1)

  -- A key above all others is new.
  pub length-insert_above :
      (k : ℕ) (v : V) (m : HashMap V) → KeysBelow k m → length (insert k v m) ≡ suc (length m)
  unfolding insert
  length-insert_above k v [] b = refl
  length-insert_above k v ((j, w) ∷ m) b = ground (arith, length-insert_above k v m b.1)

  -- The same for a key that is equal to the bound.
  pub insert_top :
      (k j : ℕ) (v : V) (m : HashMap V)
      → j ≡ k
      → KeysBelow k m
      → KeysBelow (suc k) (insert j v m) × (length (insert j v m) ≡ suc (length m))
  insert_top k j v m e b = rw e (insert-KeysBelow k v m b, length-insert_above k v m b)
