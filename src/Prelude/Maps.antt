-- ===== src/Prelude/Maps.antt =====
-- JavaScript's `Map` with numeric keys, and the loop that groups rows under a key.
use mathlib.Core.List.{append_assoc, append-nil}
use Prim.Native.Nat.{ℕ}
use mathlib.Core.Path.{◌≡◌, refl, sym}
use mathlib.Core.List.{List, [], ◌∷◌, ◌++◌, map}
use mathlib.Core.Option.{Option, none, some}
use native.Mathlib.Omega.{arith}
use kayan_place.Prelude.Tests.{◌==◌, if◌then◌else◌, get_or}
use kayan_place.Prelude.Rows.{select_rows}

module _ {ℓ} {V : Type ℓ} where
  -- m.get(k)
  abbrev pub map_get : ℕ → List (ℕ × V) → Option V
  map_get k [] = none
  map_get k ((j, v) ∷ m) = if j == k then some v else map_get k m

  -- m.set(k, v)
  abbrev pub map_set : ℕ → V → List (ℕ × V) → List (ℕ × V)
  map_set k v [] = (k, v) ∷ []
  map_set k v ((j, w) ∷ m) = if j == k then (j, v) ∷ m else (j, w) ∷ map_set k v m

  -- m.delete(k)
  abbrev pub map_delete : ℕ → List (ℕ × V) → List (ℕ × V)
  map_delete k [] = []
  map_delete k ((j, w) ∷ m) = let rest = map_delete k m in if j == k then rest else (j, w) ∷ rest

  pub map_get-map_set :
      (k j : ℕ) (v : V) (m : List (ℕ × V))
      → map_get j (map_set k v m) ≡ (if k == j then some v else map_get j m)
  map_get-map_set k j v [] = refl
  map_get-map_set k j v ((i, w) ∷ m) = ground (arith, map_get-map_set k j v m)

  pub map_get-map_delete :
      (k j : ℕ) (m : List (ℕ × V))
      → map_get j (map_delete k m) ≡ (if k == j then none else map_get j m)
  map_get-map_delete k j [] = ground arith
  map_get-map_delete k j ((i, w) ∷ m) = ground (arith, map_get-map_delete k j m)

module _ {ℓ κ} {R : Type ℓ} {P : Type κ} (key : R → ℕ) (payload : R → P) where
  -- `for (const row of rows) { const bucket = m.get(key) ?? []; bucket.push(payload); m.set(…) }`
  unfoldable pub group_rows : List R → List (ℕ × List P) → List (ℕ × List P)
  group_rows [] m = m
  group_rows (r ∷ rs) m =
      group_rows rs (map_set (key r) (get_or (map_get (key r) m) [] ++ payload r ∷ []) m)

  -- The bucket of a key holds the payloads of its rows, in the order of the rows.
  pub group_rows_lem :
      (k : ℕ) (rs : List R) (m : List (ℕ × List P))
      → get_or (map_get k (group_rows rs m)) []
        ≡ get_or (map_get k m) [] ++ map payload (select_rows (λ r. key r == k) rs)
  unfolding group_rows
  group_rows_lem k [] m = sym (append-nil _)
  group_rows_lem k (r ∷ rs) m = ground (
    arith,
    group_rows_lem k rs (map_set (key r) (get_or (map_get (key r) m) [] ++ payload r ∷ []) m),
    map_get-map_set (key r) k (get_or (map_get (key r) m) [] ++ payload r ∷ []) m,
    append_assoc (get_or (map_get k m) []) (payload r ∷ [])
        (map payload (select_rows (λ r. key r == k) rs)),
  )
