-- ===== src/Base/Maps.antt =====
-- Go maps with string keys, as association lists: a write keeps the place of a key that is there.
use mathlib.Core.Path.{◌≡◌, refl}
use mathlib.Core.List.{List, [], ◌∷◌}
use mathlib.Core.Option.{Option, none, some}
use native.Mathlib.Omega.{arith}
use stor.Base.Tests.{if◌then◌else◌}
use stor.Base.Slices.{Bytes, bytes_eq, bytes_eq_iff}

abbrev pub Dictionary {ℓ} : Type ℓ → Type ℓ
Dictionary V = List (Bytes × V)

module _ {ℓ} {V : Type ℓ} where
  unfoldable pub lookup : Bytes → Dictionary V → Option V
  lookup key [] = none
  lookup key (entry ∷ rest) = if bytes_eq entry.0 key then some entry.1 else lookup key rest

  unfoldable pub insert : Bytes → V → Dictionary V → Dictionary V
  insert k v [] = (k, v) ∷ []
  insert k v (entry ∷ m) = if bytes_eq entry.0 k then (k, v) ∷ m else entry ∷ insert k v m

  unfoldable pub remove : Bytes → Dictionary V → Dictionary V
  remove k [] = []
  remove k ((j, v) ∷ m) = let rest = remove k m in if bytes_eq j k then rest else (j, v) ∷ rest

  pub lookup-insert :
      (k j : Bytes) (v : V) (m : Dictionary V)
      → lookup j (insert k v m) ≡ (if bytes_eq k j then some v else lookup j m)
  unfolding lookup insert
  lookup-insert k j v [] = refl
  lookup-insert k j v ((i, w) ∷ m) =
      ground (arith, bytes_eq_iff k j, bytes_eq_iff i k, bytes_eq_iff i j, lookup-insert k j v m)

  pub lookup-remove :
      (k j : Bytes) (m : Dictionary V)
      → lookup j (remove k m) ≡ (if bytes_eq k j then none else lookup j m)
  unfolding lookup remove
  lookup-remove k j [] = ground arith
  lookup-remove k j ((i, v) ∷ m) =
      ground (arith, bytes_eq_iff k j, bytes_eq_iff i k, bytes_eq_iff i j, lookup-remove k j m)

pub ruleset dictionary_laws = (lookup-insert, lookup-remove)
