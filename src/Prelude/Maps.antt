-- ===== src/Prelude/Maps.antt =====
-- A Go map with string keys, as an association list in the order in which `range` meets the keys.
-- An assignment overwrites the entry of its key, or adds one at the end.
use Prim.Native.String.{String}
use mathlib.Core.Path.{◌≡◌, refl}
use mathlib.Core.Option.{Option, none, some}
use mathlib.Core.Logic.{inl, inr}
use mathlib.Core.List.{Memᴰ, List, [], ◌∷◌}
use native.Mathlib.Omega.{arith}
use taskpulse.Prelude.Tests.{if◌then◌else◌, Bool-cases}
use taskpulse.Prelude.Text.{text_eq, text_eq_iff}

abbrev pub Assoc {ℓ} : Type ℓ → Type ℓ
Assoc V = List (String × V)

module _ {ℓ} {V : Type ℓ} where
  -- `m[k]`
  unfoldable pub lookup : String → Assoc V → Option V
  lookup k [] = none
  lookup k ((j, v) ∷ m) = if text_eq j k then some v else lookup k m

  -- `m[k] = v`
  unfoldable pub insert : String → V → Assoc V → Assoc V
  insert k v [] = (k, v) ∷ []
  insert k v ((j, w) ∷ m) = if text_eq j k then (j, v) ∷ m else (j, w) ∷ insert k v m

  pub lookup-insert :
      (k j : String) (v : V) (m : Assoc V)
      → lookup j (insert k v m) ≡ (if text_eq k j then some v else lookup j m)
  unfolding lookup insert
  lookup-insert k j v [] = refl
  lookup-insert k j v ((i, w) ∷ m) =
      ground (arith, text_eq_iff k j, text_eq_iff i k, text_eq_iff i j, lookup-insert k j v m)

  pub lookup-insert_self : (k : String) (v : V) (m : Assoc V) → lookup k (insert k v m) ≡ some v
  lookup-insert_self k v m = ground (arith, lookup-insert k k v m, text_eq_iff k k)

-- Each key has one entry.
abbrev pub Distinct : {V : Type 0} → Assoc V → Type 0
Distinct [] = Unit {0}
Distinct ((k, v) ∷ m) = (lookup k m ≡ none) × Distinct m

module _ {V : Type 0} where
  pub lookup-of_mem :
      (k : String) (v : V) (m : Assoc V) → Distinct m → Memᴰ (k, v) m → lookup k m ≡ some v
  unfolding lookup
  lookup-of_mem k v [] d h = elim h [ ]
  lookup-of_mem k v ((j, w) ∷ m) d (Memᴰ.head e) = ground (arith, text_eq_iff j k)
  lookup-of_mem k v ((j, w) ∷ m) d (Memᴰ.tail h) =
      ground (arith, text_eq_iff j k, lookup-of_mem k v m d.1 h)

  pub mem-of_lookup : (k : String) (v : V) (m : Assoc V) → lookup k m ≡ some v → Memᴰ (k, v) m
  unfolding lookup
  mem-of_lookup k v [] e = cc
  mem-of_lookup k v ((j, w) ∷ m) e = elim (Bool-cases (text_eq j k)) [
    | inl hit ↦ Memᴰ.head (ground (arith, text_eq_iff j k))
    | inr miss ↦ Memᴰ.tail (mem-of_lookup k v m (ground arith))
  ]

  pub insert-Distinct : (k : String) (v : V) (m : Assoc V) → Distinct m → Distinct (insert k v m)
  unfolding insert lookup
  insert-Distinct k v [] d = (refl, tt)
  insert-Distinct k v ((j, w) ∷ m) d = elim (Bool-cases (text_eq j k)) [
    | inl hit ↦ rw hit d
    | inr miss ↦ rw miss (
      ground (arith, lookup-insert k j v m, text_eq_iff j k, text_eq_iff k j),
      insert-Distinct k v m d.1,
    )
  ]

  -- Putting back what was stored undoes an assignment.
  pub insert-restore :
      (k : String) (v w : V) (m : Assoc V) → lookup k m ≡ some v → insert k v (insert k w m) ≡ m
  unfolding insert lookup
  insert-restore k v w [] e = cc
  insert-restore k v w ((j, x) ∷ m) e = ground (arith, text_eq_iff j k, insert-restore k v w m)
