-- ===== src/Base/Store.antt =====
-- A Go map with numeric keys, as an association list that holds each key once. Go promises no
-- order of iteration: the order of the list is one that the run-time might choose.
use Prim.Native.Nat.{ℕ, ◌+◌}
use mathlib.Core.Path.{◌≡◌, refl}
use mathlib.Core.Logic.{◌≢◌}
use mathlib.Core.Option
use mathlib.Core.Option.{Option, none, some}
use mathlib.Core.List.{List, [], ◌∷◌}
use native.Mathlib.Omega.{arith}
use go_steam_ws.Base.Tests.{◌==◌, if◌then◌else◌}
use go_steam_ws.Base.Lists.{length}

abbrev pub Store {ℓ} : Type ℓ → Type ℓ
Store V = List (ℕ × V)

module _ {ℓ} {V : Type ℓ} where
  -- `v, ok := m[k]`
  unfoldable pub lookup : ℕ → Store V → Option V
  lookup key [] = none
  lookup key ((found, value) ∷ rest) = if found == key then some value else lookup key rest

  -- `m[k] = v`
  unfoldable pub insert : ℕ → V → Store V → Store V
  insert key value [] = (key, value) ∷ []
  insert key value ((found, old) ∷ rest) =
      if found == key then (key, value) ∷ rest else (found, old) ∷ insert key value rest

  -- `delete(m, k)`
  unfoldable pub erase : ℕ → Store V → Store V
  erase k [] = []
  erase k ((j, v) ∷ m) = let rest = erase k m in if j == k then rest else (j, v) ∷ rest

  -- A write through the pointer that `m[k]` holds.
  unfoldable pub adjust : ℕ → (V → V) → Store V → Store V
  adjust k f [] = []
  adjust k f ((j, v) ∷ m) = if j == k then (j, f v) ∷ m else (j, v) ∷ adjust k f m

  abbrev pub IsAbsent : ℕ → Store V → Type 0
  IsAbsent k [] = Unit {0}
  IsAbsent k ((j, v) ∷ m) = (j ≢ k) × IsAbsent k m

  -- Each key stands once: what Go guarantees of a map.
  abbrev pub IsMap : Store V → Type 0
  IsMap [] = Unit {0}
  IsMap ((j, v) ∷ m) = IsAbsent j m × IsMap m

  pub lookup-insert :
      (key asked : ℕ) (value : V) (m : Store V)
      → lookup asked (insert key value m) ≡ (if key == asked then some value else lookup asked m)
  unfolding lookup insert
  lookup-insert key asked value [] = refl
  lookup-insert key asked value (entry ∷ m) = ground (arith, lookup-insert key asked value m)

  pub lookup-erase :
      (k j : ℕ) (m : Store V) → lookup j (erase k m) ≡ (if k == j then none else lookup j m)
  unfolding lookup erase
  lookup-erase k j [] = ground arith
  lookup-erase k j ((i, w) ∷ m) = ground (arith, lookup-erase k j m)

  pub lookup-adjust :
      (k j : ℕ) (f : V → V) (m : Store V)
      → lookup j (adjust k f m) ≡ (if k == j then Option.map f (lookup j m) else lookup j m)
  unfolding lookup adjust
  lookup-adjust k j f [] = ground arith
  lookup-adjust k j f ((i, w) ∷ m) = ground (arith, lookup-adjust k j f m)

  pub lookup_absent : (k : ℕ) (m : Store V) → IsAbsent k m → lookup k m ≡ none
  unfolding lookup
  lookup_absent k [] h = refl
  lookup_absent k ((j, v) ∷ m) h = ground (arith, lookup_absent k m)

  insert-IsAbsent :
      (k j : ℕ) (v : V) (m : Store V) → k ≢ j → IsAbsent j m → IsAbsent j (insert k v m)
  unfolding insert
  insert-IsAbsent k j v [] ne h = (ne, tt)
  insert-IsAbsent k j v ((i, w) ∷ m) ne h = ground (arith, insert-IsAbsent k j v m)

  erase-IsAbsent : (k j : ℕ) (m : Store V) → IsAbsent j m → IsAbsent j (erase k m)
  unfolding erase
  erase-IsAbsent k j [] h = tt
  erase-IsAbsent k j ((i, w) ∷ m) h = ground (arith, erase-IsAbsent k j m)

  adjust-IsAbsent : (k j : ℕ) (f : V → V) (m : Store V) → IsAbsent j m → IsAbsent j (adjust k f m)
  unfolding adjust
  adjust-IsAbsent k j f [] h = tt
  adjust-IsAbsent k j f ((i, w) ∷ m) h = ground (arith, adjust-IsAbsent k j f m)

  pub insert-IsMap : (k : ℕ) (v : V) (m : Store V) → IsMap m → IsMap (insert k v m)
  unfolding insert
  insert-IsMap k v [] h = (tt, tt)
  insert-IsMap k v ((i, w) ∷ m) h = ground (arith, insert-IsMap k v m, insert-IsAbsent k i v m)

  pub erase-IsMap : (k : ℕ) (m : Store V) → IsMap m → IsMap (erase k m)
  unfolding erase
  erase-IsMap k [] h = tt
  erase-IsMap k ((i, w) ∷ m) h = ground (arith, erase-IsMap k m, erase-IsAbsent k i m)

  pub adjust-IsMap : (k : ℕ) (f : V → V) (m : Store V) → IsMap m → IsMap (adjust k f m)
  unfolding adjust
  adjust-IsMap k f [] h = tt
  adjust-IsMap k f ((i, w) ∷ m) h = ground (arith, adjust-IsMap k f m, adjust-IsAbsent k i f m)

  -- `len(m)` after a write of a new key, a deletion, and a write through a pointer.
  pub length-insert_new :
      (k : ℕ) (v : V) (m : Store V) → lookup k m ≡ none → length (insert k v m) ≡ length m + 1
  unfolding insert lookup
  length-insert_new k v [] h = omega arith
  length-insert_new k v ((i, w) ∷ m) h = ground (arith, length-insert_new k v m)

  pub erase_absent : (k : ℕ) (m : Store V) → IsAbsent k m → erase k m ≡ m
  unfolding erase
  erase_absent k [] h = refl
  erase_absent k ((i, w) ∷ m) h = ground (arith, erase_absent k m)

  pub erase_missing : (k : ℕ) (m : Store V) → lookup k m ≡ none → erase k m ≡ m
  unfolding erase lookup
  erase_missing k [] h = refl
  erase_missing k ((i, w) ∷ m) h = ground (arith, erase_missing k m)

  pub length-erase_present :
      (k : ℕ) (v : V) (m : Store V)
      → IsMap m
      → lookup k m ≡ some v
      → length (erase k m) + 1 ≡ length m
  unfolding erase lookup
  length-erase_present k v [] h e = cc
  length-erase_present k v ((i, w) ∷ m) h e =
      ground (arith, length-erase_present k v m h.1, erase_absent i m h.0)

  pub length-adjust : (k : ℕ) (f : V → V) (m : Store V) → length (adjust k f m) ≡ length m
  unfolding adjust
  length-adjust k f [] = refl
  length-adjust k f ((i, w) ∷ m) = ground (arith, length-adjust k f m)
