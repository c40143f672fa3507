-- ===== src/SocialCache/Keyed.antt =====
-- What the three lists share: a map whose entries carry their own key.
use go_steam_ws.Base.{ℕ, ◌+◌, ◌≡◌, refl, none, some, [], ◌∷◌, ◌==◌, if◌then◌else◌, length, arith}
use go_steam_ws.Base.Store.{
  Store, lookup, insert, erase, adjust, IsMap, lookup-insert, insert-IsMap, erase-IsMap,
  adjust-IsMap, length-insert_new,
}

module _ {V : Type 0} (key : V → ℕ) where
  -- `_, exists := m[key]; if !exists { m[key] = &v }`
  unfoldable pub add_new : V → Store V → Store V
  add_new v m = elim (lookup (key v) m) [ none ↦ insert (key v) v m | some w ↦ m ]

  abbrev pub IsKeyed : Store V → Type 0
  IsKeyed [] = Unit {0}
  IsKeyed ((k, v) ∷ m) = (key v ≡ k) × IsKeyed m

  -- Each key stands once, and over a value with that key.
  pub record IsCache (m : Store V) : Type 0 where
    pub once : IsMap m
    pub keyed : IsKeyed m

  insert-IsKeyed : (v : V) (m : Store V) → IsKeyed m → IsKeyed (insert (key v) v m)
  unfolding insert
  insert-IsKeyed v [] h = (refl, tt)
  insert-IsKeyed v ((k, w) ∷ m) h = ground (arith, insert-IsKeyed v m)

  erase-IsKeyed : (j : ℕ) (m : Store V) → IsKeyed m → IsKeyed (erase j m)
  unfolding erase
  erase-IsKeyed j [] h = tt
  erase-IsKeyed j ((k, w) ∷ m) h = ground (arith, erase-IsKeyed j m)

  adjust-IsKeyed :
      (j : ℕ) (f : V → V) (m : Store V)
      → ((v : V) → key (f v) ≡ key v)
      → IsKeyed m
      → IsKeyed (adjust j f m)
  unfolding adjust
  adjust-IsKeyed j f [] same h = tt
  adjust-IsKeyed j f ((k, w) ∷ m) same h = ground (arith, same w, adjust-IsKeyed j f m same)

  pub add_new-IsCache : (v : V) (m : Store V) → IsCache m → IsCache (add_new v m)
  unfolding add_new
  add_new-IsCache v m c = ground (arith, insert-IsMap (key v) v m, insert-IsKeyed v m)

  pub insert-IsCache :
      (j : ℕ) (v : V) (m : Store V) → key v ≡ j → IsCache m → IsCache (insert j v m)
  insert-IsCache j v m e c =
      rw (← e)
        (record { once = insert-IsMap (key v) v m c.once; keyed = insert-IsKeyed v m c.keyed })

  pub erase-IsCache : (j : ℕ) (m : Store V) → IsCache m → IsCache (erase j m)
  erase-IsCache j m c = record { once = erase-IsMap j m c.once; keyed = erase-IsKeyed j m c.keyed }

  pub adjust-IsCache :
      (j : ℕ) (f : V → V) (m : Store V)
      → ((v : V) → key (f v) ≡ key v)
      → IsCache m
      → IsCache (adjust j f m)
  adjust-IsCache j f m same c = record {
    once = adjust-IsMap j f m c.once;
    keyed = adjust-IsKeyed j f m same c.keyed;
  }

  -- What is looked up after an addition: an entry that is there stays.
  pub lookup-add_new :
      (v : V) (j : ℕ) (m : Store V)
      → lookup j (add_new v m)
        ≡ (elim (lookup j m) [ none ↦ if key v == j then some v else none | some w ↦ some w ])
  unfolding add_new
  lookup-add_new v j m = ground (arith, lookup-insert (key v) j v m)

  pub length-add_new :
      (v : V) (m : Store V)
      → length (add_new v m) ≡ (elim (lookup (key v) m) [ none ↦ length m + 1 | some w ↦ length m ])
  unfolding add_new
  length-add_new v m = ground (arith, length-insert_new (key v) v m)

  pub keyed-lookup : (j : ℕ) (v : V) (m : Store V) → IsKeyed m → lookup j m ≡ some v → key v ≡ j
  unfolding lookup
  keyed-lookup j v [] h e = cc
  keyed-lookup j v ((k, w) ∷ m) h e = ground (arith, keyed-lookup j v m h.1)
