-- ===== src/Base/Table.antt =====
-- A database table as the list of its rows, each under its primary key.
use Prim.Native.Nat.{ℕ}
use mathlib.Core.Path.{◌≡◌, refl}
use mathlib.Core.Bool.{Bool, true, false, ◌||◌, ◌&&◌, not}
use mathlib.Core.Logic.{inl, inr}
use mathlib.Core.Option.{Option, none, some}
use mathlib.Core.List.{List, [], ◌∷◌}
use native.Mathlib.Omega.{arith}
use tenora.Base.Tests.{◌==◌, if◌then◌else◌, Option-cases}
use tenora.Base.Int.{ℤ, pos, ◌+ℤ◌, int_laws}

abbrev pub Table {ℓ} : Type ℓ → Type ℓ
Table V = List (ℕ × V)

module _ {ℓ} {V : Type ℓ} where
  -- `objects.get(pk=k)`.
  unfoldable pub lookup : ℕ → Table V → Option V
  lookup k [] = none
  lookup k ((j, v) ∷ t) = if j == k then some v else lookup k t

  -- Writes the row under its key, behind the others if the key is new.
  unfoldable pub save : ℕ → V → Table V → Table V
  save k v [] = (k, v) ∷ []
  save k v ((j, w) ∷ t) = if j == k then (k, v) ∷ t else (j, w) ∷ save k v t

  unfoldable pub erase : ℕ → Table V → Table V
  erase k [] = []
  erase k ((j, w) ∷ t) = if j == k then t else (j, w) ∷ erase k t

  -- `filter(...)`, in the order of the table.
  unfoldable pub select : (V → Bool) → Table V → Table V
  select p [] = []
  select p ((j, w) ∷ t) = if p w then (j, w) ∷ select p t else select p t

  -- `filter(...).exists()`.
  unfoldable pub exists : (V → Bool) → Table V → Bool
  exists p [] = false
  exists p ((_, w) ∷ t) = p w || exists p t

  -- `exclude(pk=k).filter(...).exists()`.
  unfoldable pub exists_other : ℕ → (V → Bool) → Table V → Bool
  exists_other k p [] = false
  exists_other k p ((j, w) ∷ t) = not (j == k) && p w || exists_other k p t

  -- `filter(...).first()`, in the order of the table.
  unfoldable pub find_first : (V → Bool) → Table V → Option (ℕ × V)
  find_first p [] = none
  find_first p ((j, w) ∷ t) = if p w then some (j, w) else find_first p t

  abbrev row_of : Table V → Option (ℕ × V) → Option (ℕ × V)
  row_of t none = none
  row_of t (some (k, _)) = elim (lookup k t) [ none ↦ none | some v ↦ some (k, v) ]

  -- `filter(...).first()`, the row read by its key.
  unfoldable pub first_row : (V → Bool) → Table V → Option (ℕ × V)
  first_row p t = row_of t (find_first p t)

  -- `aggregate(Sum(...))`.
  unfoldable pub sum_by : (V → ℤ) → Table V → ℤ
  sum_by f [] = pos 0
  sum_by f ((_, w) ∷ t) = f w +ℤ sum_by f t

  pub lookup-save :
      (j k : ℕ) (v : V) (t : Table V)
      → lookup j (save k v t) ≡ (if k == j then some v else lookup j t)
  unfolding lookup save
  lookup-save j k v [] = ground arith
  lookup-save j k v (e ∷ t) = ground (arith, lookup-save j k v t)

  pub lookup-save_same : (k : ℕ) (v : V) (t : Table V) → lookup k (save k v t) ≡ some v
  lookup-save_same k v t = ground (arith, lookup-save k k v t)

  pub save-save : (k : ℕ) (v w : V) (t : Table V) → save k v (save k w t) ≡ save k v t
  unfolding save
  save-save k v w [] = ground arith
  save-save k v w ((j, u) ∷ t) = ground (arith, save-save k v w t)

  pub sum_by-save :
      (f : V → ℤ) (k : ℕ) (v old : V) (t : Table V)
      → lookup k t ≡ some old
      → sum_by f (save k v t) +ℤ f old ≡ sum_by f t +ℤ f v
  unfolding lookup save sum_by
  sum_by-save f k v old [] h = ground arith
  sum_by-save f k v old ((j, w) ∷ t) h = grind (int_laws, sum_by-save f k v old t)

  pub sum_by-save_new :
      (f : V → ℤ) (k : ℕ) (v : V) (t : Table V)
      → lookup k t ≡ none
      → sum_by f (save k v t) ≡ sum_by f t +ℤ f v
  unfolding lookup save sum_by
  sum_by-save_new f k v [] h = omega int_laws
  sum_by-save_new f k v ((j, w) ∷ t) h = grind (int_laws, sum_by-save_new f k v t)

  pub sum_by-erase :
      (f : V → ℤ) (k : ℕ) (old : V) (t : Table V)
      → lookup k t ≡ some old
      → sum_by f (erase k t) +ℤ f old ≡ sum_by f t
  unfolding lookup erase sum_by
  sum_by-erase f k old [] h = ground arith
  sum_by-erase f k old ((j, w) ∷ t) h = grind (int_laws, sum_by-erase f k old t)

  row_of-lookup :
      (t : Table V) (o : Option (ℕ × V)) (k : ℕ) (v : V)
      → row_of t o ≡ some (k, v)
      → lookup k t ≡ some v
  row_of-lookup t none k v h = ground arith
  row_of-lookup t (some (j, w)) k v h = ground arith

  pub first_row-lookup :
      (p : V → Bool) (k : ℕ) (v : V) (t : Table V)
      → first_row p t ≡ some (k, v)
      → lookup k t ≡ some v
  unfolding first_row
  first_row-lookup p k v t h = row_of-lookup t (find_first p t) k v h

  pub exists-save :
      (p : V → Bool) (k : ℕ) (v : V) (t : Table V) → p v ≡ true → exists p (save k v t) ≡ true
  unfolding exists save
  exists-save p k v [] h = ground arith
  exists-save p k v ((j, w) ∷ t) h = ground (arith, exists-save p k v t)

  find_first-save_new :
      (p : V → Bool) (k : ℕ) (v : V) (t : Table V)
      → exists p t ≡ false
      → p v ≡ true
      → lookup k t ≡ none
      → find_first p (save k v t) ≡ some (k, v)
  unfolding exists save lookup find_first
  find_first-save_new p k v [] h q e = ground arith
  find_first-save_new p k v ((j, w) ∷ t) h q e = ground (arith, find_first-save_new p k v t)

  find_first-save :
      (p : V → Bool) (k : ℕ) (v w : V) (t : Table V)
      → find_first p t ≡ some (k, w)
      → p v ≡ true
      → find_first p (save k v t) ≡ some (k, v)
  unfolding save find_first
  find_first-save p k v w [] h q = ground arith
  find_first-save p k v w ((j, u) ∷ t) h q = ground (arith, find_first-save p k v w t)

  -- A new row, the only one that fits, is found.
  pub first_row-save_new :
      (p : V → Bool) (k : ℕ) (v : V) (t : Table V)
      → exists p t ≡ false
      → p v ≡ true
      → lookup k t ≡ none
      → first_row p (save k v t) ≡ some (k, v)
  unfolding first_row
  first_row-save_new p k v t h q e =
      rw (find_first-save_new p k v t h q e) (ground (arith, lookup-save_same k v t))

  first_row-find :
      (p : V → Bool) (k : ℕ) (v : V) (t : Table V)
      → first_row p t ≡ some (k, v)
      → (w : V) × (find_first p t ≡ some (k, w))
  unfolding first_row
  first_row-find p k v t h = elim (Option-cases (find_first p t)) [
    | inl e ↦ absurd (ground arith)
    | inr ((j, w), e) ↦ (w, ground arith)
  ]

  -- The row that is found stays the one while it fits.
  pub first_row-save :
      (p : V → Bool) (k : ℕ) (v v' : V) (t : Table V)
      → first_row p t ≡ some (k, v)
      → p v' ≡ true
      → first_row p (save k v' t) ≡ some (k, v')
  unfolding first_row
  first_row-save p k v v' t h q =
      let (w, e) = first_row-find p k v t h in
      rw (find_first-save p k v' w t e q) (ground (arith, lookup-save_same k v' t))

  pub exists-weaken :
      (p q : V → Bool) (t : Table V)
      → ((v : V) → q v ≡ false → p v ≡ false)
      → exists q t ≡ false
      → exists p t ≡ false
  unfolding exists
  exists-weaken p q [] f h = refl
  exists-weaken p q ((j, w) ∷ t) f h =
      let here : p w ≡ false = f w (ground arith) in
      let rest : exists p t ≡ false = exists-weaken p q t f (ground arith) in ground arith

  find_first-exists : (p : V → Bool) (t : Table V) → exists p t ≡ false → find_first p t ≡ none
  unfolding exists find_first
  find_first-exists p [] h = refl
  find_first-exists p ((j, w) ∷ t) h = ground (arith, find_first-exists p t)

  -- No row is found where none fits.
  pub first_row-exists : (p : V → Bool) (t : Table V) → exists p t ≡ false → first_row p t ≡ none
  unfolding first_row
  first_row-exists p t h = rw (find_first-exists p t h) refl

  -- A row that a query of the whole table does not find is not under any key.
  pub lookup-exists :
      (p : V → Bool) (k : ℕ) (v : V) (t : Table V)
      → exists p t ≡ false
      → lookup k t ≡ some v
      → p v ≡ false
  unfolding lookup exists
  lookup-exists p k v [] h e = ground arith
  lookup-exists p k v ((j, w) ∷ t) h e = ground (arith, lookup-exists p k v t)

  pub lookup-exists_other :
      (p : V → Bool) (j k : ℕ) (v : V) (t : Table V)
      → exists_other k p t ≡ false
      → (j == k) ≡ false
      → lookup j t ≡ some v
      → p v ≡ false
  unfolding lookup exists_other
  lookup-exists_other p j k v [] h ne e = ground arith
  lookup-exists_other p j k v ((i, w) ∷ t) h ne e = ground (arith, lookup-exists_other p j k v t)
