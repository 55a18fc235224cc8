-- ===== src/Base/Keys.antt =====
-- Tables whose rows stand under different keys: what a query finds is what its key holds.
use Prim.Native.Nat.{ℕ}
use mathlib.Core.Path.{◌≡◌, refl}
use mathlib.Core.Bool.{Bool, true, false}
use mathlib.Core.Option.{none, some}
use mathlib.Core.List.{[], ◌∷◌}
use mathlib.Core.Logic.{inl, inr}
use native.Mathlib.Omega.{arith}
use tenora.Base.Tests.{◌==◌, Bool-cases, Option-cases}
use tenora.Base.Table.{Table, lookup, save, exists, find_first, first_row}
use tenora.Base.Rows.{AllRows, Pairs, AllRows-lookup, Pairs-save}
use tenora.Base.Queries.{update_where}

module _ {ℓ} {V : Type ℓ} where
  abbrev pub HasKeys : Table V → Type 0
  HasKeys t = Pairs (λ j _ k _. (j == k) ≡ false) t

  find_first-fits :
      (p : V → Bool) (k : ℕ) (w : V) (t : Table V)
      → HasKeys t
      → find_first p t ≡ some (k, w)
      → (lookup k t ≡ some w) × (p w ≡ true)
  unfolding lookup find_first
  find_first-fits p k w [] h e = absurd (ground arith)
  find_first-fits p k w ((j, u) ∷ t) h e = elim (Bool-cases (p u)) [
    | inl fits ↦ (ground arith, ground arith)
    | inr not_ ↦
        let rest : (lookup k t ≡ some w) × (p w ≡ true) =
          find_first-fits p k w t h.1 (ground arith) in
        let apart : (j == k) ≡ false =
          AllRows-lookup (λ i _. (j == i) ≡ false) k w t (λ i s q. ground arith) h.0 rest.0 in
        (ground arith, rest.1)
  ]

  pub first_row-fits :
      (p : V → Bool) (k : ℕ) (v : V) (t : Table V)
      → HasKeys t
      → first_row p t ≡ some (k, v)
      → p v ≡ true
  unfolding first_row
  first_row-fits p k v t h e = elim (Option-cases (find_first p t)) [
    | inl missing ↦ absurd (ground arith)
    | inr ((j, w), found) ↦
        let fits : (lookup j t ≡ some w) × (p w ≡ true) = find_first-fits p j w t h found in
        ground arith
  ]

  find_first-none : (p : V → Bool) (t : Table V) → find_first p t ≡ none → exists p t ≡ false
  unfolding exists find_first
  find_first-none p [] e = refl
  find_first-none p ((j, w) ∷ t) e = ground (arith, find_first-none p t)

  pub first_row-missing :
      (p : V → Bool) (t : Table V) → HasKeys t → first_row p t ≡ none → exists p t ≡ false
  unfolding first_row
  first_row-missing p t h e = elim (Option-cases (find_first p t)) [
    | inl missing ↦ find_first-none p t missing
    | inr ((j, w), found) ↦
        let fits : (lookup j t ≡ some w) × (p w ≡ true) = find_first-fits p j w t h found in
        absurd (ground arith)
  ]

  AllRows-update_where :
      (i : ℕ) (c : ℕ → V → Bool) (f : V → V) (t : Table V)
      → AllRows (λ k _. (i == k) ≡ false) t
      → AllRows (λ k _. (i == k) ≡ false) (update_where c f t)
  unfolding update_where
  AllRows-update_where i c f [] h = tt
  AllRows-update_where i c f ((j, w) ∷ t) h = (h.0, AllRows-update_where i c f t h.1)

  pub HasKeys-update_where :
      (c : ℕ → V → Bool) (f : V → V) (t : Table V) → HasKeys t → HasKeys (update_where c f t)
  unfolding update_where
  HasKeys-update_where c f [] h = tt
  HasKeys-update_where c f ((j, w) ∷ t) h =
      (AllRows-update_where j c f t h.0, HasKeys-update_where c f t h.1)

  pub HasKeys-save : (k : ℕ) (v : V) (t : Table V) → HasKeys t → HasKeys (save k v t)
  HasKeys-save k v t h =
      Pairs-save (λ i _ j _. (i == j) ≡ false) (λ i _ j _ r. ground arith) (λ i _ j _ r. r) k v t h
        (anywhere t)
    where
      anywhere : (u : Table V) → AllRows (λ i _. (i == k) ≡ false → (k == i) ≡ false) u
      anywhere [] = tt
      anywhere ((i, w) ∷ u) = (λ ne. ground arith, anywhere u)

  -- A write to the row of one key that does not fit writes nothing.
  pub update_where_none :
      (k : ℕ) (v : V) (c : ℕ → V → Bool) (f : V → V) (t : Table V)
      → HasKeys t
      → lookup k t ≡ some v
      → c k v ≡ false
      → ((j : ℕ) (w : V) → (j == k) ≡ false → c j w ≡ false)
      → update_where c f t ≡ t
  unfolding update_where lookup
  update_where_none k v c f [] h e q apart = refl
  update_where_none k v c f ((j, w) ∷ t) h e q apart = elim (Bool-cases (j == k)) [
    | inl same ↦
        let row : w ≡ v = ground arith in
        let key : j ≡ k = ground arith in
        let out : c j w ≡ false = rw (key, row) q in rw (out, elsewhere t (rw key at (h.0))) refl
    | inr other ↦ rw (apart j w other, update_where_none k v c f t h.1 (ground arith) q apart) refl
  ]
    where
      elsewhere : (u : Table V) → AllRows (λ i _. (k == i) ≡ false) u → update_where c f u ≡ u
      elsewhere [] r = refl
      elsewhere ((i, x) ∷ u) r = rw (apart i x (ground arith), elsewhere u r.1) refl
