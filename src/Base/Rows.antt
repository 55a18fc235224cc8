-- ===== src/Base/Rows.antt =====
-- What holds of every row of a table, and of every two rows.
use Prim.Native.Nat.{ℕ}
use mathlib.Core.Path.{◌≡◌, refl, subst₂}
use mathlib.Core.Bool.{Bool, true, false}
use mathlib.Core.Option.{none, some}
use mathlib.Core.List.{[], ◌∷◌}
use mathlib.Core.Logic.{◌⊎◌, inl, inr}
use native.Mathlib.Omega.{arith}
use tenora.Base.Tests.{◌==◌, Bool-cases}
use tenora.Base.Table.{Table, lookup, save, exists}

module _ {ℓ κ} {V : Type ℓ} where
  abbrev pub AllRows : (ℕ → V → Type κ) → Table V → Type κ
  AllRows P [] = Unit
  AllRows P ((k, v) ∷ t) = P k v × AllRows P t

  -- Two rows stand in a relation, the earlier one first.
  abbrev pub Pairs : (ℕ → V → ℕ → V → Type κ) → Table V → Type κ
  Pairs R [] = Unit
  Pairs R ((k, v) ∷ t) = AllRows (R k v) t × Pairs R t

  pub AllRows-save :
      (P : ℕ → V → Type κ) (k : ℕ) (v : V) (t : Table V)
      → AllRows P t
      → P k v
      → AllRows P (save k v t)
  unfolding save
  AllRows-save P k v [] h p = (p, tt)
  AllRows-save P k v ((j, w) ∷ t) h p = elim (Bool-cases (j == k)) [
    | inl same ↦ rw same (p, h.1)
    | inr other ↦ rw other (h.0, AllRows-save P k v t h.1 p)
  ]

  pub AllRows-lookup :
      (P : ℕ → V → Type κ) (k : ℕ) (v : V) (t : Table V)
      → ((j : ℕ) → (j == k) ≡ true → P j v → P k v)
      → AllRows P t
      → lookup k t ≡ some v
      → P k v
  unfolding lookup
  AllRows-lookup P k v [] move h e = cc
  AllRows-lookup P k v ((j, w) ∷ t) move h e = elim (Bool-cases (j == k)) [
    | inl same ↦ let row : w ≡ v = ground (arith) in move j same (rw row at (h.0))
    | inr other ↦ AllRows-lookup P k v t move h.1 (rw other at e)
  ]

module _ {ℓ κ μ} {V : Type ℓ} where
  pub AllRows-map :
      (P : ℕ → V → Type κ) (Q : ℕ → V → Type μ) (t : Table V)
      → ((k : ℕ) (v : V) → P k v → Q k v)
      → AllRows P t
      → AllRows Q t
  AllRows-map P Q [] f h = tt
  AllRows-map P Q ((k, v) ∷ t) f h = (f k v h.0, AllRows-map P Q t f h.1)

module _ {ℓ} {V : Type ℓ} where
  pub AllRows-exists :
      (p : V → Bool) (t : Table V) → exists p t ≡ false → AllRows (λ _ v. p v ≡ false) t
  unfolding exists
  AllRows-exists p [] h = tt
  AllRows-exists p ((k, v) ∷ t) h = (ground arith, AllRows-exists p t (ground arith))

  pub AllRows-lookup-none :
      (k : ℕ) (t : Table V) → lookup k t ≡ none → AllRows (λ j _. (j == k) ≡ false) t
  unfolding lookup
  AllRows-lookup-none k [] h = tt
  AllRows-lookup-none k ((j, v) ∷ t) h = (ground arith, AllRows-lookup-none k t (ground arith))

module _ {ℓ κ μ} {V : Type ℓ} where
  pub AllRows-both :
      (P : ℕ → V → Type κ) (Q : ℕ → V → Type μ) (t : Table V)
      → AllRows P t
      → AllRows Q t
      → AllRows (λ k v. P k v × Q k v) t
  AllRows-both P Q [] h g = tt
  AllRows-both P Q ((k, v) ∷ t) h g = ((h.0, g.0), AllRows-both P Q t h.1 g.1)

module _ {ℓ} {V : Type ℓ} (R : ℕ → V → ℕ → V → Type 0)
    (flip : (j : ℕ) (w : V) (k : ℕ) (v : V) → R j w k v → R k v j w)
    (apart : (j : ℕ) (w : V) (k : ℕ) (v : V) → R j w k v → (j == k) ≡ false) where
  others :
      (j k : ℕ) (w v : V) (t : Table V)
      → (j == k) ≡ true
      → AllRows (R j w) t
      → AllRows (λ i u. (i == k) ≡ false → R k v i u) t
      → AllRows (R k v) t
  others j k w v [] same h g = tt
  others j k w v ((i, u) ∷ t) same h g =
      let key : (i == k) ≡ false = ground (arith, apart j w i u h.0) in
      (g.0 key, others j k w v t same h.1 g.1)

  -- A row that stands in the relation to the rows under other keys is written.
  pub Pairs-save :
      (k : ℕ) (v : V) (t : Table V)
      → Pairs R t
      → AllRows (λ i u. (i == k) ≡ false → R k v i u) t
      → Pairs R (save k v t)
  unfolding save
  Pairs-save k v [] h g = (tt, tt)
  Pairs-save k v ((j, w) ∷ t) h g = elim (Bool-cases (j == k)) [
    | inl same ↦ rw same (others j k w v t same h.0 g.1, h.1)
    | inr other ↦
        rw other
          (AllRows-save (R j w) k v t h.0 (flip k v j w (g.0 other)), Pairs-save k v t h.1 g.1)
  ]

-- A row is in the table.
pub data IsRow {ℓ} {V : Type ℓ} (k : ℕ) (v : V) : Table V → Type ℓ where
  here : {j : ℕ} {w : V} {t : Table V} → j ≡ k → w ≡ v → IsRow k v ((j, w) ∷ t)
  there : {j : ℕ} {w : V} {t : Table V} → IsRow k v t → IsRow k v ((j, w) ∷ t)

module _ {ℓ} {V : Type ℓ} where
  pub lookup-IsRow : (k : ℕ) (v : V) (t : Table V) → lookup k t ≡ some v → IsRow k v t
  unfolding lookup
  lookup-IsRow k v [] h = cc
  lookup-IsRow k v ((j, w) ∷ t) h = elim (Bool-cases (j == k)) [
    | inl same ↦ here (ground arith) (ground arith)
    | inr other ↦ there (lookup-IsRow k v t (rw other at h))
  ]

module _ {ℓ κ} {V : Type ℓ} (k : ℕ) (v : V) where
  pub AllRows-IsRow : (P : ℕ → V → Type κ) (t : Table V) → AllRows P t → IsRow k v t → P k v
  AllRows-IsRow P [] h r = elim r [ ]
  AllRows-IsRow P ((j, w) ∷ t) h (here a b) = subst₂ P a b h.0
  AllRows-IsRow P ((j, w) ∷ t) h (there r) = AllRows-IsRow P t h.1 r

module _ {ℓ} {V : Type ℓ} (R : ℕ → V → ℕ → V → Type 0)
    (flip : (j : ℕ) (w : V) (k : ℕ) (v : V) → R j w k v → R k v j w) (k : ℕ) (v : V) where
  -- Every row is this one or stands in the relation to it.
  pub Pairs-IsRow :
      (t : Table V) → Pairs R t → IsRow k v t → AllRows (λ i u. ((i ≡ k) × (u ≡ v)) ⊎ R k v i u) t
  Pairs-IsRow [] h r = elim r [ ]
  Pairs-IsRow ((j, w) ∷ t) h (here a b) =
      (inl (a, b), AllRows-map _ _ t (λ i u r. inr (subst₂ (λ x y. R x y i u) a b r)) h.0)
  Pairs-IsRow ((j, w) ∷ t) h (there r) =
      (inr (flip j w k v (AllRows-IsRow k v (R j w) t h.0 r)), Pairs-IsRow t h.1 r)

module _ {ℓ} {V : Type ℓ} where
  pub save-IsRow : (k : ℕ) (v : V) (t : Table V) → IsRow k v (save k v t)
  unfolding save
  save-IsRow k v [] = here refl refl
  save-IsRow k v ((j, w) ∷ t) = elim (Bool-cases (j == k)) [
    | inl same ↦ rw same (here refl refl)
    | inr other ↦ rw other (there (save-IsRow k v t))
  ]
