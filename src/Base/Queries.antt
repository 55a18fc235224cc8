-- ===== src/Base/Queries.antt =====
-- Queries that write to or count every row that fits.
use Prim.Native.Nat.{ℕ, ◌+◌}
use mathlib.Core.Path.{◌≡◌, refl}
use mathlib.Core.Bool.{Bool, true, false}
use mathlib.Core.Option.{none, some}
use mathlib.Core.List.{[], ◌∷◌}
use mathlib.Core.Logic.{inl, inr}
use native.Mathlib.Omega.{arith}
use tenora.Base.Tests.{◌==◌, if◌then◌else◌, Bool-cases, leb}
use tenora.Base.Table.{Table, lookup, save, exists, exists_other}

-- 1 for a row that fits, and 0 for another.
abbrev pub one_if : Bool → ℕ
one_if true = 1
one_if false = 0

module _ {ℓ} {V : Type ℓ} where
  -- `filter(...).update(...)`
  unfoldable pub update_where : (ℕ → V → Bool) → (V → V) → Table V → Table V
  update_where p f [] = []
  update_where p f ((k, v) ∷ t) = (k, if p k v then f v else v) ∷ update_where p f t

  -- `filter(...).count()`
  unfoldable pub count : (V → Bool) → Table V → ℕ
  count p [] = 0
  count p ((_, v) ∷ t) = one_if (p v) + count p t

  pub count-save :
      (p : V → Bool) (k : ℕ) (v old : V) (t : Table V)
      → lookup k t ≡ some old
      → count p (save k v t) + one_if (p old) ≡ count p t + one_if (p v)
  unfolding lookup save count
  count-save p k v old [] h = ground arith
  count-save p k v old ((j, w) ∷ t) h = grind (arith, count-save p k v old t)

  pub count-save_new :
      (p : V → Bool) (k : ℕ) (v : V) (t : Table V)
      → lookup k t ≡ none
      → count p (save k v t) ≡ count p t + one_if (p v)
  unfolding lookup save count
  count-save_new p k v [] h = ground arith
  count-save_new p k v ((j, w) ∷ t) h = grind (arith, count-save_new p k v t)

  -- A write that makes no row fit does not raise the count.
  pub count-update_where :
      (p : V → Bool) (c : ℕ → V → Bool) (f : V → V) (t : Table V)
      → ((v : V) → p (f v) ≡ true → p v ≡ true)
      → leb (count p (update_where c f t)) (count p t) ≡ true
  unfolding update_where count
  count-update_where p c f [] h = refl
  count-update_where p c f ((k, v) ∷ t) h =
      let rest = count-update_where p c f t h in let here = h v in ground arith

  -- A row that fits is still there after a write that keeps it fitting.
  pub exists-update_where :
      (p : V → Bool) (c : ℕ → V → Bool) (f : V → V) (t : Table V)
      → ((k : ℕ) (v : V) → p v ≡ true → c k v ≡ true → p (f v) ≡ true)
      → exists p t ≡ true
      → exists p (update_where c f t) ≡ true
  unfolding update_where exists
  exists-update_where p c f [] h e = e
  exists-update_where p c f ((k, v) ∷ t) h e = elim (Bool-cases (p v)) [
    | inl fits ↦ let here = h k v fits in ground arith
    | inr other ↦ let rest = exists-update_where p c f t h (ground arith) in ground arith
  ]

  -- No row fits after a write that makes none fit, where none did.
  pub exists-update_where_back :
      (p : V → Bool) (c : ℕ → V → Bool) (f : V → V) (t : Table V)
      → ((v : V) → p (f v) ≡ true → p v ≡ true)
      → exists p t ≡ false
      → exists p (update_where c f t) ≡ false
  unfolding update_where exists
  exists-update_where_back p c f [] h e = e
  exists-update_where_back p c f ((k, v) ∷ t) h e =
      let rest = exists-update_where_back p c f t h (ground arith) in let here = h v in ground arith

  pub exists-save_kept :
      (p : V → Bool) (k : ℕ) (v old : V) (t : Table V)
      → lookup k t ≡ some old
      → (p old ≡ true → p v ≡ true)
      → exists p t ≡ true
      → exists p (save k v t) ≡ true
  unfolding lookup save exists
  exists-save_kept p k v old [] e h x = absurd (ground arith)
  exists-save_kept p k v old ((j, w) ∷ t) e h x = ground (arith, exists-save_kept p k v old t)

  pub exists-exists_other :
      (p : V → Bool) (k : ℕ) (t : Table V) → exists_other k p t ≡ true → exists p t ≡ true
  unfolding exists exists_other
  exists-exists_other p k [] x = x
  exists-exists_other p k ((j, w) ∷ t) x = ground (arith, exists-exists_other p k t)

  pub exists-save_other :
      (p : V → Bool) (k : ℕ) (v : V) (t : Table V)
      → exists_other k p t ≡ true
      → exists p (save k v t) ≡ true
  unfolding save exists exists_other
  exists-save_other p k v [] x = absurd (ground arith)
  exists-save_other p k v ((j, w) ∷ t) x =
      ground (arith, exists-save_other p k v t, exists-exists_other p k t)

  pub exists-save_new :
      (p : V → Bool) (k : ℕ) (v : V) (t : Table V)
      → lookup k t ≡ none
      → exists p t ≡ true
      → exists p (save k v t) ≡ true
  unfolding lookup save exists
  exists-save_new p k v [] e x = absurd (ground arith)
  exists-save_new p k v ((j, w) ∷ t) e x = ground (arith, exists-save_new p k v t)

  -- A row that does not fit adds none.
  pub exists-save_back :
      (p : V → Bool) (k : ℕ) (v : V) (t : Table V)
      → p v ≡ false
      → exists p t ≡ false
      → exists p (save k v t) ≡ false
  unfolding save exists
  exists-save_back p k v [] q x = ground arith
  exists-save_back p k v ((j, w) ∷ t) q x = ground (arith, exists-save_back p k v t)

  pub lookup-update_where :
      (k : ℕ) (v : V) (c : ℕ → V → Bool) (f : V → V) (t : Table V)
      → lookup k t ≡ some v
      → lookup k (update_where c f t) ≡ some (if c k v then f v else v)
  unfolding lookup update_where
  lookup-update_where k v c f [] e = absurd (ground arith)
  lookup-update_where k v c f ((j, w) ∷ t) e = elim (Bool-cases (j == k)) [
    | inl same ↦
        let row : w ≡ v = ground arith in let key : j ≡ k = ground arith in rw (same, key, row) refl
    | inr other ↦ rw other (lookup-update_where k v c f t (rw other at e))
  ]
