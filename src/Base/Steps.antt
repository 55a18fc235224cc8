-- ===== src/Base/Steps.antt =====
-- Runs of a step relation, and what its steps keep.
module _ {S : Type 0} (Step : S → S → Type 0) where
  pub data Reach (s : S) : S → Type 0 where
    here : Reach s s
    next : {t u : S} → Reach s t → Step t u → Reach s u

  pub Reach-trans : {s t u : S} → Reach s t → Reach t u → Reach s u
  Reach-trans p here = p
  Reach-trans p (next q w) = next (Reach-trans p q) w

  pub Reach-keeps {ℓ} :
      (P : S → Type ℓ) → ((s t : S) → Step s t → P s → P t) → (s t : S) → Reach s t → P s → P t
  Reach-keeps P keep s t here h = h
  Reach-keeps P keep s t (next r w) h = keep _ t w (Reach-keeps P keep s _ r h)
