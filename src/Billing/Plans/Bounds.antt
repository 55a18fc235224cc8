-- ===== src/Billing/Plans/Bounds.antt =====
-- The amount of a proration (`ProrationService.calculate` of apps/billing/services.py).
use native.Mathlib.Nat.{
  div-lt_iff_lt-mul, div-add-mod, mod-lt, mul-le-mul_left, le-div_iff_mul-le, div-zero,
}
use tenora.Base.{ℕ, zero, suc, ◌+◌, ◌*◌, ◌-◌, ◌/◌, ◌%◌, ◌≤◌, ◌<◌, ◌≡◌, arith, ◌∙◌}
use tenora.Base.Int.{ℤ, pos, negsuc, ◌+ℤ◌, ◌-ℤ◌, ◌*ℤ◌, pos_part, neg_part, sub_ℕ, int_laws}
use tenora.Exec.{ok}
use tenora.Property.Calculations.{quantize_half_up}
use tenora.Property.Calculations.Rounding.{IsNearest}
use tenora.Billing.Plans.{remaining_of, net_of, calculate, ProrationResult}

-- The part of an amount, rounded.
part : ℕ → ℕ → ℕ → ℕ
part d remaining total = (d * remaining + total / 2) / total

part-IsNearest : (d r t : ℕ) → 0 < t → IsNearest t (d * r) (part d r t)
unfolding part
part-IsNearest d r t h =
    let whole : t * ((d * r + t / 2) / t) + (d * r + t / 2) % t ≡ d * r + t / 2 =
      div-add-mod (d * r + t / 2) t in
    let rest : (d * r + t / 2) % t < t = mod-lt (d * r + t / 2) h in (omega arith, omega arith)

part_bounded : (d r t : ℕ) → 0 < t → r ≤ t → part d r t ≤ d
unfolding part
part_bounded d r t h b =
    let less : d * r ≤ d * t = mul-le-mul_left d b in
    let below : d * r + t / 2 < (d + 1) * t = omega arith in
    let quotient : (d * r + t / 2) / t < d + 1 = (div-lt_iff_lt-mul h).1 below in omega arith

part_all : (d t : ℕ) → 0 < t → part d t t ≡ d
unfolding part
part_all d t h =
    let up : (d * t + t / 2) / t ≤ d = part_bounded d t t h (omega arith) in
    let down : d ≤ (d * t + t / 2) / t = (le-div_iff_mul-le h).1 (omega arith) in omega arith

part_none : (d t : ℕ) → 0 < t → part d 0 t ≡ 0
unfolding part
part_none d t h =
    let small : (d * 0 + t / 2) / t < 1 = (div-lt_iff_lt-mul h).1 (omega arith) in omega arith

half_none : (t : ℕ) → t / 2 / t ≡ 0
half_none zero = div-zero (zero / 2)
half_none (suc t) =
    let small : suc t / 2 / suc t < 1 = (div-lt_iff_lt-mul (omega arith)).1 (omega arith) in
    omega arith

part_zero : (r t : ℕ) → part 0 r t ≡ 0
unfolding part
part_zero r t = ground (arith, half_none t)

quantize_sub : (t m : ℕ) → quantize_half_up t (sub_ℕ 0 m) ≡ sub_ℕ 0 ((m + t / 2) / t)
unfolding quantize_half_up
quantize_sub t zero = ground (arith, half_none t)
quantize_sub t (suc m) = ground arith

mul_negsuc : (n r : ℕ) → negsuc n *ℤ pos r ≡ sub_ℕ 0 (suc n * r)
unfolding ◌*ℤ◌
mul_negsuc n r = ground arith

magnitude : ℤ → ℕ
magnitude (pos n) = n
magnitude (negsuc n) = suc n

-- An amount with the sign of another.
signed : ℤ → ℕ → ℤ
signed (pos _) m = pos m
signed (negsuc _) m = sub_ℕ 0 m

quantize_pos : (n r t : ℕ) → quantize_half_up t (pos n *ℤ pos r) ≡ pos ((n * r + t / 2) / t)
unfolding quantize_half_up ◌*ℤ◌
quantize_pos n r t = ground arith

quantize_signed :
    (d : ℤ) (r t : ℕ) → quantize_half_up t (d *ℤ pos r) ≡ signed d (part (magnitude d) r t)
unfolding signed magnitude part
quantize_signed (pos n) r t = quantize_pos n r t
quantize_signed (negsuc n) r t = rw (mul_negsuc n r) (quantize_sub t (suc n * r))

net_lem :
    (from to : ℤ) (r t : ℕ)
    → net_of from to r t ≡ signed (to -ℤ from) (part (magnitude (to -ℤ from)) r t)
unfolding net_of
net_lem from to r t = quantize_signed (to -ℤ from) r t

-- `calculate` has a result only for a period of a second at least.
calculate_lem :
    (from to : ℤ) (start end now : ℕ) (r : ProrationResult)
    → calculate from to start end now ≡ ok r
    → (0 < end - start)
      × (remaining_of (end - start) end now ≤ end - start)
      × (r.net_amount_cents ≡ net_of from to (remaining_of (end - start) end now) (end - start))
unfolding calculate
calculate_lem from to start end now r h = ground arith

-- The amount has the sign of the difference of the prices.
pub record IsProrated (d : ℤ) (remaining total : ℕ) (net : ℤ) : Type 0 where
  pub charged : pos_part net ≤ pos_part d
  pub credited : neg_part net ≤ neg_part d
  pub nearest :
      IsNearest total ((pos_part d + neg_part d) * remaining) (pos_part net + neg_part net)

signed-IsProrated :
    (d : ℤ) (r t : ℕ) → 0 < t → r ≤ t → IsProrated d r t (signed d (part (magnitude d) r t))
unfolding signed magnitude
signed-IsProrated (pos n) r t h b = record {
  charged = ground (arith, part_bounded n r t);
  credited = omega arith;
  nearest = ground (arith, part-IsNearest n r t);
}
signed-IsProrated (negsuc n) r t h b = record {
  charged = ground arith;
  credited = ground (arith, part_bounded (suc n) r t);
  nearest = ground (arith, part-IsNearest (suc n) r t);
}

-- Where a proration has a result, its amount lies between zero and the difference of the prices,
-- and is the whole number nearest to that difference times what is left of the period over its
-- length.
pub calculate-IsProrated :
    (from to : ℤ) (start end now : ℕ) (r : ProrationResult)
    → calculate from to start end now ≡ ok r
    → IsProrated (to -ℤ from) (remaining_of (end - start) end now) (end - start) r.net_amount_cents
calculate-IsProrated from to start end now r h =
    let (positive, within, e) = calculate_lem from to start end now r h in
    rw (e, net_lem from to (remaining_of (end - start) end now) (end - start))
      (signed-IsProrated (to -ℤ from) (remaining_of (end - start) end now) (end - start) positive
        within)

-- Before the period the whole difference, after it nothing.
signed_none : (d : ℤ) (t : ℕ) → 0 < t → signed d (part (magnitude d) 0 t) ≡ pos 0
unfolding signed
signed_none (pos n) t h = ground (arith, part_none (magnitude (pos n)) t)
signed_none (negsuc n) t h = ground (arith, part_none (magnitude (negsuc n)) t)

signed_all : (d : ℤ) (t : ℕ) → 0 < t → signed d (part (magnitude d) t t) ≡ d
unfolding signed magnitude
signed_all (pos n) t h = ground (arith, part_all n t)
signed_all (negsuc n) t h = ground (arith, part_all (suc n) t)

-- Where a proration has a result, its amount is zero at and after the end of the period, and the
-- whole difference of the prices at and before its start.
pub calculate_ends :
    (from to : ℤ) (start end now : ℕ) (r : ProrationResult)
    → calculate from to start end now ≡ ok r
    → (end ≤ now → r.net_amount_cents ≡ pos 0) × (now ≤ start → r.net_amount_cents ≡ to -ℤ from)
calculate_ends from to start end now r h =
    let (positive, within, e) = calculate_lem from to start end now r h in
    let net : r.net_amount_cents
        ≡ signed (to -ℤ from)
            (part (magnitude (to -ℤ from)) (remaining_of (end - start) end now) (end - start)) =
      e ∙ net_lem from to (remaining_of (end - start) end now) (end - start) in
    (
      λ late.
          let none_left : remaining_of (end - start) end now ≡ 0 = ground arith in
          rw none_left at net ∙ signed_none (to -ℤ from) (end - start) positive,
      λ early.
          let all_left : remaining_of (end - start) end now ≡ end - start = ground arith in
          rw all_left at net ∙ signed_all (to -ℤ from) (end - start) positive,
    )

-- What is owed for a change one way is credited for the change the other way.
opposite : (from to : ℤ) → (to -ℤ from) +ℤ (from -ℤ to) ≡ pos 0
opposite from to = omega int_laws

signed_back :
    (d d' : ℤ)
    → d +ℤ d' ≡ pos 0
    → (r t : ℕ) → signed d (part (magnitude d) r t) +ℤ signed d' (part (magnitude d') r t) ≡ pos 0
unfolding signed magnitude ◌+ℤ◌
signed_back (pos n) (pos m) e r t = ground (arith, part_zero r t)
signed_back (pos n) (negsuc m) e r t = ground arith
signed_back (negsuc n) (pos m) e r t = ground arith
signed_back (negsuc n) (negsuc m) e r t = absurd (ground arith)

-- Where the prorations of a change of plan and of the change back have results at the same
-- instant, their amounts add up to zero.
pub calculate_back :
    (from to : ℤ) (start end now : ℕ) (r r' : ProrationResult)
    → calculate from to start end now ≡ ok r
    → calculate to from start end now ≡ ok r'
    → r.net_amount_cents +ℤ r'.net_amount_cents ≡ pos 0
calculate_back from to start end now r r' h h' =
    let (_, _, e) = calculate_lem from to start end now r h in
    let (_, _, e') = calculate_lem to from start end now r' h' in
    let rest : ℕ = remaining_of (end - start) end now in
    rw (e, e', net_lem from to rest (end - start), net_lem to from rest (end - start))
      (signed_back (to -ℤ from) (from -ℤ to) (opposite from to) rest (end - start))
