-- ===== src/Property/Tariffs.antt =====
-- `TariffService` of apps/properties/services.py.
pub mod Disjoint
pub mod Keep
use tenora.Base.{
  ℕ, Bool, true, false, not, ◌&&◌, ◌||◌, ◌-◌, Option, none, some, [], ◌∷◌, ◌==◌, is_some, ltb, leb,
  if◌then◌else◌,
}
use tenora.Base.Int.{ℤ, pos, ltb_ℤ}
use tenora.Base.Table.{Table, lookup, save, exists_other}
use tenora.Exec.{
  Exec, Result, ok, err, domain, integrity, pure, gets, atomic, modify, raise_if, ◌>>=◌, ◌>>◌,
  rate_negative, tariff_not_after_current,
}
use tenora.Property.Rows.{Tariff}
use tenora.Property.Db.{Db, Action, refuse_if, audit}

abbrev pub Found : Type 0
Found = Option (ℕ × Tariff)

abbrev pub later : ℕ → Tariff → Found → Found
later pk r none = some (pk, r)
later pk r (some (k, s)) =
    if ltb r.effective_from s.effective_from then some (k, s) else some (pk, r)

-- `filter(p).order_by("-effective_from").first()`
unfoldable pub latest : (Tariff → Bool) → Table Tariff → Found
latest p [] = none
latest p ((pk, r) ∷ t) = let rest = latest p t in if p r then later pk r rest else rest

abbrev pub not_ended : ℕ → Tariff → Bool
not_ended date t = elim t.effective_to [ none ↦ true | some to ↦ leb date to ]

-- Effective on a date: a closed range of days.
abbrev pub is_effective : ℕ → ℕ → Tariff → Bool
is_effective tenant date t =
    t.tenant == tenant && (t.is_active && (leb t.effective_from date && not_ended date t))

unfoldable pub applicable : ℕ → ℕ → Table Tariff → Found
applicable tenant date = latest (is_effective tenant date)

abbrev pub is_current : ℕ → Tariff → Bool
is_current tenant t = t.tenant == tenant && t.is_active

-- unique_tariff_start and tariff_rate_non_negative
unfoldable pub tariff_violates : ℕ → Tariff → Table Tariff → Bool
tariff_violates pk t tariffs =
    ltb_ℤ t.rate_per_unit_cents (pos 0)
    || t.is_active
      && exists_other pk
          (λ o. o.tenant == t.tenant && (o.is_active && o.effective_from == t.effective_from))
          tariffs

unfoldable pub insert_tariff : ℕ → Tariff → Exec {0} Db Unit
insert_tariff pk t db =
    if is_some (lookup pk db.tariffs)
    then (err integrity, db)
    else if tariff_violates pk t db.tariffs
    then (err integrity, db)
    else (ok tt, record db { tariffs = save pk t db.tariffs })

-- The latest rate ends on the day before the new one starts, unless it ended before that.
unfoldable pub close_latest : ℕ → Found → Table Tariff → Table Tariff
close_latest effective_from none t = t
close_latest effective_from (some (pk, latest)) t =
    if not_ended effective_from latest
    then save pk (record latest { effective_to = some (effective_from - 1) }) t
    else t

abbrev pub starts_after : ℕ → Found → Bool
starts_after effective_from none = true
starts_after effective_from (some (_, latest)) = ltb latest.effective_from effective_from

unfoldable pub create : ℕ → ℕ → ℕ → ℤ → ℕ → Exec {0} Db ℕ
unfolding insert_tariff
create pk actor tenant rate effective_from = do
  refuse_if (ltb_ℤ rate (pos 0)) rate_negative
  atomic do
    current ← gets (λ db. latest (is_current tenant) db.tariffs)
    refuse_if (not (starts_after effective_from current)) tariff_not_after_current
    modify (λ db. record db { tariffs = close_latest effective_from current db.tariffs })
    insert_tariff pk (record {
      tenant = tenant;
      rate_per_unit_cents = rate;
      effective_from = effective_from;
      effective_to = none;
      is_active = true;
      created_by = actor;
    })
    audit actor tenant Action.tariff_created pk
    pure pk
