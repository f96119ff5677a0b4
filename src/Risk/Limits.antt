-- ===== src/Risk/Limits.antt =====
-- The tracker of executor/risk.py within the manager's limits: every operation keeps the open
-- notional equal to what is reserved, and within its cap.
use polymarket_trade_executo.Common.{
  String, ◌≡◌, refl, sym, ap, subst, ◌∙◌, arith, Bool-cases, Option, none, some, inl, inr, ok,
  ok-injective, ◌||◌,
}
use polymarket_trade_executo.Common.Int.{
  ℤ, pos, ◌+ℤ◌, ◌-ℤ◌, ◌≤ℤ◌, ◌<ℤ◌, leb_ℤ, max_ℤ, +ℤ_parts, -ℤ_parts, eq_of_parts,
}
use polymarket_trade_executo.Common.Dict.{
  Dict, get, set, remove, AllValues, AllValues-get, AllValues-set,
}
use polymarket_trade_executo.Common.DictSums.{
  HasDistinctKeys, sum_by, set-HasDistinctKeys, remove-HasDistinctKeys, length-set_new,
  length-set_old, length-remove, sum-set_new, sum-set_old, sum-remove, AllValues-remove, sum-nonneg,
}
use polymarket_trade_executo.Common.Lists.{length}
use polymarket_trade_executo.Risk.Types.{RiskManagerConfig}
use polymarket_trade_executo.Risk.Exposure.{
  ActiveLegRiskState, ActivePackageRiskState, InMemoryExposureTracker, reserve_unless,
  release_found, release_package, incremental_fill, filled_package, fill_leg, fill_found,
  fill_active, apply_fill,
}

abbrev pub reserved : ActivePackageRiskState → ℤ
reserved state = state.total_reserved_notional_cents

abbrev pub IsReserving : ActivePackageRiskState → Type 0
IsReserving state = pos 0 ≤ℤ reserved state

-- The open notional is what the active packages reserve, and neither it nor their number exceeds
-- its cap.
pub record IsWithinLimits (c : RiskManagerConfig) (t : InMemoryExposureTracker) : Type 0 where
  pub distinct : HasDistinctKeys t.active_packages
  pub accounted : t.total_open_notional_cents ≡ sum_by reserved t.active_packages
  pub nonneg : AllValues IsReserving t.active_packages
  pub within_total : t.total_open_notional_cents ≤ℤ c.max_total_open_notional_cents
  pub within_count : pos (length t.active_packages) ≤ℤ c.max_simultaneous_active_packages

module _ (c : RiskManagerConfig) where
  pub reserve-IsWithinLimits :
      (t : InMemoryExposureTracker) (s : ActivePackageRiskState) (t' : InMemoryExposureTracker)
      → IsWithinLimits c t
      → IsReserving s
      → t.total_open_notional_cents +ℤ reserved s ≤ℤ c.max_total_open_notional_cents
      → pos (length t.active_packages) <ℤ c.max_simultaneous_active_packages
      → get t.active_packages s.package_id ≡ none
      → reserve_unless t s none ≡ ok t'
      → IsWithinLimits c t'
  unfolding reserve_unless
  reserve-IsWithinLimits t s t' v r total room free e =
      let i = s.package_id in
      subst (IsWithinLimits c) (ok-injective e) (record {
        distinct = set-HasDistinctKeys t.active_packages i s v.distinct;
        accounted =
            ap (λ n. n +ℤ reserved s) v.accounted
            ∙ sym (sum-set_new reserved t.active_packages i s free);
        nonneg = AllValues-set IsReserving t.active_packages i s v.nonneg r;
        within_total = total;
        within_count = omega (arith, length-set_new t.active_packages i s free, room);
      })

  released_total :
      (t : InMemoryExposureTracker) (id : String) (s : ActivePackageRiskState)
      → IsWithinLimits c t
      → get t.active_packages id ≡ some s
      → (max_ℤ (pos 0) (t.total_open_notional_cents -ℤ reserved s)
          ≡ sum_by reserved (remove t.active_packages id))
        × (sum_by reserved (remove t.active_packages id) ≤ℤ t.total_open_notional_cents)
  released_total t id s v found =
      let left = sum_by reserved (remove t.active_packages id) in
      let split = v.accounted ∙ sum-remove reserved t.active_packages id s v.distinct found in
      let positive =
        sum-nonneg reserved (remove t.active_packages id)
          (AllValues-remove IsReserving t.active_packages id v.nonneg) in
      let taken = AllValues-get IsReserving t.active_packages id s v.nonneg found in
      let back : left +ℤ reserved s -ℤ reserved s ≡ left =
        eq_of_parts _ _
          (omega (arith, +ℤ_parts left (reserved s), -ℤ_parts (left +ℤ reserved s) (reserved s))) in
      (
        rw (split, back) (ground (arith, positive)),
        rw split (omega (arith, +ℤ_parts left (reserved s), taken)),
      )

  release_found-IsWithinLimits :
      (t : InMemoryExposureTracker) (id : String) (found : Option ActivePackageRiskState)
      → IsWithinLimits c t
      → get t.active_packages id ≡ found
      → IsWithinLimits c (release_found t id found).0
  unfolding release_found
  release_found-IsWithinLimits t id none v e = v
  release_found-IsWithinLimits t id (some s) v e =
      let (total, less) = released_total t id s v e in
      record {
        distinct = remove-HasDistinctKeys t.active_packages id v.distinct;
        accounted = total;
        nonneg = AllValues-remove IsReserving t.active_packages id v.nonneg;
        within_total = rw total (omega (arith, less, v.within_total));
        within_count = omega (arith, length-remove t.active_packages id, v.within_count);
      }

  pub release-IsWithinLimits :
      (t : InMemoryExposureTracker) (id : String)
      → IsWithinLimits c t
      → IsWithinLimits c (release_package t id).0
  unfolding release_package
  release-IsWithinLimits t id v =
      release_found-IsWithinLimits t id (get t.active_packages id) v refl

  -- An active package may be replaced by one that reserves as much.
  replaced-IsWithinLimits :
      (t : InMemoryExposureTracker) (id : String) (s s' : ActivePackageRiskState)
      (imbalance : Dict ℤ)
      → IsWithinLimits c t
      → get t.active_packages id ≡ some s
      → reserved s' ≡ reserved s
      → IsWithinLimits c (record t {
        active_packages = set t.active_packages id s';
        open_directional_imbalance_by_market = imbalance;
      })
  replaced-IsWithinLimits t id s s' imbalance v found same = record {
    distinct = set-HasDistinctKeys t.active_packages id s' v.distinct;
    accounted = v.accounted ∙ sym (sum-set_old reserved t.active_packages id s' s found same);
    nonneg = AllValues-set IsReserving t.active_packages id s' v.nonneg (
        subst (λ n. pos 0 ≤ℤ n) (sym same)
          (AllValues-get IsReserving t.active_packages id s v.nonneg found));
    within_total = v.within_total;
    within_count = omega (arith, length-set_old t.active_packages id s' s found, v.within_count);
  }

  fill_leg-IsWithinLimits :
      (t : InMemoryExposureTracker) (s : ActivePackageRiskState) (leg : ActiveLegRiskState)
      (id leg_id : String) (qty price ts : ℤ)
      → IsWithinLimits c t
      → get t.active_packages id ≡ some s
      → IsWithinLimits c (fill_leg t s leg id leg_id qty price ts).0
  unfolding fill_leg filled_package
  fill_leg-IsWithinLimits t s leg id leg_id qty price ts v found =
      elim (Bool-cases (leb_ℤ (incremental_fill leg qty) (pos 0))) [
        | inl nothing ↦ rw nothing v
        | inr some_new ↦ rw some_new (replaced-IsWithinLimits t id s _ _ v found refl)
      ]

  fill_found-IsWithinLimits :
      (t : InMemoryExposureTracker) (s : ActivePackageRiskState) (found : Option ActiveLegRiskState)
      (id leg_id : String) (qty price ts : ℤ)
      → IsWithinLimits c t
      → get t.active_packages id ≡ some s
      → IsWithinLimits c (fill_found t s found id leg_id qty price ts).0
  unfolding fill_found
  fill_found-IsWithinLimits t s none id leg_id qty price ts v e = v
  fill_found-IsWithinLimits t s (some leg) id leg_id qty price ts v e =
      fill_leg-IsWithinLimits t s leg id leg_id qty price ts v e

  fill_active-IsWithinLimits :
      (t : InMemoryExposureTracker) (found : Option ActivePackageRiskState) (id leg_id : String)
      (qty price ts : ℤ)
      → IsWithinLimits c t
      → get t.active_packages id ≡ found
      → IsWithinLimits c (fill_active t found id leg_id qty price ts).0
  unfolding fill_active
  fill_active-IsWithinLimits t none id leg_id qty price ts v e = v
  fill_active-IsWithinLimits t (some s) id leg_id qty price ts v e =
      fill_found-IsWithinLimits t s (get s.legs leg_id) id leg_id qty price ts v e

  pub apply_fill-IsWithinLimits :
      (t : InMemoryExposureTracker) (id leg_id : String) (qty price ts : ℤ)
      → IsWithinLimits c t
      → IsWithinLimits c (apply_fill t id leg_id qty price ts).0
  unfolding apply_fill
  apply_fill-IsWithinLimits t id leg_id qty price ts v =
      elim (Bool-cases (leb_ℤ qty (pos 0) || leb_ℤ price (pos 0))) [
        | inl void ↦ rw void v
        | inr real ↦
            rw real (
              fill_active-IsWithinLimits t (get t.active_packages id) id leg_id qty price ts v refl)
      ]
