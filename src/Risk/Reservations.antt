-- ===== src/Risk/Reservations.antt =====
-- `InMemoryExposureTracker` of executor/risk.py: what is reserved is released, and no leg is ever
-- filled beyond what it intends.
use polymarket_trade_executo.Common.{
  String, ◌≡◌, refl, sym, ap, ◌∙◌, subst, arith, Bool-cases, Option, none, some, inl, inr, ok,
  ok-injective, ◌||◌,
}
use polymarket_trade_executo.Common.Int.{ℤ, pos, ◌+ℤ◌, ◌-ℤ◌, ◌≤ℤ◌, leb_ℤ, max_ℤ, +ℤ_parts, -ℤ_parts}
use polymarket_trade_executo.Common.Dict.{
  get, set, remove, get-set, remove-set_new, AllValues, AllValues-get, AllValues-set,
}
use polymarket_trade_executo.Risk.Exposure.{
  ActiveLegRiskState, ActivePackageRiskState, InMemoryExposureTracker, reserve_unless,
  reserve_package, release_found, release_package, fill_found, fill_active, incremental_fill,
  filled_package, fill_leg, apply_fill,
}

-- A reservation was made, of an id that was free.
record IsReserved (t : InMemoryExposureTracker) (s : ActivePackageRiskState)
    (t' : InMemoryExposureTracker) : Type 0 where
  free : get t.active_packages s.package_id ≡ none
  active : t'.active_packages ≡ set t.active_packages s.package_id s
  total :
      t'.total_open_notional_cents ≡ t.total_open_notional_cents +ℤ s.total_reserved_notional_cents

reserve_unless-IsReserved :
    (t : InMemoryExposureTracker) (s : ActivePackageRiskState)
    (found : Option ActivePackageRiskState) (t' : InMemoryExposureTracker)
    → get t.active_packages s.package_id ≡ found
    → reserve_unless t s found ≡ ok t'
    → IsReserved t s t'
unfolding reserve_unless
reserve_unless-IsReserved t s (some other) t' e h = cc
reserve_unless-IsReserved t s none t' e h =
    let same = ok-injective h in
    record {
      free = e;
      active = sym (ap (λ u. u.active_packages) same);
      total = sym (ap (λ u. u.total_open_notional_cents) same);
    }

-- What a release does for an active package.
record IsReleased (t : InMemoryExposureTracker) (id : String) (s : ActivePackageRiskState)
    (r : InMemoryExposureTracker × Option ActivePackageRiskState) : Type 0 where
  released : r.1 ≡ some s
  active : r.0.active_packages ≡ remove t.active_packages id
  total :
      r.0.total_open_notional_cents
      ≡ max_ℤ (pos 0) (t.total_open_notional_cents -ℤ s.total_reserved_notional_cents)

release-IsReleased :
    (t : InMemoryExposureTracker) (id : String) (s : ActivePackageRiskState)
    → get t.active_packages id ≡ some s
    → IsReleased t id s (release_package t id)
unfolding release_package release_found
release-IsReleased t id s found =
    subst (λ f. IsReleased t id s (release_found t id f)) (sym found)
      (record { released = refl; active = refl; total = refl })

sum_back : (a b : ℤ) → pos 0 ≤ℤ a → max_ℤ (pos 0) (a +ℤ b -ℤ b) ≡ a
sum_back a b h = ground (arith, +ℤ_parts a b, -ℤ_parts (a +ℤ b) b)

-- A package that is reserved and then released is returned, and leaves the active packages and the
-- total open notional as they were, where the total was not negative.
pub release_package-reserve_package :
    (t : InMemoryExposureTracker) (s : ActivePackageRiskState) (t' : InMemoryExposureTracker)
    → pos 0 ≤ℤ t.total_open_notional_cents
    → reserve_package t s ≡ ok t'
    → (let r = release_package t' s.package_id in
        (r.1 ≡ some s)
        × (r.0.active_packages ≡ t.active_packages)
        × (r.0.total_open_notional_cents ≡ t.total_open_notional_cents))
unfolding reserve_package
release_package-reserve_package t s t' h e =
    let i = s.package_id in
    let r = reserve_unless-IsReserved t s (get t.active_packages i) t' refl e in
    let found : get t'.active_packages i ≡ some s =
      subst (λ d. get d i ≡ some s) (sym r.active) (get-set t.active_packages i s) in
    let back = release-IsReleased t' i s found in
    (
      back.released,
      back.active ∙ (ap (λ d. remove d i) r.active ∙ remove-set_new t.active_packages i s r.free),
      back.total
          ∙ (ap (λ n. max_ℤ (pos 0) (n -ℤ s.total_reserved_notional_cents)) r.total
              ∙ sum_back t.total_open_notional_cents s.total_reserved_notional_cents h),
    )

-- The leg is filled at most in full.
abbrev pub IsInLimit : ActiveLegRiskState → Type 0
IsInLimit leg = leg.filled_qty ≤ℤ leg.intended_qty

-- Every leg of the package is.
abbrev pub AreInLimit : ActivePackageRiskState → Type 0
AreInLimit pkg = AllValues IsInLimit pkg.legs

incremental-fits :
    (leg : ActiveLegRiskState) (fill_qty : ℤ)
    → leg.filled_qty ≤ℤ leg.intended_qty
    → leg.filled_qty +ℤ incremental_fill leg fill_qty ≤ℤ leg.intended_qty
incremental-fits leg fill_qty h = ground (
  arith,
  -ℤ_parts leg.intended_qty leg.filled_qty,
  +ℤ_parts leg.filled_qty (incremental_fill leg fill_qty),
)

fill_leg-AreInLimit :
    (t : InMemoryExposureTracker) (pkg : ActivePackageRiskState) (leg : ActiveLegRiskState)
    (package_id leg_id : String) (qty price ts : ℤ)
    → AllValues AreInLimit t.active_packages
    → AreInLimit pkg
    → IsInLimit leg
    → AllValues AreInLimit (fill_leg t pkg leg package_id leg_id qty price ts).0.active_packages
unfolding fill_leg filled_package
fill_leg-AreInLimit t pkg leg package_id leg_id qty price ts all one h =
    elim (Bool-cases (leb_ℤ (incremental_fill leg qty) (pos 0))) [
      | inl nothing ↦ rw nothing all
      | inr some_new ↦ rw some_new (
          AllValues-set AreInLimit t.active_packages package_id _ all
            (AllValues-set IsInLimit pkg.legs leg_id _ one (incremental-fits leg qty h)))
    ]

fill_found-AreInLimit :
    (t : InMemoryExposureTracker) (pkg : ActivePackageRiskState) (found : Option ActiveLegRiskState)
    (package_id leg_id : String) (qty price ts : ℤ)
    → AllValues AreInLimit t.active_packages
    → AreInLimit pkg
    → get pkg.legs leg_id ≡ found
    → AllValues AreInLimit (fill_found t pkg found package_id leg_id qty price ts).0.active_packages
unfolding fill_found
fill_found-AreInLimit t pkg none package_id leg_id qty price ts all one e = all
fill_found-AreInLimit t pkg (some leg) package_id leg_id qty price ts all one e =
    fill_leg-AreInLimit t pkg leg package_id leg_id qty price ts all one
      (AllValues-get IsInLimit pkg.legs leg_id leg one e)

fill_active-AreInLimit :
    (t : InMemoryExposureTracker) (found : Option ActivePackageRiskState)
    (package_id leg_id : String) (qty price ts : ℤ)
    → AllValues AreInLimit t.active_packages
    → get t.active_packages package_id ≡ found
    → AllValues AreInLimit (fill_active t found package_id leg_id qty price ts).0.active_packages
unfolding fill_active
fill_active-AreInLimit t none package_id leg_id qty price ts all e = all
fill_active-AreInLimit t (some pkg) package_id leg_id qty price ts all e =
    fill_found-AreInLimit t pkg (get pkg.legs leg_id) package_id leg_id qty price ts all
      (AllValues-get AreInLimit t.active_packages package_id pkg all e) refl

-- Where no leg of an active package is filled beyond its intended quantity, none is after any fill,
-- also one that is larger than what is missing, repeated, or of an unknown package or leg.
pub apply_fill-AreInLimit :
    (t : InMemoryExposureTracker) (package_id leg_id : String)
    (fill_qty fill_price_ticks fill_ts_ns : ℤ)
    → AllValues AreInLimit t.active_packages
    → AllValues AreInLimit
        (apply_fill t package_id leg_id fill_qty fill_price_ticks fill_ts_ns).0.active_packages
unfolding apply_fill
apply_fill-AreInLimit t package_id leg_id qty price ts all =
    elim (Bool-cases (leb_ℤ qty (pos 0) || leb_ℤ price (pos 0))) [
      | inl void ↦ rw void all
      | inr real ↦ rw real (
          fill_active-AreInLimit t (get t.active_packages package_id) package_id leg_id qty price ts
            all refl)
    ]
