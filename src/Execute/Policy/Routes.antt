-- ===== src/Execute/Policy/Routes.antt =====
-- Which tasks run on the free local tier.
use the_soverign_imperia_cit.Base.{
  ◌*◌, ◌≤◌, String, ◌≡◌, ◌≢◌, ◌↔◌, Bool, false, str_eq, eq_iff, arith, ◌||◌, inl, inr, Bool-cases,
}
use the_soverign_imperia_cit.Execute.Policy.{Ratio, below_half, is_cloud_first, route}

below_half_iff : (c : Ratio) → (below_half c ≡ false) ↔ (c.den ≤ 2 * c.num)
unfolding below_half
below_half_iff c = ground arith

-- A task runs on the local tier exactly when it is not of high risk, its intent is not cloud-first,
-- its complexity is not "high" and the confidence is at least one half; it is free exactly then.
pub route_iff :
    (intent complexity : String) (high_risk : Bool) (c : Ratio)
    → (((route intent complexity high_risk c).tier ≡ "local") ↔ (
        (high_risk ≡ false)
        × (is_cloud_first intent ≡ false)
        × (complexity ≢ "high")
        × (c.den ≤ 2 * c.num)))
      × ((route intent complexity high_risk c).free
          ≡ str_eq (route intent complexity high_risk c).tier "local")
unfolding route
route_iff intent complexity high_risk c =
    elim (Bool-cases (high_risk || (is_cloud_first intent || str_eq complexity "high"))) [
      | inl e ↦ rw e (ground (arith, eq_iff complexity "high", eq_iff "cloud" "local"))
      | inr e ↦ rw e (elim (Bool-cases (below_half c)) [
        | inl f ↦ rw f (ground (arith, below_half_iff c, eq_iff "cloud" "local"))
        | inr f ↦ rw f (ground (arith, eq_iff complexity "high", below_half_iff c))
      ])
    ]
