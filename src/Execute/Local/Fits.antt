-- ===== src/Execute/Local/Fits.antt =====
-- An admitted run fits into the memory.
use native.Mathlib.Nat.{mul-pos, pos_of_div-pos, le-div_iff_mul-le}
use the_soverign_imperia_cit.Base.{
  ℕ, ◌+◌, ◌*◌, ◌-◌, ◌/◌, ◌≤◌, ◌<◌, min, ◌≡◌, refl, true, false, Bool-cases, ltb, inl, inr, ◌⊎◌,
  Option, none, some, arith,
}
use the_soverign_imperia_cit.Base.Text.{Text}
use the_soverign_imperia_cit.Execute.Blueprint.{Blueprint, RunSpec}
use the_soverign_imperia_cit.Execute.Policy.{Ratio}
use the_soverign_imperia_cit.Execute.Arbitrator.{ArbitrationDecision}
use the_soverign_imperia_cit.Execute.Local.Hardware.{
  kv_bytes_per_token, min_ctx, weight, memory, needed, offered, fit_ctx, fit_run,
}

-- A decision on a planned run: an admitted one is the planned run but for its context, which is the
-- largest that fits and is not longer than planned; a rejected one would not fit with 256 tokens.
abbrev pub Fits : (Text → Option Ratio) → Ratio → RunSpec → ArbitrationDecision → Type 0
Fits size_of vram_gb run d =
    let weights = weight size_of run.model run.quantization in
    let mem = memory vram_gb in
    ((d.admit ≡ true)
      × (n : ℕ) × (d.run_spec ≡ some (record run { n_ctx = n }))
      × (needed weights mem n ≤ offered weights mem)
      × (n ≤ run.n_ctx)
      × ((m : ℕ) → m ≤ run.n_ctx → needed weights mem m ≤ offered weights mem → m ≤ n))
    ⊎ ((d.admit ≡ false) × (d.run_spec ≡ none) × (offered weights mem < needed weights mem min_ctx))

-- The quotient is the largest number of units that fit.
fits_below : (a b k m : ℕ) → 0 < k → a ≤ b → m ≤ (b - a) / k → a + m * k ≤ b
fits_below a b k m p h l = omega (arith, (le-div_iff_mul-le {k = k} {x = m} {y = b - a} p).0 l)

fits_above : (a b k m : ℕ) → 0 < k → a + m * k ≤ b → m ≤ (b - a) / k
fits_above a b k m p h = (le-div_iff_mul-le {k = k} {x = m} {y = b - a} p).1 (omega arith)

below_of_quotient : (a b k : ℕ) → 256 ≤ (b - a) / k → a ≤ b
below_of_quotient a b k h = omega (arith, pos_of_div-pos {n = b - a} k (omega arith))

reject_over : (a b k m : ℕ) → 0 < k → (b - a) / k < m → b < a + m * k
reject_over a b k m p h = ground (arith, fits_above a b k m p)

unit_pos : (x y : ℕ) → 0 < x → 0 < y → 0 < kv_bytes_per_token * (x * y)
unit_pos x y p q = omega (arith, mul-pos p q)

-- When a model name's size and the memory are fractions, every decision on a GPU fits: an admitted
-- run has the longest context, up to the planned one, with which weights and cache fit into the
-- memory, and a run is rejected only if not even 256 tokens would fit.
pub fit_run-Fits :
    (size_of : Text → Option Ratio) (vram_gb : Ratio) (b : Blueprint) (run : RunSpec)
    → 0 < (weight size_of run.model run.quantization).den
    → 0 < vram_gb.den
    → Fits size_of vram_gb run (fit_run size_of vram_gb b run)
unfolding fit_run fit_ctx
fit_run-Fits size_of vram_gb b run p q =
    let weights = weight size_of run.model run.quantization in
    let mem = memory vram_gb in
    let k = kv_bytes_per_token * (weights.den * mem.den) in
    let a = weights.num * mem.den in
    let c = offered weights mem in
    let pos = unit_pos weights.den mem.den p q in
    elim (Bool-cases (ltb (offered weights mem) (needed weights mem run.n_ctx))) [
      | inr e ↦ rw e (inl (refl, run.n_ctx, refl, ground arith, omega arith, (λ m l f. l)))
      | inl e ↦ rw e (elim (Bool-cases (ltb ((c - a) / k) min_ctx)) [
        | inl f ↦ rw f (inr (refl, refl, reject_over a c k min_ctx pos (ground arith)))
        | inr f ↦ rw f (
            inl (
              refl,
              min run.n_ctx ((c - a) / k),
              refl,
              fits_below a c k (min run.n_ctx ((c - a) / k)) pos
                  (below_of_quotient a c k (ground arith)) (omega arith),
              omega arith,
              (λ m l g. omega (arith, fits_above a c k m pos g)),
            ))
      ])
    ]
