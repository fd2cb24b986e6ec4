-- ===== src/Authority/Tribune/Attempts.antt =====
-- A run of attempts to kill.
use the_soverign_imperia_cit.Base.{
  ℕ, ◌≡◌, refl, List, [], ◌∷◌, ◌++◌, true, false, not, select, if◌then◌else◌, Bool-cases, inl, inr,
  ap, ◌∙◌,
}
use mathlib.Core.List.{append_assoc, append-nil}
use the_soverign_imperia_cit.Authority.Tribune.{SacrosanctRegistry, is_sacrosanct, may_kill}

-- The pids that may be killed, in order.
unfoldable pub attempts : SacrosanctRegistry → List ℕ → SacrosanctRegistry × List ℕ
attempts r [] = (r, [])
attempts r (pid ∷ pids) =
    let (r', allowed) = may_kill r pid in
    let (r'', killed) = attempts r' pids in (r'', if allowed then pid ∷ killed else killed)

may_kill_protected :
    (r : SacrosanctRegistry) (pid : ℕ)
    → is_sacrosanct r pid ≡ true
    → may_kill r pid ≡ (record r { violations = r.violations ++ pid ∷ [] }, false)
unfolding may_kill
may_kill_protected r pid h = rw h

may_kill_other :
    (r : SacrosanctRegistry) (pid : ℕ) → is_sacrosanct r pid ≡ false → may_kill r pid ≡ (r, true)
unfolding may_kill
may_kill_other r pid h = rw h

-- The registry after the attempts, and who may be killed.
abbrev Outcome : SacrosanctRegistry → List ℕ → SacrosanctRegistry × List ℕ → Type 0
Outcome r pids o =
    (o.1 ≡ select (λ p. not (is_sacrosanct r p)) pids)
    × (o.0 ≡ record r { violations = r.violations ++ select (is_sacrosanct r) pids })

Outcome-protected :
    (r : SacrosanctRegistry) (pid : ℕ) (pids : List ℕ)
    → is_sacrosanct r pid ≡ true
    → let r' = record r { violations = r.violations ++ pid ∷ [] } in
      Outcome r' pids (attempts r' pids) → Outcome r (pid ∷ pids) (attempts r (pid ∷ pids))
unfolding attempts is_sacrosanct
Outcome-protected r pid pids h ih =
    rw (may_kill_protected r pid h, h)
      (ih.0, ih.1 ∙ ap (λ v. record r { violations = v }) (append_assoc r.violations (pid ∷ []) _))

Outcome-other :
    (r : SacrosanctRegistry) (pid : ℕ) (pids : List ℕ)
    → is_sacrosanct r pid ≡ false
    → Outcome r pids (attempts r pids)
    → Outcome r (pid ∷ pids) (attempts r (pid ∷ pids))
unfolding attempts
Outcome-other r pid pids h ih = rw (may_kill_other r pid h, h) (rw ih.0 refl, ih.1)

-- Whatever is attempted, exactly the unprotected pids may be killed, every protected one is
-- recorded as a violation in order, and the protection of no process changes.
pub attempts_lem :
    (r : SacrosanctRegistry) (pids : List ℕ)
    → ((attempts r pids).1 ≡ select (λ p. not (is_sacrosanct r p)) pids)
      × ((attempts r pids).0
          ≡ record r { violations = r.violations ++ select (is_sacrosanct r) pids })
unfolding attempts
attempts_lem r [] = (refl, rw append-nil)
attempts_lem r (pid ∷ pids) = elim (Bool-cases (is_sacrosanct r pid)) [
  | inl s ↦
      Outcome-protected r pid pids s
        (attempts_lem (record r { violations = r.violations ++ pid ∷ [] }) pids)
  | inr s ↦ Outcome-other r pid pids s (attempts_lem r pids)
]
