-- ===== src/Authority/Tribune.antt =====
-- src/citadel/services/authority/tribune.py: the registry of processes that nothing may kill.
-- The set of pids is a list without order.
pub mod Attempts
use the_soverign_imperia_cit.Base.{
  ℕ, List, [], ◌∷◌, ◌++◌, Bool, true, false, ◌==◌, ◌≡◌, refl, arith, select, any, if◌then◌else◌,
}

pub record SacrosanctRegistry : Type 0 where
  pub protected : List ℕ
  pub violations : List ℕ

unfoldable pub init : SacrosanctRegistry
init = record { protected = []; violations = [] }

unfoldable pub is_sacrosanct : SacrosanctRegistry → ℕ → Bool
is_sacrosanct r pid = any (λ p. p == pid) r.protected

unfoldable pub protect : SacrosanctRegistry → ℕ → SacrosanctRegistry
unfolding is_sacrosanct
protect r pid = if is_sacrosanct r pid then r else record r { protected = pid ∷ r.protected }

unfoldable pub discard : List ℕ → ℕ → List ℕ
discard [] pid = []
discard (p ∷ ps) pid = let rest = discard ps pid in if p == pid then rest else p ∷ rest

unfoldable pub unprotect : SacrosanctRegistry → ℕ → SacrosanctRegistry
unfolding discard
unprotect r pid = record r { protected = discard r.protected pid }

unfoldable pub may_kill : SacrosanctRegistry → ℕ → SacrosanctRegistry × Bool
unfolding is_sacrosanct
may_kill r pid =
    if is_sacrosanct r pid
    then (record r { violations = r.violations ++ pid ∷ [] }, false)
    else (r, true)
