-- ===== src/Lifecycle/Distinct.antt =====
-- The invocations that `_nesting_problems` collects.
use llm_vs_zombies.Base.{ℕ, suc, ◌≡◌, false, List, [], ◌∷◌, if◌then◌else◌, ◌==◌, any, is_some, ◌+◌}
use llm_vs_zombies.Json.{Json}
use llm_vs_zombies.Lifecycle.{invocation_of}

abbrev IsNew : List ℕ → ℕ → Type 0
IsNew seen i = any (λ j. j == i) seen ≡ false

-- The number of records that name an invocation.
unfoldable pub naming : ℕ → List Json → ℕ
naming index [] = 0
naming index (line ∷ lines) =
    (if is_some (invocation_of index line) then 1 else 0) + naming (suc index) lines
