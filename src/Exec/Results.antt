-- ===== src/Exec/Results.antt =====
-- A chain of steps that may raise and keep no state.
use agentic_crew.Exec.{Result, ok, err}

infixl 5 ◌>>=◌
abbrev pub ◌>>=◌ {ℓ κ} : {A : Type ℓ} {B : Type κ} → Result A → (A → Result B) → Result B
ok a >>= f = f a
err e >>= f = err e
