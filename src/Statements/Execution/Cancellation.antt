-- ===== src/Statements/Execution/Cancellation.antt =====
-- What a cancellation leaves of a statement that has ended.
use minilake.Prelude.{ℕ, ◌≡◌, string_eq}
use minilake.Statements.Model.{Statement, canceled}
use minilake.Statements.Execution.{GetStatementResponse}

-- The answers before and after a cancellation.
abbrev pub IsCanceled :
    {Row : Type 0} → ℕ → GetStatementResponse Row → GetStatementResponse Row → Type 0
IsCanceled now before after = after ≡ record before { state = canceled; ended_at = now }

abbrev canceled_at : {Row : Type 0} → ℕ → Statement Row → Statement Row
canceled_at now stmt = record stmt { status = canceled; ended_at = now }
