-- ===== src/Launcher/Closes.antt =====
-- The telemetry of a worker is flushed however the worker ends.
use enterprise_rag_ingestion.Prelude.{◌≡◌, ◌⊎◌, true, List, [], ◌∷◌, ◌++◌}
use enterprise_rag_ingestion.Launcher.{Action, shuts_down, shutdown_observability, Launch}

-- A launch that did anything ended with the shutdown of the providers that its process has, which
-- was configured.
pub record IsClosed (l : Launch) : Type 0 where
  pub earlier : List Action
  pub last : l.actions ≡ earlier ++ shuts_down (shutdown_observability l.final) ∷ []
  pub ready : l.final.configured ≡ true

-- A launch did nothing, or it closed.
abbrev pub Closed : Launch → Type 0
Closed l = (l.actions ≡ []) ⊎ IsClosed l
