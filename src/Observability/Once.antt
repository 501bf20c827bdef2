-- ===== src/Observability/Once.antt =====
-- The process is configured once.
use enterprise_rag_ingestion.Prelude.{◌≡◌, refl, Bool, true, false, string_eq, if◌then◌else◌}
use enterprise_rag_ingestion.Exceptions.{Result, ok, raise}
use enterprise_rag_ingestion.Observability.{
  Settings, Process, export, with_tracing, installed, configure_observability,
}

-- A call that returned has set the flag.
installed-configured :
    (s : Settings) (x : Result (Unit {0}) × Process)
    → (installed s x).0 ≡ ok tt
    → (installed s x).1.configured ≡ true
installed-configured s (ok u, p) h = refl
installed-configured s (raise e, p) h = cc

-- A process that is configured is left as it is.
configured-again :
    (s : Settings) (p : Process) → p.configured ≡ true → configure_observability s p ≡ (ok tt, p)
unfolding configure_observability
configured-again s p done = simp done refl

pub configure_observability-sets :
    (s : Settings) (p : Process)
    → (configure_observability s p).0 ≡ ok tt
    → (configure_observability s p).1.configured ≡ true
unfolding configure_observability
configure_observability-sets s p h = go p.configured refl h
  where
    go :
        (b : Bool)
        → p.configured ≡ b
        → (if b then (ok tt, p) else installed s (with_tracing s (export s p))).0 ≡ ok tt
        → (if b then (ok tt, p) else installed s (with_tracing s (export s p))).1.configured ≡ true
    go true done e = done
    go false fresh e = installed-configured s (with_tracing s (export s p)) e

-- Once `configure_observability` has returned, another call, with whatever settings, returns and
-- changes nothing of the process.
pub configure_observability-once :
    (s s' : Settings) (p : Process)
    → (configure_observability s p).0 ≡ ok tt
    → configure_observability s' (configure_observability s p).1
      ≡ (ok tt, (configure_observability s p).1)
configure_observability-once s s' p h =
    configured-again s' (configure_observability s p).1 (configure_observability-sets s p h)
