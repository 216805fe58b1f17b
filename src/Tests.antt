-- ===== src/Tests.antt =====
-- Concrete inputs: runs of the definitions, and the theorems at inputs that meet their hypotheses.
mod LedgerSamples
mod LedgerRuns
mod RuleSamples
mod RuleRuns
mod ControllerSamples
mod ControllerRuns
mod LastingRuns
mod HoldingRuns
mod WebhookRuns
mod InflightRuns
mod DetectorRuns
mod CertgenSamples
mod CertgenRuns
mod OrderRuns
mod WaitingRuns
mod ManagerRuns
mod AnnouncedRuns
mod MetricsRuns
