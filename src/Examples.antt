-- ===== src/Examples.antt =====
-- Instances of the theorems at concrete inputs, and tests.
mod EgressCases
mod NetworkCases
mod StoreCases
mod GatewayCases
mod AuditCases
mod TableCases
mod InstallCases
mod AuthCases
mod LoginCases
mod ApiCases
