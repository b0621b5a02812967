-- ===== src/Tests.antt =====
-- Runs of the code on small data, and the theorems at concrete inputs.
mod Data
mod Agents
mod Queue
mod Catalog
mod Evidence
mod Api
mod Enrollment
mod Release
mod Graph
mod Cases
mod Hunts
mod Ingest
mod Telemetry
mod Workspaces
mod Providers
mod Postgres
