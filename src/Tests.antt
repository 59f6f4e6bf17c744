-- ===== src/Tests.antt =====
-- Sample data, runs of the model, and the theorems at concrete inputs.
mod Samples
mod OfApplygroup
mod OfImporter
mod OfSelection
mod OfRenderer
mod OfReconciler
mod OfManager
mod OfConcurrent
mod OfTokens
mod OfAdmission
mod OfCli
mod OfMetrics
mod OfCommands
mod OfSpec
