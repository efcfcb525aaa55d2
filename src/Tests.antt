-- ===== src/Tests.antt =====
-- Concrete inputs for the theorems of the library: each example applies one theorem.
mod Fixtures
mod PortExamples
mod NetworkExamples
mod CryptoExamples
mod BillingExamples
mod DatabaseExamples
mod WaitExamples
mod SubdomainExamples
mod AccountExamples
mod BundleExamples
mod AdminExamples
mod ServerExamples
