-- ===== src/Examples.antt =====
-- Runs of the definitions on small inputs, and the theorems applied to such inputs.
mod Money
mod Pricing
mod Usage
mod Router
mod Execute
mod Admission
mod Billing
mod Gate
mod Keywords
mod Ingress
mod Pacing
mod Policy
mod Evaluation
mod ClientAddress
mod Registry
mod ModerationInput
mod Moderate
mod CachedRoute
