-- ===== src/Examples.antt =====
-- Concrete inputs on which the theorems are applied, and runs of the definitions.
mod Budgets
mod Data
mod Rules
mod Requests
mod Calls
mod Names
mod Adapters
mod Commands
mod Approving
mod Buttons
mod Authority
