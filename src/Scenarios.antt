-- ===== src/Scenarios.antt =====
-- Concrete inputs: the theorems at data that exercises the code, and evaluations of the model.
mod Shop
mod Ledger
mod Requests
mod Delivering
mod Chain
mod Payments
mod Buying
mod Working
