-- ===== src/Tests.antt =====
-- Runs of the model on concrete inputs, and the theorems at inputs that meet their hypotheses.
mod ListDriver
mod Samples
mod Access
mod Admin
mod Launch
mod Csrf
mod Grants
mod SignIn
mod Callback
mod Context
