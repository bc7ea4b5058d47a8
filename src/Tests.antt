-- ===== src/Tests.antt =====
-- Concrete runs of the model, on one small database.
mod Setup
mod Money
mod Requests
mod Catalogue
mod Visitors
mod Logins
mod Admin
mod Charges
