-- ===== src/Tests.antt =====
-- Concrete runs of the model, and for each result one input that its conditions hold for.
mod Fixtures
mod Payments
mod Scheduled
mod Sessions
mod Accounts
mod Users
mod Queries
mod Runs
mod Jobs
mod Emails
