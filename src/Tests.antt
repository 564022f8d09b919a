-- ===== src/Tests.antt =====
-- Concrete inputs, and the properties at them.
mod Budgets
mod Accounts
mod Groups
mod Codes
mod Settings
mod Campaign
mod Summaries
mod Tokens
mod Pushes
mod Bells
mod Pages
