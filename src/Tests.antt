-- ===== src/Tests.antt =====
-- The theorems at work on a small shop: two members, an administrator and a short ledger.
mod Shop
mod Keys
mod SignIn
mod Gate
mod Served
mod Letters
mod Pages
mod Files
mod Starts
mod Deployed
mod Attempts
mod Batches
mod Races
mod Access
