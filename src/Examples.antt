-- ===== src/Examples.antt =====
-- The theorems at concrete inputs, and tests of the definitions.
mod Data
mod Histories
mod Pages
mod Links
mod Sweeps
mod Accounts
mod Addresses
mod Logins
mod Requests
mod Reading
mod FeedReading
mod Suggestions
mod Answers
