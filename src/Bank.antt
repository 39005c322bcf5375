-- ===== src/Bank.antt =====
-- The Central Bank (services/central-bank): its in-memory ledger store, and its escrow
-- endpoints.
pub mod Types
pub mod Ledger
mod Requests
