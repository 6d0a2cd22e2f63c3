-- ===== src/Invoices.antt =====
-- apps/api/src/modules/invoices: invoices and their items, with the triggers of the two tables.
pub mod Types
pub mod Triggers
pub mod Issue
pub mod Service
pub mod Ledger
pub mod Balance
pub mod Writes
pub mod Rows
pub mod Stay
