-- ===== src/Domain.antt =====
-- The domain: its records and its pure calculations (src/market_data_center/domain).
pub mod Records
pub mod Calendar
pub mod Operations
pub mod Ingestion
pub mod Series
pub mod Validation
