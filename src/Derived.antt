-- ===== src/Derived.antt =====
-- Values derived from the stored facts (src/market_data_center/calculators.py, domain/derived.py).
pub mod Latest
pub mod MarketCaps
mod InForce
mod Refinement
mod Tests
