-- ===== src/Providers.antt =====
-- Access to the market-data providers (market_data_center/providers).
pub mod Router
pub mod PytdxPool
pub mod BoardsSocket
