-- ===== src/BoardIndex.antt =====
-- The facts of a board index and its bias from the average of five closes (src/market_data_center/
-- domain/board_index.py, board_index_bias.py). The numbers of `Decimal`, with the precision of the
-- calculation's context, and their operations are parameters. A date is its ordinal.
pub mod Records
pub mod Bias
pub mod Best
pub mod Validation
pub mod Groups
mod Accounts
pub mod Constituents
mod Findings
pub mod Samples
mod Extremes
mod Tests
