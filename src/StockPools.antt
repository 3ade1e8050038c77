-- ===== src/StockPools.antt =====
-- Price limits and stock pools of the main board (src/market_data_center/domain/stock_pool.py,
-- stock_pool_calculator.py): the rules, the records with their guards, and the calculation. A price
-- is an integer of 0.0001, the scale of the stored prices, a ratio is one of 0.01, and a date is its
-- ordinal. `open_price` is the field `open`.
pub mod Rules
pub mod Range
pub mod Digits
pub mod Board
pub mod Calculate
mod Limits
mod Candidate
mod Accounts
mod Completion
pub mod Snapshot
mod Published
mod Tests
