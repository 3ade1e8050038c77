-- ===== src/Regulation.antt =====
-- The monitoring of the exchanges' regulation conditions (src/market_data_center/domain/regulation.py,
-- regulation_calculator.py): rules, the rules that are active on a day, events, and their count.
pub mod Rules
pub mod Active
pub mod Events
pub mod Count
mod Distinct
mod ActiveRules
mod RuleSpec
mod RuleGuards
mod Tests
