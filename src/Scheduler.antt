-- ===== src/Scheduler.antt =====
-- The fire time that a scheduled job runs for (src/market_data_center/scheduler.py). A local time is the
-- number of its seconds since the start of the day with the ordinal 0; the time zone of the schedules,
-- Asia/Shanghai, has a fixed offset.
pub mod Fire
mod Latest
mod Tests
