-- ===== src/Lib.antt =====
-- The core logic of the market data center for A-share data (src/market_data_center), a module for
-- each part of it. Python's exceptions are results, its mutable objects are states that an operation
-- takes and gives back, and what the code calls outside the repository is a parameter. A date is its
-- day number, and natural numbers stand for the integers that the code bounds from below by 0, but for the
-- counts that the constructors of a round and of a session of the series are given.
--
-- - Domain.Records, Domain.Calendar: the records of the market's trading days, and their links to
--   the previous and the next trading day (domain/records.py, domain/entities.py,
--   domain/calendar.py). The comprehensions and loops are recursions over the sorted records.
-- - Domain.Ingestion: ingestion runs, manifests of raw files and quality results with the guards of
--   their constructors (domain/ingestion.py).
-- - Domain.Validation: the findings on daily bars (domain/validation.py).
-- - Domain.Operations, Operations: the records of workflow runs and jobs (domain/operations.py), and
--   the service that keeps them (operations_service.py). Operations.Statistics reads the counts of
--   the summaries that the other services return. The database and the clock are a world that the
--   operations of the service act on.
-- - Domain.Series, Writer: the slots, sessions and rounds of the opening call auction
--   (domain/call_auction_market_series.py), and the writer of the captured rounds
--   (call_auction_market_series_writer.py). Its two threads are a step relation: the sampling thread
--   submits and closes, the writing thread takes the oldest item of the queue.
-- - NewHighs: the closing highs of 120 sessions (close_price_new_highs_calculator.py,
--   domain/close_price_new_highs.py).
-- - Providers.Router: `ProviderRouter` (providers/router.py), its sessions, failover and circuit
--   breaker. `_providers` and `_consecutive_failures` are association lists in the order of their
--   keys. `route` takes the candidates of its dataset.
-- - Providers.PytdxPool: the shared pool of PYTDX endpoints (providers/pytdx_pool.py), with the
--   validation of its document, its probes, and the refresh of its file. Whether the file opens and
--   whether a write goes through are parameters.
-- - Providers.BoardsSocket: the numbers, fields and requests of the Kaipanla board service
--   (providers/kaipanla_boards_socket.py). A place in a buffer is the list of the bytes behind it.
-- - StockPools: the price limits of the main board and the stock pools of a day
--   (stock_pool_calculator.py, domain/stock_pool.py), and the snapshots that they are published as
--   (stock_pool_service.py). A price is an integer of 0.0001. StockPools.Digits has the digits that
--   `str.isdigit` and `int` tell apart.
-- - Derived: market capitalisations (calculators.py, domain/derived.py). The index into the sorted
--   share capital is the list of the records from there on.
-- - Regulation: the rules and events of the regulation monitor, the rules that are active on a day, and
--   the events that the count of a window takes (domain/regulation.py, regulation_calculator.py).
-- - Scheduler: the fire time that a job runs for (scheduler.py). A local time is the number of its
--   seconds, and the day 0 is the one before the ordinal 1 of Python.
-- - BoardIndex: the bias of a board index from its average of five closes (board_index_bias.py), the
--   records with their guards, and the validations of daily bars and of constituents
--   (domain/board_index.py). The numbers of `Decimal` are a parameter.
-- - Prelude: what the parts share, tests, lists, dictionaries with text keys, sorting, and text as
--   code points.
--
-- Two loops run on fuel: that of `_varint` on the number itself, which each round divides by 128, and
-- that of `_fields` on the length of its buffer, of which each round takes a byte or more. The loop back
-- to a weekday runs down the day. Every other loop runs over a list.
--
-- Not modelled: SQL (persistence), HTTP endpoints (public_api), the network adapters of the
-- providers, the command line and the scripts, which are input and output around the logic here; the
-- rest of the scheduler, which sets APScheduler up; and what stands on quotients of `Decimal`: adjusted
-- prices, the deviations of the regulation monitor and the dragon tiger features.
pub mod Prelude
pub mod Domain
pub mod Operations
pub mod Writer
pub mod NewHighs
pub mod Providers
pub mod StockPools
pub mod Derived
pub mod Regulation
pub mod Scheduler
pub mod BoardIndex
