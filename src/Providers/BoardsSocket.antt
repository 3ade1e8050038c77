-- ===== src/Providers/BoardsSocket.antt =====
-- The wire format of the Kaipanla board service
-- (src/market_data_center/providers/kaipanla_boards_socket.py). A byte is a number below 256. A place
-- in a buffer is the list of the bytes from there on, so that `pos >= len(data)` is the empty list.
pub mod Varint
pub mod Fields
mod RoundTrip
mod Progress
mod Request
mod Tests
