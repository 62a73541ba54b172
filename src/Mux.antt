-- ===== src/Mux.antt =====
-- The multiplexed connection of target_core/src/transport/mux.rs: frames on the wire, the
-- scheduler of the writer, the reader, virtual streams and the pool.
pub mod Frame
pub mod Writer
pub mod Stream
pub mod Pool
