-- ===== src/ShufflingBuffer.antt =====
-- petastorm/reader_impl/shuffling_buffer.py: the two buffers, each in a module of its own.
pub mod Noop
pub mod Random
pub mod Source
pub mod Interface
pub mod Instances
pub mod Samples
mod Examples
