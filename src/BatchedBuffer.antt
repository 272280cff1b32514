-- ===== src/BatchedBuffer.antt =====
-- petastorm/reader_impl/pytorch_shuffling_buffer.py: the shuffling buffers of the batched loader. The
-- items are the columns of some rows, one tensor for each field.
pub mod Columns
pub mod Noop
pub mod Random
pub mod Interface
pub mod Instances
mod Examples
