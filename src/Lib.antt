-- ===== src/Lib.antt =====
-- Petastorm: a library that reads Parquet datasets for machine learning. Row groups are handed out to
-- a pool of workers by a ventilator, the workers decode them, a queue cuts the tables that come back
-- into batches, and the data loaders pass the rows through a shuffling buffer to the training loop.
-- This library models those parts that keep state of their own.
--
-- ShufflingBuffer: petastorm/reader_impl/shuffling_buffer.py. `NoopShufflingBuffer` (Noop) and
-- `RandomShufflingBuffer` (Random); `ShufflingBufferBase` and the laws that a loader relies on
-- are in Interface, and Instances shows that both buffers meet them. `numpy.random.randint` is the
-- parameter `Randint` (Source): it gives an index of its range and raises on an empty one.
-- TableQueue: petastorm/pyarrow_helpers/batching_table_queue.py. A record batch is the list of its
-- rows; the loop of `get` runs on the fuel of the batches in the buffer, which is enough since each
-- round consumes a whole batch or completes the result. `pa.Table.from_batches` raises on an empty list,
-- which `get` meets for a batch size of 0 only.
-- Ventilator: petastorm/workers_pool/ventilator.py. The ventilation thread is a state machine: a
-- step is the head of its loop (`check`) or the body (`emit`), and Steps interleaves them with
-- the calls of the consumer (`processed_item`, `stop`). That two of those calls overlap inside one
-- statement is not modelled. A permutation of numpy is a parameter.
-- ThreadPool: petastorm/workers_pool/thread_pool.py. Steps has the threads and the consumer of the pool
-- as a step relation; an iteration of `get_results` is cut into phases where another thread may come
-- between. The ventilator is the list of the items that it still hands out, and what `process` makes of
-- an item, its results and the exception, is a parameter. Left, Frames, Contents, Consumer and Track
-- follow the messages of each worker, and Robin, RoundRobin and Determinism their common order.
-- DataLoader: petastorm/pytorch.py, `LoaderBase` and `DataLoader`, over either shuffling buffer. The
-- reader is the list of the samples that it yields, `collate_fn` and `_sanitize_pytorch_types` are
-- parameters, and a generator that is run to its end is the list of what it yields. The loop of
-- `_yield_batches` runs on one more than the number of rows in the buffer; `diverged` stands for
-- a loop without an end.
-- BatchedBuffer: petastorm/reader_impl/pytorch_shuffling_buffer.py. A tensor is the list of its rows
-- (Tensors), and the items of a buffer are the columns of some rows (Columns). Noop and Random are
-- the two buffers, Interface and Instances what the batched loader needs of them. `torch.randperm`
-- is the parameter `Randperm`, with its contract that it permutes the numbers below its argument; the
-- loop that doubles the capacity runs on the fuel of the rows that are asked for, which is enough as
-- long as the capacity is not 0.
-- BatchedLoader: petastorm/pytorch.py, `BatchedDataLoader` over either batched buffer, with one more
-- round of `_yield_batches` than there are rows as the fuel.
-- InMemLoader: petastorm/pytorch.py, `_load_rows_into_mem` (Filling, Loading) and
-- `InMemBatchedDataLoader` (Epochs). That the reader is stopped after loading is left out.
-- RowGroupWorker: petastorm/py_dict_reader_worker.py and `decode_row` of petastorm/utils.py. The row
-- drop partitions are in RowDrop, the queue reader in Results, the rows as dictionaries in Rows, and
-- loading in Loading and Pushdown. Reading the columns (pyarrow), the order that pandas draws in each
-- call of `_read_with_shuffle_row_drop` (with a seed the same one), the
-- floating point quotient of a row's partition, the decoding of a single value and the local cache
-- are parameters; of the quotient it is used that it never gets smaller along the rows and stays
-- below the number of partitions.
-- Predicates: petastorm/predicates.py. Membership in a set, the items of a value, the bucket of a value
-- (md5) and the floating point borders of a split are parameters.
-- WeightedSampling: petastorm/weighted_sampling_reader.py; a reader is the list of the rows that it
-- still yields, and numpy's draws and cumulative probabilities are parameters. Streams is about the
-- rows of each reader, Draws about the reader that a draw chooses.
-- NGram: petastorm/ngram.py, `NGram.form_ngram`. The loop is a recursion over the indices of the
-- windows; the time steps are integers (Keys), and a row's timestamp is a natural number.
-- Indexers: petastorm/etl/rowgroup_indexers.py; the dictionary of an index is an association list.
-- Codecs: petastorm/codecs.py. What numpy, OpenCV and Python make of a value is the parameter `Objects`,
-- and Laws says what is relied on: that an array is read as it was saved, that PNG is lossless for the
-- types that it stores, and that a number, a truth value or a text comes back when its type is asked for.
-- Unischema: petastorm/unischema.py and petastorm/transform.py. Writing and RoundTrip follow a row through
-- `dict_to_spark_row` and `decode_row` of petastorm/utils.py, Accepted has the rows that a schema
-- writes; Views has `create_schema_view` and `transform_schema`. Regular expressions and the order in
-- which a set is listed are parameters.
-- Selectors: petastorm/selectors.py; a set of row groups is a list that is asked for its members.
-- Reader: petastorm/reader.py, from the row groups to the work of the ventilator, with `reset` and
-- `__next__`. `random.Random(seed).shuffle` is a parameter, and so are the dataset's metadata.
-- Hdfs: petastorm/hdfs/namenode.py. Resolver is `HdfsNamenodeResolver` from its configuration on;
-- Failover is `HdfsConnector._try_next_namenode`, `HAHdfsClient` and `namenode_failover`, whose loops
-- are bounded by the number of namenodes and by MAX_FAILOVER_ATTEMPTS. The outcomes of connecting
-- and of the call itself are parameters that may change from one attempt to the next.
-- Indexing and Prelude: the indexing of Python lists, exceptions as results, and shared lemmas.
--
-- Sizes are natural numbers, as Python's integers do not overflow. Python's exceptions are the values
-- of `Error`. Not modelled: the Parquet and file system access (pyarrow, fsspec), the
-- process pool's sockets and the Spark and TensorFlow adapters, which mainly call other libraries.
pub mod Prelude
pub mod Indexing
pub mod Tensors
pub mod ShufflingBuffer
pub mod TableQueue
pub mod Ventilator
pub mod ThreadPool
pub mod DataLoader
pub mod BatchedBuffer
pub mod BatchedLoader
pub mod InMemLoader
pub mod RowGroupWorker
pub mod Predicates
pub mod WeightedSampling
pub mod Codecs
pub mod Unischema
pub mod Selectors
pub mod Indexers
pub mod Reader
pub mod NGram
pub mod Hdfs
