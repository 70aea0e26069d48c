-- ===== src/Lib.antt =====
-- Verification of flower-exchange, an order-matching exchange for five instruments.
--
-- The program reads orders from a CSV file, validates them, matches them by price-time priority
-- and writes execution reports. Reader, matcher and writer are threads that two queues connect;
-- the matcher owns a pool of orders, two books for each instrument and the matching engine.
--
--   Base        native numbers, lists, Option and ℤ as the other files use them.
--   Bits        64-bit words: bit tests, complement, and the counts of leading and trailing zeros
--               that the compiler's builtins give, with their laws.
--   Types       src/common/types.h, src/common/runtime_config.h: enums, Order, ExecutionReport.
--   Types/Int, Types/Names, Types/Format  src/common/types.cpp: string_view_to_int, the names of
--               instruments and statuses with parse_instrument, and format_ticks_to_buffer (Format/Shows).
--   Doubles     floating point as a parameter, with the prices of src/common/types.cpp: double_to_ticks,
--               ticks_to_double and format_price_to_buffer (Ticks), string_view_to_double (Parse),
--               and what is asked of IEEE arithmetic, and of llround on numbers that `long long` holds
--               (Range).
--   Validator   src/common/validator.h: validate_order. Laws is about the orders that it
--               accepts, Refusals about the others.
--   Messages    src/app/pipeline_types.h: the messages between the threads.
--   Csv         src/io/csv_reader.cpp: a row with its fields, and the loop over the rows (Range). Split
--               and Join relate the fields to the text of the line. Places are `int`s, as in the source: they
--               wrap in a line of 2 ^ 31 bytes or more, whose fields are not spoken of.
--   Processor   src/matching/order_processor.cpp: the texts of an outbound report, and in Consume the
--               processor with the body of the loop of consume. Reference tells the order and the
--               messages of a row field by field, Told compares the code's with them, Writable is
--               about their lengths; Handles and Run are what a message does to the markets, Start
--               is construction and reset.
--   Producer    src/io/csv_order_producer.cpp: produce, from rows to messages.
--   Writer      src/io/csv_report_writer.cpp: append_csv_row and drain, from messages to the file.
--   MemPool     src/common/mempool.h: chunks, free list and indices. Free and Allocate relate it to the
--               set of live addresses, Index is the binary search, Back its inverse.
--   Pipeline    src/app/file_processing_pipeline.cpp: process_file, three threads that two queues
--               connect, as a step relation. Flow is the invariant of the interleavings, Exit the
--               output in the end, Halts and Progress the way there.
--   Application  src/app/application.cpp: the command loop of run. Words tells what a line asks
--               for by its words, Runs what the loop does.
--   OrderBook   src/matching/order_book.h: the strategy interface (OrderBook/Interface) and the
--               abstract view, a queue of orders for each price tick (OrderBook/Levels, Queues).
--               OrderBook/Heap is the pool of live orders as a partial map from addresses.
--   OrderBook/Bitmask  src/matching/bitmask_order_book.cpp: the dense book with its bit mask;
--               one function for each member function, and the contract (Bitmask/Strategy).
--   OrderBook/Map  src/matching/map_order_book.cpp: the sparse book, a std::map as the list of its
--               entries in ascending order; the same contract (Map/Strategy).
--   Matching    src/matching/matching_engine.h: process_order over any book strategy. Reference is
--               the abstract market, a list in price-time priority; Round is one trade, Loop the
--               loop, Arrival the whole call.
--   Tests       concrete runs, and the theorems at concrete inputs.
--
-- State is passed explicitly: a call takes a book (or the engine) and the heap, and returns them
-- in an Option whose `none` is a fault: an index out of range, a read through a null or stale
-- pointer, or an exception of the pool. An `Order *` is an `Option Ptr`. A `uint16_t` quantity
-- wraps modulo 2 ^ 16. `int64_t` ticks that may be -1 are in ℤ.
--
-- The loop of process_order runs on fuel `suc quantity`: every round that goes on trades at
-- least one unit, so the fuel is enough.
--
-- A step of the pipeline is a call on a queue that succeeds, with what its thread does next. A queue
-- is the list of its messages with a capacity, which is a parameter: boost::lockfree::spsc_queue takes
-- a push if and only if there is room, and gives what was pushed in order. Where produce throws,
-- producer_done is never set: the exception ends the process. That the pool's address
-- holds no live order is a condition of the step that takes a message. The theorems on a whole run are
-- about a processor that is new, since reset keeps the orders of earlier files in the pool.
--
-- Not modelled: src/app/processing_reporter.cpp (printed statistics), src/main.cpp,
-- CsvReportWriter::prepare (directories and files), src/common/timestamp_cache.cpp (its snapshot is a
-- text of each turn), src/common/thread_utils.h, the measured times and the statistics. The system
-- clock is a parameter, as a text for each report. The books and the engine do not use MemPool as it
-- is modelled here, but the partial map of live orders that OrderBook/Heap is.
pub mod Base
pub mod Types
pub mod Doubles
pub mod Messages
pub mod Validator
pub mod Csv
pub mod Processor
pub mod Writer
pub mod Producer
pub mod MemPool
pub mod Pipeline
pub mod Application
pub mod Bits
pub mod OrderBook
pub mod Matching
mod Tests
