-- ===== src/Lib.antt =====
-- CppProject: a collection of C++ programs, of which the largest is a pair of key-value servers.
--
-- cannon/ is a server over a table that is loaded once. Its parts, from the bottom:
--   cannon/src/cannon/bytes_hash_functions.h    Cannon/BytesHash.antt (city_hash),
--                                               Cannon/BytesHash/Murmur.antt (murmur2_at)
--   cannon/src/cannon/immutable_hash_map.cpp    Cannon/HashMap.antt (load_kvs, seek)
--   cannon/src/cannon/storage.cpp               Cannon/Storage.antt (load, seek)
--   cannon/src/cannon/cannon_server.cpp         Cannon/Server.antt (get)
--   cannon/src/cannon/kv_schema_type.cpp, kv_schema.cpp
--                                               Cannon/Schema.antt (kv_schema)
-- The storage reads the files of a directory into one vector of bytes; the table sorts the entries
-- in that vector by the hash of their keys and builds an index; the handler cuts a request into
-- keys and looks each of them up. `Cannon.Lookup` says what the table promises.
--
-- cannon_proxy/ spreads keys over several stores, each a server with two maps of which one is served
-- while the other is filled. The proxy inserts under the version after the one that it serves, and
-- the parity of a version chooses the map. A store is cannon_proxy/cannon/:
--   cannon_proxy/cannon/src/cannon/storage.cpp        CannonProxy/Store.antt
--                                                     (seek, insert, clear_data)
--   cannon_proxy/cannon/src/cannon/cannon_server.cpp  CannonProxy/StoreServer.antt
--                                                     (get, insert, clear_data)
-- The proxy in front of the stores is cannon_proxy/src/:
--   cannon_proxy/src/proxy_server.cpp           CannonProxy/Service.antt (get),
--                                               CannonProxy/Inserts.antt (_insert),
--                                               CannonProxy/Reload.antt (reload)
--   cannon_proxy/src/cannon_client_wrapper.cpp  CannonProxy/Service.antt (query_keys)
-- The proxy keeps a client for each store; a client calls the handler of its store by thrift, which
-- delivers the call or throws (the parameter `delivered`). `std::hash` is the parameter `hash`. A
-- request has fewer than 2 ^ 31 keys, so that their number fits its `int`.
-- The map of sparsehash is the parameter `KeyMap` of CannonProxy/KeyMap.antt; the tests fill it with
-- a list. Values, which are `double`s, are of any type with a value 0.
--
-- hash_table/ is a table of chained buckets that is filled between beginLoading and endLoading and
-- searched afterwards:
--   hash_table/immutable_hash_table.h           HashTable.antt (new, beginLoading, insert,
--                                               endLoading, find)
--   hash_table/hash_function.h                  HashTable.antt (hash_unsigned, hash_signed)
-- HashTable/Invariant.antt says what a table is, HashTable/Construction.antt is about the
-- constructor, which throws when its array is too large, HashTable/Rehash.antt about rebuilding it,
-- and HashTable/Lifecycle.antt is the use that the header file describes.
--
-- hash_table/internal_storage/immutable_hash_table.h is InternalStorage.antt (construct, find): the
-- entries are sorted by hash in their vector, by a loop like that of the cannon's table. `std::hash`
-- and the equality of keys are the parameters `hash` and `key_eq`.
--
-- cannon_proxy/src/model_files_reader.cpp is CannonProxy/FilesReader.antt (get_lines), which gives a
-- reload its lines. A reload is given a number of rounds; more than the files have lines are enough.
--
-- cannon_proxy/src/thread_pool/ThreadPool.h is CannonProxy/ThreadPool.antt: the steps of the
-- workers, of the threads that hand over tasks and of the destructor, in any order (Step).
--
-- ReversePolishExpression/main.cpp is ReversePolish.antt (set_exp, calculate);
-- ReversePolish/Grammar.antt has the expressions that it reads, as trees.
--
-- StringMultiplication/main.cpp is StringMultiplication.antt (string_multiply).
--
-- mergeSortedLists/main.cpp is MergeSortedLists.antt, on a heap of nodes (merge_sorted_lists). Its
-- loops are given a number of rounds; as many as the lists have nodes are enough.
--
-- SimpleRexMatch/Source.cpp is SimpleRexMatch.antt (construct, is_matched), the automaton of a
-- pattern; SimpleRexMatch/Reference.antt says what a pattern means.
--
-- lr_sgd/Source.cpp is LrSgd.antt and its children: LrSgd/Lines.antt (split, get_training_data),
-- LrSgd/Updates.antt (mini_batch_gradient, apply_cumulative_l1_penalty, calculate_loss) and
-- LrSgd/Train.antt (train). `double` is any type with the operations `Doubles`; `stoi` and `stod` are
-- in `Numerals`; `Random` has the drawn weights and the shuffle. The rounds of batches are as many as
-- there are instances, and one more. An `int` counts the batches of all iterations, of which there
-- are at most as many as instances in each.
--
-- KMP/main.cpp is Kmp.antt (get_next, kmp). The loops are given twice as many rounds as the pattern,
-- or the text, has characters, and one more.
--
-- qsort/main.cpp is Quicksort.antt (qsort). A call is given a depth of calls, of which one more than
-- there are elements is enough. The middle of a range adds two `int`s, whose sum fits for up to
-- 2 ^ 30 elements.
--
-- Prelude.antt has the shared names; Run.antt says what a run is, a value or a fault (undefined
-- behaviour, a loop that does not end, or an exception); Memory.antt has reads and writes of byte
-- vectors; Words.antt has 64-bit arithmetic; Buckets.antt has the theory of sorting by hash in place.
--
-- Conventions. A byte is its bit pattern. A pointer into a vector is an offset. A `size_t` that
-- counts elements of a vector, or is an offset in it, cannot wrap, and is a plain number; where the
-- source computes with words that can wrap, the model does so modulo 2 ^ 64. An `int` that is a
-- place or a length is taken to be in range; where the source adds two places, or counts batches, an
-- `int` that overflows is a fault. Memory is taken to suffice. Fuel bounds the rounds of a `while`
-- loop; running out is the fault `diverges`, and the theorems that a call returns show that the fuel
-- given is enough. Logging and timing are left out. The file system is the parameter `FileSystem`.
--
-- The calls to the stores run one after the other, in the order in which the proxy takes their
-- answers: a query changes nothing, and the insertions of a batch go to different stores.
--
-- Not modelled: queries that run while the proxy reloads; the opening of transports; the code that
-- thrift generates, tests, and the starting of servers, which is I/O.
mod Prelude
mod Run
mod Words
mod Buckets
mod Memory
pub mod Cannon
pub mod CannonProxy
pub mod HashTable
pub mod ReversePolish
pub mod MergeSortedLists
pub mod StringMultiplication
pub mod SimpleRexMatch
pub mod InternalStorage
pub mod LrSgd
pub mod Kmp
pub mod Quicksort
mod Tests
