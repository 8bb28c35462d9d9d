-- ===== src/Lib.antt =====
-- The infix search of cpp/ and its service: a trie over the keys of a dictionary, whose nodes
-- hold strings, and the search for every key that contains a query.
--
-- The parts, and the files that model them:
--
-- - Node: the interface `node_t` (cpp/node.hpp). `search_t` sees a node by its virtual methods
--   alone; `Node` is the record of the fields that they read and write, and says what each write
--   does. A pointer is the number of a node in the order of allocation, and `NULL` is `none`.
-- - Node2: the class `node2_t` (cpp/node.hpp, cpp/node.cpp), which `search_t::node_type` selects:
--   the byte buffer `data` and the array `neighbors`. Its children relate it to `Node`
--   (`Node2.Encoding.Represents`): Encoding (getters), Setters, Tails (`set_tail`), Slots
--   (`child_exists`, `get_child`, `set_child`), over Flags (the flag byte).
-- - Node1: the class `node1_t`, which nothing selects. Maps has its map of children, Agrees what
--   it shares with `node2_t`.
-- - Trie: `search_t::add` (cpp/search.cpp), over a store of nodes. `add` is the method,
--   `add_loop` its `while` loop, `match_tail` the inner loop, `choose` the body up to `traverse =
--   child`, `fork_old` and `fork_new` the two forks, `move_children` the loop over the
--   grandchildren. Shape has the words that a trie stores and its invariant; Children, Forks,
--   Leafs, Keeps, Splits, Growth, Grafts and Marks what each step does to both; Matching, Descend
--   and Add the loop; Words what `add` promises, Course where it keeps it, Start the first trie.
-- - Search: the index and the lookup of `search_t` (cpp/search.cpp), over the same store.
--   `index_trie` fills `tpm` from each pair of neighbouring characters; `find_path` follows the
--   positions of the query's first pair by `find_path_util`, whose end is `finish`. Up has
--   `traverse_up`, Down has `traverse_down_util`; Paths, Finds and Rounds follow `find_path_util`
--   from a position of the index, Queries has `find_path`. Pairs, Entries and Index have what
--   `index_trie` puts into `tpm`; Leaves and Built what `add` keeps for the search; Ways,
--   Complete, Places and Exact which stored words a query reaches, and Answered joins the two.
--   Overflow has the array of `traverse_down_util`, Width the number of children. Branches runs the
--   example of README.md, which says that a query behind the point where two keys part finds
--   neither; the code finds the one that contains it, as every tail is in the index.
-- - Rows: the dictionary file (cpp/search.cpp): `read_input` with its map from keys to rows,
--   `extract_row`, `read_query` and `find_in_file`. Lines has the map, Extract the buffer, Input
--   what `read_input` leaves to `find_path`, Keys and Printable the words of its trie where `add`
--   loses none, Prints the rows one after another, Scans `find_in_file`.
-- - Service: the handler of thrift/service-cpp/RemoteInfixSearch_server.cpp: Workers has the list
--   that `registerService` and `deregisterService` keep, Registered who stands in it, Masters has `findMatches` on a master,
--   Slaves and Dictionaries on a slave, Histories what a master answers after any requests. A
--   worker's answer is a parameter, and so is the order in which the pool runs the calls.
--   `find_matches` uses `find_path` and `extract_row` on a slave. Startup has `start_server`,
--   `start_http_server` and `main`, whose numbers `atoi` of Numbers, C's own, reads.
-- - Thrift: thrift/service-cpp/RemoteInfixSearch.cpp and RemoteInfixSearch.h, which Thrift's
--   compiler generated. Structs and the modules of the four methods have the arguments and
--   results, Processor and Client the two ends of a call, Handlers the implementations of the
--   interface. `TProtocol` is an interface, and `IsFaithful` what its documentation says. Remote
--   puts client and processor between a master and its workers, Fleet and System slaves with
--   dictionaries behind them. Tokens is a protocol for the tests.
-- - Driver: `main` (cpp/driver.cpp) and `search_t::run` (cpp/search.cpp). Args has the arguments,
--   Runs and Lookups what is printed for "trie", Linear what is printed for "linear". The files are
--   a parameter.
--
-- Characters are bytes, by their unsigned values; a `string` is a list of them. Runs end with a
-- result, with a fault (an access outside an object), with a call of `exit`, or out of fuel
-- (Base.Run). `add_loop` is given two rounds more than the word has characters: a round that
-- follows a child takes a character at least, and only the last but one makes a fork. The walks
-- up and down the trie are given its height, and 102 is enough where words have less than 100
-- characters; the rounds of `find_path_util` each take a character but the last.
--
-- Not modelled: `get_token` and `set_token` of `node2_t`, which nothing calls; the branch of
-- `add` under `single_char`, which is never set, with the lookup table that only it fills;
-- printing and timing; failing allocations; the threads of the servers that Thrift provides, which
-- share one handler; what Thrift's stubs do besides calls (event handlers, counts of bytes,
-- factories, comparisons); the copy of dawgdic, which the search does not call. The handler in
-- thrift/service-cpp/client.cpp is the same text as the server's; `main` there, which registers a
-- service over a file that Thrift's transport opens, is left out.
pub mod Base
pub mod Node
pub mod Node1
pub mod Node2
pub mod Trie
pub mod Search
pub mod Rows
pub mod Service
pub mod Thrift
pub mod Driver
