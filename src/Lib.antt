-- ===== src/Lib.antt =====
-- VideoMatch finds videos that look alike. A client turns a video into a list of 64-bit frame
-- hashes; a server keeps the lists of all known videos, and answers which of them resemble a given
-- one; a second server shows the pictures of stored videos. This library models the core of the
-- first server, the class `VideoDB` of server/VideoDB.cpp and server/VideoDB.hpp and the requests
-- to it, the second server in browse_server/ and the client, from the pixels of a picture to the
-- request, and proves what their operations do.
--
-- The parts and their files:
--   * Base: shared names, lists over native numbers, byte strings (`std::string`) and `int`.
--   * BitCount: `make_bit1_table`, `bit1count`, `diff_bits` and `min_diff_bits`. Laws, Xor and
--     Nearest hold the proofs.
--   * VideoDb: the class `DataItem`, the fields `db_` and `table_`, and `key_shorten`. Pointers to
--     items are positions in a heap whose cells are `none` once freed. VideoDb/Sets are the
--     `unordered_set`s. VideoDb/Index has `add_frames_to_index`, `Add`, `Query` by name, `Remove`,
--     `Count`, `FramesCount` and `FrameTableSize`; VideoDb/Candidates has `get_candidates1`.
--     VideoDb/Valid states the invariant of heap, map and index and the abstract view, a map from
--     names to frames. Walks, Blocks, Adding, Refinement, References and Matching hold the proofs.
--   * Score: `check_candidate`, its marks in Score.antt and the floating point interface in
--     Score/Floats. MarkBounds, Range, SelfMarks and SelfScore hold the proofs.
--   * Query: `Query` by frames, which calls `get_candidates1`, scores each candidate with
--     `check_candidate`, drops its reference and sorts. Ranking, Loop, Matches
--     and Own hold the proofs.
--   * DbFile: the byte format of the database file. Save has `Save` with its block buffer, whose
--     result names the blocks given to `write`; Load has `Load` with its reading cursor. Bytes,
--     Written, Saving, Reading, Loading, Restored and RoundTrip hold the proofs on a file that was
--     saved, Fresh, Indexing and Ready those on any file.
--   * Requests: server/RequestProcessor.cpp, `Process`, `SaveDB`, `Info` and `Query`, which turn
--     the requests of the HTTP server into calls of the database. Requests/Library is the interface
--     of the JSON library, Requests/Content and Requests/SelfQuery hold the proofs.
--   * Handler: `my_handler` of server/main.cpp, which sends an HTTP request to the functions of
--     Requests, or back to be run in the thread pool; Handler/Startup has `main`, Handler/Default
--     the default handler of server/http_server.hpp. Routing and Restart hold the proofs.
--   * Log: server/Log.cpp and the macros of server/Log.hpp; Log/Clock has `LogTime` and
--     server/TimeCounter.hpp. Naming and Printing hold the proofs.
--   * CommandLine: the loops of the three `main` functions over their options.
--   * Text: the functions of the C library on texts, `strcasecmp`, `atoi`, `%s` and `%d`, and
--     `find`.
--   * Cache: the class `VideoManager` of browse_server/main.cpp, which keeps unpacked videos. Cache
--     has the items in a heap, the links between them and `check_cache_overflow`, `load`,
--     `LookupSize` and `Lookup`; Cache/Files the loop over the unpacked files and Cache/Paths
--     `LoadPath`. Cache/Lru is the abstract cache, a list of videos. Chain, Listed, Writes, Names,
--     Sizes, Holds, Trimming, Pushing, Moves, ToFront, Fetching, Refinement and Serving hold the
--     proofs.
--   * Connection: the class `HttpConnection` of browse_server/http_server.hpp and http_server.cpp.
--     Connection/Parsing has `try_parse_request`, Connection/Responding has `handle_read`,
--     `process_request`, `begin_response` and `handle_write`. Chunks, Fields and Responses
--     hold the proofs.
--   * Pages: `my_handler` of browse_server/main.cpp, which calls the cache for a connection.
--     Pages/Startup has `main`. Pages/Serving and Pages/Links hold the proofs.
--   * ThreadPool: `push_to_threadpool` and `thread_proc` of browse_server/http_server.cpp, as steps
--     on the queues. Shortest and Counting hold the proofs.
--   * HttpServer: the class `HttpServer` of browse_server/http_server.cpp as a whole, which accepts
--     connections and calls Connection and ThreadPool for what boost::asio reports; its events are
--     the completions of the calls that were made and the moves of the threads, in any order.
--     Clients, Sound, Callbacks, Serving and Reached hold the proofs.
--   * Client: client/Requester.cpp, which writes the requests, and the loop of client/main.cpp over
--     the pictures of a video; Client/Main has `main`. Client/Laws states what is relied on of the
--     JSON library. Frames, Sent, Running and EndToEnd hold the proofs.
--   * Picture: client/ImageProcessor.cpp, the hash of a picture: `ph_dct_matrix`, `crop_border`,
--     `mirror` and `GetHashCode`. Picture/Floats and Picture/Library are the interfaces of floating
--     point and of the library CImg. Edges, Crop, Mirror, Dct, Bits and Hash hold the proofs.
--   * Tests: sample data, stand-ins for `double`, `float`, CImg and the JSON library, and the
--     theorems at that data.
--
-- A method is a function on the state that gives the state afterwards and what the method returns.
-- An operation with an `Option` result has `none` where the code would follow a freed or dangling
-- pointer or an iterator at the end, read outside of the mapped file or of a vector, write past a
-- buffer or allocate a negative size, and nowhere else; in `thread_proc` it is a move that the
-- thread cannot make now. The lock that `VideoDB` takes in each method makes a call one step.
-- The sums, sizes and positions of frames that `check_candidate` keeps in `int` are reduced to 32
-- bits, as are what `atoi` gives and the numbers in the links of a page.
--
-- Parameters. The order in which the hash containers are walked is a permutation that nothing else
-- is known of (HashOrder). The type `double` is a record of operations with the laws that the code
-- relies on: exact small whole numbers and rounding that stays between 0 and 1 (Double). The JSON
-- library and the printed form of a score are a record of functions without laws (Json); an
-- exception of it is a reply `none`. What the unpacking command leaves for a path is a function
-- from paths to directories (Unpacked). The handler of a connection is a function (RequestHandler).
-- `float` and `double` of the client are a record of operations (Float), whose laws are an order and
-- the tenth of a whole number; CImg is a record of functions (Images) with the documented laws of its
-- sizes, pixels and median. What `getopt_long` finds is a list of letters with their arguments. The
-- files that can be opened, the listing of a directory and the time are functions or numbers.
--
-- Fuel. `rounds` of Score runs the two loops of `check_range` on the number of frames of the query:
-- round j of either loop needs a frame of the query j places further on or back, so that from
-- positions that fit into an `int` there are never more rounds. `trim` of Cache runs the loop of `check_cache_overflow` on one more than the
-- number of names in the map, of which each round erases one. All other loops run over a list or
-- count down from the number of rounds.
--
-- Not modelled: the calls that name, rename and remove files; the body of the HTTP server behind
-- server/http_server.hpp, which is not in the repository; what boost::asio does between a call and
-- its completion, and libcurl; the test program in client/ImageProcessor.cpp; and the scripts.
pub mod Base
pub mod BitCount
pub mod VideoDb
pub mod Score
pub mod Query
pub mod DbFile
pub mod Requests
pub mod Handler
pub mod Text
pub mod Cache
pub mod Connection
pub mod Pages
pub mod ThreadPool
pub mod HttpServer
pub mod Client
pub mod Log
pub mod CommandLine
pub mod Picture
pub mod Tests
