-- ===== src/Lib.antt =====
-- amigos: a search engine over video subtitles. The indexer (projects/indexer) reads documents,
-- cuts their zones into words and writes an inverted index, a document storage and a posting
-- storage; the searcher (projects/searcher) reads them, intersects the entries of the words of a
-- query, ranks the documents (projects/ranker) and picks the lines of the subtitles that fit; the
-- listener (projects/listener) answers the requests of clients.
--
-- Indexer models projects/indexer/src/indexer.cpp from a document's elements to the index in memory:
-- Zones `stou` and `extractZones`, Words the loops over the words and over their entries, Flush the
-- state with `_hasSpace`, `_findFirstEmptyFile` and `_flushToDisk`, Items `_parseRawData`. Xml and
-- Config model projects/indexer/include/tinyxml2_ext.hpp and the configuration of
-- projects/indexer/src/index_struct.cpp, over elements that are a parameter. IndexIo models
-- projects/indexer/include/index_io.hpp, Entry the records of include/indexer/index_struct.h,
-- Intersect the intersection in index_struct.cpp, DocStore and Posting the two storages, with their
-- halves in index_struct.cpp and in indexer.cpp. InvIndex models the index files of `_flushToDisk`
-- and `_mergeIndexes`, `configure`, `getEntries` and `findTknIdx`, with the logarithm and the hash as
-- parameters; DocDb the documents' texts in their key-value store; Common the normalizer and the
-- bigramer (projects/common/src), with the C library, the tokenizer and the stemmer as parameters;
-- Ranker projects/ranker/src/ranker.cpp, with the floats and the doubles as parameters; Searcher
-- `search`, the selections and the snippets of projects/searcher/src/searcher.cpp, the class
-- `InvertIndex` of index_struct.cpp and the terminal projects/indexer/src/test_index.cpp, with
-- `std::sort` as a parameter; Launcher the class of projects/launcher/src/launcher.cpp and its
-- terminal projects/launcher/src/main.cpp; Listener the requests, the answers and the server of
-- projects/listener/main.cpp, with the launcher as a record of calls that may fail, which
-- Listener/Server/Program fills with those of Launcher. Merge models the reading of
-- several index files side by side in `_mergeIndexes`, and Indexer/Cook the rest of that function with
-- `cook`. Run is what a call that may throw ends
-- with, Base holds what the modules share, Tests the concrete runs.
--
-- A file is the list of its bytes, a word is stored with its lowest byte first, and a number of the
-- source is a natural number whose wrap-around is written out. Failures are values: `none`,
-- `undefined` or a fault is behaviour that C++ leaves undefined, or a stream that ends too early;
-- exceptions and failed assertions are constructors. Loops take fuel where they are not structural;
-- each theorem about such a loop says what it returns, so that the fuel given is enough. Vectors and
-- files are taken to be shorter than 2 ^ 64 bytes. Streams read numbers as in the C locale. An
-- `unordered_map` is listed in the order of its insertions; what is done with its elements goes by an
-- order that is a parameter, but for the lines of `words_frequency.draw`.
--
-- Not modelled: leveldb, tinyxml2, MurmurHash2 and the Porter stemmer, which are other projects'
-- code; the spider, a crawler in Python; what is printed to trace the work; the program of
-- projects/query_parser, which prints what Common models for fixed texts. The sockets are the buffers
-- that they deliver, the key-value store and the reading of decimal fractions are parameters.
-- `_mergeIndexes` moves `end()` of a list forward, which C++ leaves undefined: a parameter of Merge
-- says whether this leads to the first element, as it does in a list that is a ring with its end.
-- `str2wstr` and `wstr2str` write their ending zero behind a local array where the text fills it: a
-- field of Common's Library says whether this does no harm; a conversion that fails is undefined.
-- `starts_with` to `find` of Listener, `getline` of DocDb, `max_element` of Searcher,
-- `title_bound` of Ranker and `lower_bound` of InvIndex are calls of the standard library, by its documentation.
pub mod Base
pub mod Common
pub mod Config
pub mod DocDb
pub mod DocStore
pub mod Entry
pub mod IndexIo
pub mod Indexer
pub mod Intersect
pub mod InvIndex
pub mod Launcher
pub mod Listener
pub mod Merge
pub mod Posting
pub mod Ranker
pub mod Run
pub mod Searcher
pub mod Tests
pub mod Xml
