-- ===== src/Lib.antt =====
-- np2ptp: a content-addressed peer-to-peer file network, and what can be proved of its core.
--
-- The program. A node cuts files into content-defined chunks, names each chunk by its BLAKE3 hash
-- and the list of chunks by the root of a Merkle tree, and writes both into a manifest. Whoever has
-- the root can fetch the manifest and the chunks from peers that are not trusted, check every chunk,
-- and put the files together again. Peers keep a ledger of what they gave each other, carry signed
-- receipts to peers that do not know them, and serve those first that gave most. A gateway brings in
-- content from BitTorrent after it is checked against the torrent's pieces. What a node has is kept
-- in a store: pack files that chunks are appended to, and an index with a line for each of them.
--
-- Which file models which part:
--   Core/Hash        crates/np2ptp-core/src/hash.rs: leaf_hash, node_hash, merkle_root, merkle_proof,
--                    merkle_verify. `levels_from` and `pair_up` are the two loops of build_levels,
--                    `climb` is the loop of merkle_proof and `absorb` that of merkle_verify.
--   Core/Chunk       crates/np2ptp-core/src/chunk.rs: chunk and chunk_with.
--   Core/Manifest    crates/np2ptp-core/src/manifest.rs: the types, verify_chunk and
--                    root_is_consistent; Build from_files, from_bytes and from_spans; Validate
--                    validate; Reconstruct reconstruct, reconstruct_files and split_stream; Container
--                    the .nptp container and the nptp: link.
--   Core/Path        crates/np2ptp-core/src/path.rs: validate_relative_path, the check on paths that
--                    come from peers.
--   Rep/Receipt      crates/np2ptp-rep/src/receipt.rs and PeerId::verify of identity.rs.
--   Rep/Ledger       crates/np2ptp-rep/src/ledger.rs: every operation on the counters, the reputation
--                    and the choice of the peers to serve.
--   Rep/Bag          crates/np2ptp-net/src/receipts.rs: ReceiptBag::insert.
--   Rep/Saved        open and save of ledger.rs and of receipts.rs, as calls that a crash may cut off.
--   Bridge/Pieces    crates/np2ptp-bridge/src/lib.rs and streaming.rs: verify_pieces, and the verifier
--                    that reads files window by window.
--   Bridge/Gateway   crates/np2ptp-bridge/src/lib.rs: convert, publish, resolve, resolve_or_convert;
--                    Local: convert_local and resolve_or_convert_local of streaming.rs.
--   Bridge/Bencode   crates/np2ptp-bridge/src/bencode.rs: the decoder; Torrent parse_torrent_file;
--                    Print a printer, which the program does not have.
--   Store            crates/np2ptp-store/src/lib.rs: `Handle` is the struct Store with its PackState,
--                    `Disk` its directory, and a `World` is both; has, put, get, add_reference and
--                    the two refreshes. `store_new` is the end of put. Text the lines of
--                    packs/index and refs.tsv; Open Store::open and the recovery of a torn line;
--                    Tree ingest, ingest_tree, ingest_tree_files, export, export_tree, export_to and
--                    export_tree_to_dir. Sound is the invariant of a store that nobody has damaged.
--   Node             crates/np2ptp-node/src/lib.rs: download, over a source with a state of its own;
--                    ReadTree read_dir_tree and read_dir_paths, whose two walks differ only in what
--                    they keep of a file; Output sanitize_output_name and write_tree; ServeSet
--                    serve_set.rs. A `Listing` is what the iterator of read_dir hands back, errors
--                    included.
--   Fec              crates/np2ptp-fec/src/lib.rs: encode and decode over the codec's interface.
--   Net              crates/np2ptp-net/src/lib.rs: the messages and the fields of EventLoop; Serve serve
--                    with what it calls, Credit handle_receipts_response, Swarm on_kad and the calls
--                    of libp2p, Loop on_command, on_rr, on_event and run; Client the requests of
--                    Network, Fountain download_fec, Multi download_multi. Served, Choke, Credited,
--                    Replies, Conserved, Gathered, Completed, Live, Delivered, Rounds, Recovered and
--                    Refused hold the proofs about these.
-- Prelude holds what these share: lists over the native numbers, results, byte strings, UTF-8, decimal
-- text, maps, the order on strings, a stable sort, and `Run`, a program with a state that may fail.
--
-- How code becomes definitions. A byte string is a list of numbers, a struct a record, an enum a data
-- type, a `Result` is `Result`. `reconstruct` calls a closure of the caller's: the closure is a
-- function with a state of its own, so that it may answer one question in two ways. The gateway calls
-- the network, the store and a torrent source: interfaces over one state that each call may change. A
-- `HashMap` is a list of entries with different keys. Sums that the source checks or saturates are
-- checked or saturated; `as u32` and unchecked sums keep their low bits, as compiled for release. Paths are as on Unix.
-- Each call of a store is one step on the world; between two calls other handles may have changed the
-- disk, which statements about every world allow for. `open_store` is Store::open, since `open` is a
-- word of the language, and a text file that is missing is read like an empty one.
--
-- The event loop is a function from an input (a command, an event of the swarm, or the tick that saves
-- the ledger) and a state to a state and the actions put out: calls of libp2p, and answers sent into
-- the channels of those who asked. What libp2p answers at once, such as the id of a query, comes in
-- with the input. For the client side, `request` stands for the way through the loop and the network;
-- it may answer in any way. Of the chunk requests that run at once, the answers are a function of the
-- slot, the attempt and the hash, and `arrange` gives the order in which they arrive.
--
-- Third-party code is a parameter or an interface: BLAKE3 (`blake3`, of which at most the length of a
-- digest is assumed), SHA-1 (`sha1`, nothing is assumed), FastCDC (`Cdc`: its cuts lie end to end and
-- are neither empty nor too long; StreamCDC is another instance of it), bincode and hex (what is
-- written is read back, and hex is plain ASCII without tabs and newlines), Ed25519 (`Ed25519`: honest
-- signatures verify), RaptorQ (`Raptorq`: at the symbol size of 1,200 bytes, which the program uses, and for
-- content of one byte up to what the codec takes, the encoder's packets have one symbol each and number
-- a block that is there, and the decoder rebuilds the content from all of them; panics of the codec
-- are not modelled), buffer_unordered of futures
-- (`arrange`: each result comes once). Where a statement would need that BLAKE3 has no collisions, it
-- says instead that it holds or that two inputs with one digest are exhibited.
--
-- Loops. `levels_from` has one round for each leaf, and each round at least halves the level. The
-- rounds of `feed` take a byte or more each, so one for each byte is enough. `chunks_from` likewise,
-- and the loops of the bencode decoder. The decoder's own recursion is on the levels of nesting that
-- are left, which are 33 at depth 0.
-- The loop of download_fec has `enough_rounds`: one round for each symbol that is needed, and sixteen
-- attempts with the rounds between them, since each round that goes on has a symbol or more.
-- The other loops are recursions on the list that they run over.
--
-- Not modelled: how crates/np2ptp-net builds and configures the libp2p swarm, and the methods of
-- Network that only send one command and wait; the node's command line, its daemon and tracker client,
-- which parse requests, print, and start tasks that call what is modelled; the simulator, which runs
-- experiments in floating-point arithmetic; progress callbacks, the locks of the store, failures of
-- the disk other than those of directories and of files that are missing, short or not UTF-8, and the
-- file in which the identity is kept.
pub mod Prelude
pub mod Core
pub mod Rep
pub mod Fec
pub mod Store
pub mod Bridge
pub mod Node
pub mod Net
