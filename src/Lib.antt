-- ===== src/Lib.antt =====
-- A verification library for weverywhere, a fabric of nodes that send WASM programs to one another,
-- run them, exchange signed messages and discover each other. It models the program's own logic, from
-- the Rust files under src/ of the repository, and proves what makes it correct.
--
-- The parts and the files that model them:
-- - MessageStore.antt: `MessageStore` of src/executor/mod.rs, a bounded log with a bounded memory of
--   (sender, id) keys. The set and the queues are lists, the oldest first.
-- - Discovery.antt: src/discovery.rs, the depth budget of forwarded requests, and the attestation that
--   a node signs over its hostname, key and time.
-- - Config.antt and its modules: src/config.rs. Peer is one configured peer with its TOML form,
--   Identity the identity signed with its own key and the signing of payloads, Merge the loading of
--   the main file and of the files that it includes.
-- - Messages.antt: src/messages/mod.rs, the messages of the wire.
-- - Executor.antt and its modules: src/executor/mod.rs. Program is the data of a program and its
--   builder, Store the data behind its imports, Memory the access to its linear memory, Host and
--   HostMessages the imports `host::...`, State the executor's registries and the admission of
--   programs, Start `Executor::new` and its start-up task, Running the life of a program as steps that
--   interleave. Stdio is the output forwarder of src/executor/wasi_adapters.rs.
-- - Serve.antt and its modules: src/command/serve.rs, the handling of one datagram, and in Forward the
--   onward forwarding of a discovery request and the relaying of its replies.
-- - Serve/Registries.antt and Serve/Trust.antt: a node from its start through datagrams, and what of
--   it they can change.
-- - Serve/Group.antt: the set-up of a listener: binding and joining of a multicast group. Listen is
--   `serve` with the loop of a listener, and Ends is about what ends it; Hops is how far a
--   discovery request travels.
-- - Netmap.antt and its modules: src/command/netmap.rs. Discover is the sending of the requests,
--   Netmap itself the reading of the collected records and the tree of nodes that is printed, Keys the
--   list of public keys below it.
-- - Run.antt and its modules: src/command/run.rs. Fabric is the broadcast over interfaces, groups and
--   peers, Polls the loop that reads the replies of a daemon, Client the commands that send a program.
-- - NetUtils.antt: src/net_utils.rs, the address of a peer, and the own address that faces it.
-- - Args.antt and its modules: src/args.rs, src/command/mod.rs and the choice of the log in
--   src/main.rs. Groups is the list of multicast addresses as text, Command the dispatch, Main the
--   start of src/main.rs with its offer to make a key, Paths the default paths.
-- - Launch.antt: src/command/run_local.rs, src/command/chat.rs and src/embedded_programs.rs.
-- - Configuration.antt: src/command/configuration.rs and src/command/extract_programs.rs, over a map
--   of files. Install.antt: src/command/install_to.rs, over the same map. Info.antt:
--   src/command/info.rs, what is printed of a module.
-- - Build.antt and its modules: build.rs. Civil is the date of a day, Eras and Gregorian its calendar,
--   Version the version of a build, Embedding the programs that are compiled into it.
-- - Daemon.antt: src/command/daemon.rs, the steps of each action on each platform and the files they
--   write. Firewall.antt: src/firewall.rs, the commands that open a port.
-- - KeyFiles.antt: the readers of keys in src/crypto_utils.rs and the OpenSSH text of a public key.
-- - UniversalSerde.antt: src/universal_serde.rs, the three formats in the order they are tried.
-- - Tty.antt and its modules: src/tty.rs. Tty is the event record and its encoding, Input the mapping
--   of the terminal's events, Handle the channel of events and the queue of drawing commands, Session
--   the attaching of the terminal and its guard, Reader its reader thread.
--   Executor/HostTty.antt is the imports `host::tty_...` over them.
-- - Prelude.antt: lists over the native numbers, texts and UTF-8, addresses and their text forms.
-- - Foreign.antt: what the program takes from other crates, as records of operations with the
--   documented laws that the code relies on: signatures and hashes (Crypto), CBOR (Cbor), the codec of
--   messages (`Bare`, in Messages.antt), the formats of a file and of a key; and
--   small concrete instances of them for the tests.
--
-- How they interact: a datagram is decoded and handled by Serve, which checks identities with Config,
-- notes peers and admits programs through Executor, and pushes signed messages into MessageStore. A
-- running program reaches its node through the imports of Executor, which read and write its memory,
-- the store and the queue of outgoing messages. Discovery bounds what Serve forwards, and signs what
-- Netmap verifies.
--
-- Conventions: a `Result` or `Option` is an `Option` or a data type of its own; state is passed and
-- returned. Texts are lists of code points and byte strings lists of bytes, both of native numbers. A
-- u64 counter wraps at 2 ^ 64, an `as` cast keeps the low bits. A trap is `none`. Locks that may be
-- poisoned are options. The clock, random bytes, name lookups, the run of a program and the answers of
-- a socket are arguments.
--
-- Loops are structural recursion over their lists. Two run on fuel. The drawing of the tree has one
-- more than the number of nodes: a call goes deeper only after it has printed a node, so that is
-- enough. The loop that reads replies has 24 + 10 * n + 1 for n waits: every turn uses up a check,
-- and a wait adds at most ten checks to the first 24.
--
-- Not modelled: wasmtime itself, with the linking of a program and failures of its engine; sockets
-- themselves, and the calls of crossterm; the argument parser, which is clap; the list of interfaces,
-- which is read from the operating system; clocks, error macros and sizes in floating point; comm.rs,
-- which nothing uses; and the example programs, which are C. Tasks that share an executor are handled
-- one after the other, but for the life of a program (Executor/Running.antt), whose steps interleave.
pub mod Prelude
pub mod MessageStore
pub mod Foreign
pub mod Discovery
pub mod Config
pub mod Messages
pub mod Executor
pub mod Serve
pub mod Netmap
pub mod Tty
pub mod UniversalSerde
pub mod NetUtils
pub mod Run
pub mod Args
pub mod Daemon
pub mod KeyFiles
pub mod Firewall
pub mod Launch
pub mod Configuration
pub mod Build
pub mod Install
pub mod Info
