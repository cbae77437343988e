-- ===== src/Lib.antt =====
-- The daemon of runt, runtimed: kernels, their execution queues and comms, the pools of prewarmed
-- environments, the framing of its socket, its blob store and its notebook documents; and the notebook
-- state of the desktop application.
--
-- runtimed is one process that the notebook windows share. A window connects to its socket and speaks
-- frames (Connection). On the pool channel it asks for environments and for the state of rooms
-- (Daemon, over Pool). In a notebook's room the daemon runs one kernel: it queues cells and sends them
-- to the kernel in order (Kernel), and keeps the state of the widgets' comms so that a window that joins
-- later can show them (Comm). Large contents of outputs are stored by their hash (OutputStore, over an
-- interface of the store; BlobStore is the store). A kernel is started by the closest project file
-- (ProjectFile). The room keeps the notebook as an automerge document (NotebookDoc), whose metadata
-- (NotebookMetadata) says which kernel to launch with which dependencies, and shows when they drift from
-- those of the kernel that runs (EnvSync). The desktop application keeps the notebook in the form of a
-- file (NotebookState), and exchanges its metadata with the document as a snapshot.
--
-- Files, and the code that each models:
--   Kernel        crates/runtimed/src/kernel_manager.rs: the queue of `RoomKernel` (queue_cell,
--                 process_next, execution_done, clear_queue, interrupt, shutdown), and the command tasks
--                 that crates/runtimed/src/notebook_sync_server.rs spawns for it.
--   Comm          crates/runtimed/src/comm_state.rs: the capture dictionaries; Comm.Channels: the rest.
--   Pool          crates/runtimed/src/daemon.rs: `Pool`; Pool.Warming: the warming loops around it, as steps.
--   Daemon        crates/runtimed/src/daemon.rs: handle_request, find_existing_environments, and the tasks
--                 that broadcast (ends of creations, settings changes), one lock at a time.
--   Connection    crates/runtimed/src/connection.rs.
--   BlobStore     crates/runtimed/src/blob_store.rs.
--   OutputStore   crates/runtimed/src/output_store.rs: references and data bundles, over an interface that
--                 OutputStore.Stored fills with BlobStore.
--   ProjectFile   crates/runtimed/src/project_file.rs and crates/notebook/src/project_file.rs.
--   NotebookDoc   crates/runtimed/src/notebook_doc.rs: cells, outputs and metadata, over Automerge, the
--                 interface of the crate automerge.
--   NotebookMetadata  crates/runtimed/src/notebook_metadata.rs: snapshots of metadata.
--   EnvSync       crates/runtimed/src/notebook_sync_server.rs: kernel detection, inline dependencies,
--                 the configuration of a launch and check_and_broadcast_sync_state.
--   NotebookState  crates/notebook/src/notebook_state.rs: NotebookState.Migration, Create and Snapshot
--                 have the rest of its operations.
--   Runtime       crates/runtimed/src/runtime.rs.
--   Settings      crates/runtimed/src/settings_doc.rs: the kinds of environment, lists of packages.
--   Typosquat     crates/notebook/src/typosquat.rs, of the desktop application.
--   Json, Stream  the interfaces of serde_json and of tokio's streams, which the code calls, with an
--                 instance of each that shows that their laws can hold.
--   Prelude       names, tests, lists, equality, dictionaries and texts that the parts share.
-- A part's own file has its state as a record and its operations; the files below it prove, one subject
-- each, and its Tests apply the theorems to concrete inputs.
--
-- Correspondence. A method on `&mut self` or on state behind a lock takes the state and returns it; a
-- lock that the code holds for a whole method makes that method one step; around a broadcast of the
-- pools each lock is a step of a task, and each access of a `put` to the disk is one. The two blocks
-- of `FlushPool`, each on one pool, are one step. So is each method of CommState, though some take
-- several locks: one task handles the messages of comms, and `clear`, which is called before a kernel
-- starts and after one stopped, is not placed within an update. What a method sends, spawns, deletes
-- or broadcasts is appended to a list of effects in the order of the code. A failure that the outside
-- decides (a send on a socket, a connection, an access to the disk) is an argument. A dictionary is a
-- list of entries with the laws of `HashMap`; nothing depends on its order, except where a theorem
-- says so. Numbers are unbounded but where the code could wrap: `u32` failure counts and frame
-- lengths, the `u64` counter of comms and `usize` counts wrap at their width, and a theorem that needs
-- them not to says so. Times are in nanoseconds, and `elapsed` stops at 0.
--
-- Fuel and bounds. Every function is structural. The accesses of a `put` are a machine in which each
-- stage leads to a later one of the twelve; a receiver's loop is bounded by the number of frames and the
-- end.
--
-- Not modelled: the kernel processes and their ZeroMQ protocol, uv and rattler, logging, file watching
-- and the service installation, which are input and output only; the files and the sync messages of the
-- notebook document; the rooms and requests of the sync server; the settings document; the rendering of
-- terminal streams; the manifests of the output store; the rest of the desktop application, the Python
-- bindings and the command line tool. What serde derives is written out where the code handles single
-- keys, and is a parameter elsewhere.
pub mod Prelude
pub mod Kernel
pub mod Json
pub mod Comm
pub mod Pool
pub mod Daemon
pub mod Stream
pub mod Connection
pub mod BlobStore
pub mod ProjectFile
pub mod OutputStore
pub mod Typosquat
pub mod NotebookState
pub mod Runtime
pub mod NotebookMetadata
pub mod EnvSync
pub mod Settings
pub mod Automerge
pub mod NotebookDoc
