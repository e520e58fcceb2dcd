-- ===== src/Lib.antt =====
-- A model of py-ipfs-lite and the theorems that make its parts correct.
--
-- The program is a small IPFS peer. It stores blocks, builds and walks DAGs of them, pins the roots
-- that it must keep, deletes the rest, and talks to other peers through libp2p. The paths below are
-- those of the repository.
--
-- * Pin (py_ipfs_lite/pin.py): the pin store and its file. A write of the file may fail at each of
--   its steps, so the state is the pins in memory and the files `pins.json` and its temporary one.
--   `add_pin`, `remove_pin`, `get_pins` and `init` carry their names.
-- * Ipld (py_ipfs_lite/peer/ipld.py, py_ipfs_lite/dag_utils.py): values, the codecs' checks and
--   conversions, and `extract_cids`, which finds the links of a value.
-- * Dag (py_ipfs_lite/dag_utils.py): `walk_dag`, the walk from a root along the links. The loop runs
--   on fuel, one unit for each CID that is taken from the queue; Dag/Fuel computes a number of units
--   from the blocks that have links, and shows that the walk ends within it.
-- * Gc (`gc` of py_ipfs_lite/peer/_content.py): it walks from every pin, then deletes the
--   blocks of the store that no walk met. Uses Pin, Dag and the block store as a dictionary whose
--   calls may raise.
-- * RwLock (`RWLock` of py_ipfs_lite/peer/ipld.py): the lock that keeps gc and readers apart, as a
--   step relation on the lock and the places of any number of tasks. A step goes from one point
--   where trio may switch tasks to the next. `harmless` says that no task is cancelled in the two
--   places where the lock does not stand it, `anywhere` lets tasks be cancelled there too.
-- * Tracker (py_ipfs_lite/connection_tracker.py): the streams of the `ConnectionStatsTracker`, its
--   counters for each peer, the sweep for leaks. Attributes of stream objects are arguments.
-- * Conns (the same file): the connections of the `ConnectionStatsTracker`. `_conn_meta` points from the
--   id of a connection and from the id of its muxed connection to one object, so the objects are in a
--   heap; `serve` is what `opened_stream` does to that object. Conns/Lives runs these calls in sequence.
--   Durations are milliseconds.
-- * Pubsub (py_ipfs_lite/peer/_pubsub.py): subscriptions, buffers of messages, and `discovery_pass`,
--   which scores the topics that peers announce, leaves stale ones and joins new ones.
-- * Routing (py_ipfs_lite/routing.py): the queries of `TieredRouting` and `DelegatedHTTPRouting`.
-- * Ipns (py_ipfs_lite/ipns.py, py_ipfs_lite/peer/_naming.py): the validation of a name record, and
--   the sequence number of a new one. `validate` is `validate_ipns_record` after the parse.
-- * Files (py_ipfs_lite/services/files_service.py): uploads and downloads with their size limits.
-- * Car (py_ipfs_lite/car.py): the frames of an archive, the loops over its blocks, and `export_car`
--   and `import_car` around them. The loop that reads runs on fuel, one unit for each frame; one more
--   than the number of blocks is enough.
-- * Reader (`SeekableReader` of py_ipfs_lite/peer/ipld.py): the cursor of a file in memory.
-- * Content (py_ipfs_lite/peer/_content.py): `get_file` with its generator `fetch_stream`, whose depth
--   has fuel, one unit for each level of the file; nodes; and `list_pins`, over the walks that gc uses.
-- * Maintenance (py_ipfs_lite/peer/_maintenance.py): the sweep of pings, the pruner, the leak monitor.
-- * Swarm (py_ipfs_lite/services/swarm_service.py): the list of connected peers, which joins the
--   network's table with the tracker of Conns and Tracker, and tags.
-- * Config (py_ipfs_lite/config.py): the checks of the configuration and of the parameters of an upload.
-- * Lifecycle (py_ipfs_lite/peer/_lifecycle.py): the states of the peer and the tasks of its nursery.
--   A parameter of the steps says whether a task may raise. Config/Limits has the limits of
--   connections that `start` sets.
-- * Blocks (`fetch_block` and `has_block` of py_ipfs_lite/peer/_content.py), Reprovider
--   (py_ipfs_lite/reprovider.py) and Versioning (py_ipfs_lite/versioning.py).
-- * Prelude, Dict and Errors: Boolean tests, lists, dictionaries in insertion order, and exceptions
--   as values.
--
-- CIDs, hashes, keys, signatures, CBOR, JSON, HTTP and dates come from libraries and are parameters.
-- Times are natural numbers. Log lines, messages of exceptions and Prometheus counters are left out.
-- Not modelled: the HTTP interface, the command line, the wiring of the host, metrics,
-- and how the DAG service adds files.
pub mod Prelude
pub mod Dict
pub mod Errors
pub mod Pin
pub mod Ipld
pub mod Dag
pub mod Gc
pub mod RwLock
pub mod Tracker
pub mod Routing
pub mod Ipns
pub mod Files
pub mod Car
pub mod Reader
pub mod Blocks
pub mod Reprovider
pub mod Versioning
pub mod Pubsub
pub mod Conns
pub mod Content
pub mod Maintenance
pub mod Swarm
pub mod Lifecycle
pub mod Config
