-- ===== src/Lib.antt =====
-- aioproxmox is an asynchronous client for the API of Proxmox VE. Its core is the class ProxmoxVE
-- (aioproxmox/__init__.py): it holds credentials, sends requests, logs in again when a ticket has
-- died, and moves to another node of the cluster when the host in use is gone. Typed models
-- (aioproxmox/model/) read the answers, and the endpoints (aioproxmox/endpoints.py) name the
-- routes.
--
-- Prelude, Prelude/Tests, Prelude/Lists, Prelude/Int, Prelude/Text with Prelude/Text/Joined,
-- Prelude/Sorting, Prelude/Dict and Prelude/IntDict hold what the other modules share: Boolean
-- tests, lists measured by native numbers, Python's int, the methods of str that the code calls,
-- and dict as an association list in insertion order. Value is what json.loads can return; a
-- finite float is a numerator over a power of two. Errors is aioproxmox/exceptions.py with the
-- exceptions of Python and aiohttp that the client meets. Exec is the monad of coroutines that
-- change objects and may raise; what was written before a raise stays written.
--
-- Client/State is the state of ProxmoxVE and of the classes ProxmoxHTTPAuth and
-- ProxmoxHTTPApiTokenAuth, with the constructors. Client/Env is what the client does not
-- implement: `send` is one awaited HTTP exchange of aiohttp, which may also change the client,
-- since other tasks run meanwhile; `now` is time.monotonic() in nanoseconds; the decoders are
-- mashumaro's from_dict. Client/Hosts is host, learn_hosts and _use_host. Client/Auth is
-- _get_new_tokens, relogin and check_and_refresh. Client/Once is get_headers, get_cookies and
-- _request_once. Client/Failover is _answers and failover; its loop is a recursion on the offsets
-- left, of which there are one less than hosts. Client/Request is request. Client/Network states
-- how a network may behave, Client/Request/Relogin what a request does whose ticket the server no
-- longer takes, and Client/Keeps is the logic for invariants across awaits.
--
-- Model/Enums, Model/Resources and Model/Decode are aioproxmox/model/pve.py: the enumerations,
-- the rows of cluster/resources and how raw rows become dataclasses. Model/Permissions is
-- aioproxmox/model/__init__.py. Cluster/Cache is aioproxmox/helpers.py, and Cluster/Storage is
-- aioproxmox/model/storage.py; sorted() is a stable insertion sort by code points, and a set of
-- texts is a list that has each once. Privileges is aioproxmox/privileges.py, and
-- Privileges/Checks the generated table aioproxmox/_privilege_data.py. The method str.upper() is
-- read on ASCII letters only.
--
-- Model/Nodes, Model/Guests, Model/Disks and Model/Health are the other dataclasses, and
-- Model/Serving is serving_certificate of aioproxmox/model/health.py. Endpoints is
-- aioproxmox/endpoints.py: Endpoints/Calls has the commands and the ways answers are read,
-- Endpoints/Objects the endpoint objects and the actions that their classes declare
-- (Endpoints/Privileged holds them against the privileges), Endpoints/Guests the virtual machines
-- and containers, Endpoints/Nodes the nodes, and Endpoints/Cluster the cluster with connect and
-- learn_hosts_from_cluster of ProxmoxVE, and Endpoints/Access the permissions of the session.
-- Endpoints/Learned is what learn_hosts_from_cluster makes of the answer, and Endpoints/Followed
-- how current finds a guest that the rows in store do not name. A from_dict that mashumaro
-- generates is an argument of the endpoint that calls it.
--
-- Health is the rest of aioproxmox/model/health.py: Health/Time its times, in microseconds since
-- the epoch, Health/Ceph CephStatus, Health/Ha HAStatus and Health/Replication ReplicationHealth.
-- Summary is aioproxmox/model/summary.py: Summary/Backups the vzdump runs and the load average,
-- Summary/Totals ClusterSummary and Summary/Ports the hardware addresses. Disks is
-- aioproxmox/model/disks.py: Disks/Numbers the integers that texts start with, Disks/Smart
-- SmartSummary and Disks/Log smartctl's text. Guests is aioproxmox/model/guest.py: Guests/Usage
-- the disk usage, Guests/Addresses the addresses and Guests/Snapshots the snapshots. What rounds
-- (arithmetic of floats, and times of floats), what Unicode says of digits beyond ASCII, and the
-- ipaddress module are parameters of the definitions that use them; which exception a time out of
-- range raises is not told apart.
--
-- The scripts keep the table of privileges. Routes is script/routes.py: Routes/Syntax has the
-- syntax trees, with the nodes that the reader looks into and any other as its children, and a
-- stand-in for ast.walk of the standard library, whose fuel is the number of nodes of the tree;
-- Routes/Reading is template_of, parameters_of and collect, Routes/Walk and Routes/Found what
-- they find, Routes/Pieces and Routes/Templates what the templates stand for. Schema is
-- script/refresh_pve_api.py: Schema/Flatten is fetch and flatten, Schema/Written what is written
-- as it is read back, with the keys sorted, Schema/Described the nodes of the schema in order and
-- Schema/Rounds and Schema/Kept what is kept of them. script/generate_privileges.py is in
-- Privileges: Privileges/Generator is its function alternatives and Privileges/Entries its
-- entries and render; Schema/Generated puts all three scripts one after the other. The texts of
-- the files are not parsed: json.loads, ast.parse and ast.unparse are arguments, or their results
-- are. Where a schema gives a path that is no text, or the parameters as a list of two or more
-- that are not all texts, the model refuses it.
--
-- Not modelled: script/live_test.py, which prints what a live cluster answers; the main functions
-- of the scripts, beyond the values that they print and write; and the client that an endpoint
-- keeps, which is the machine that the model passes on. The methods of an endpoint take its node
-- and its guest as arguments.
--
-- A run of failover is one coroutine, and what other tasks do between its awaits is part of
-- `send`. Its lock is in Client/Burst: a step relation on the client and the requests that wait
-- for the lock, of which any may get it next (Client/Burst/Settled, and Client/Burst/Served on
-- turns of the lock), while the network answers for the hosts as a fixed predicate says;
-- renewals, which name no host that they failed on, are not among them, and a run of failover is
-- one step there: requests that begin while it asks a candidate, and read that one as the host in
-- use, are not among them either. Client/Failover/Rotation is the contract of failover, a pointer
-- that turns around the list. Client/Cost counts the exchanges that a coroutine awaits, by one
-- rule for each way to build one. Theorems that need it say that others leave the client alone,
-- or that they keep the invariant. Logging is left out, except that a log line which reads the
-- property host can raise. Tests holds runs of the model and each theorem at a concrete input.
pub mod Prelude
pub mod Errors
pub mod Value
pub mod Model
pub mod Exec
pub mod Guests
pub mod Health
pub mod Disks
pub mod Endpoints
pub mod Privileges
pub mod Routes
pub mod Schema
pub mod Summary
pub mod Client
pub mod Cluster
mod Tests
