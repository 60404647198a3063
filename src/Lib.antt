-- ===== src/Lib.antt =====
-- Verification of the ServerBox monitor agent and of the parsers that it shares with the app.
--
-- The agent (monitor/) watches a machine, stores what it sees and serves a panel: log in, see metrics
-- and alerts, and, where the operator allows it, open a terminal or browse files. A login passes the
-- throttle, a ticket opens a connection, a connection opens or rejoins a terminal session, and every
-- file request passes its check and the file roots. The parsers (crates/sbm_parser/) turn the text of
-- the machine's commands into values.
--
-- Throttle models monitor/src/api/ratelimit.rs: begin, record_failure, record_success, cancel and the
-- drop of an attempt, on a map from keys to entries.
-- Secrets models monitor/src/utils/secrets.rs: random_hex and constant_time_eq, which tickets and
-- sessions use.
-- Ticket models monitor/src/api/ws/ticket.rs: issue_at, consume_at, reserve_at, commit and rollback.
-- Session.Scrollback, Session.Attachment and Session.Store model monitor/src/api/ws/session.rs: the
-- replay buffer, one session with its connection, and the store of all sessions.
-- Terminal models the connections, monitor/src/api/ws/terminal.rs with monitor/src/api/ws/mod.rs:
-- Terminal.Admission the handshake, with the tickets of Ticket; Terminal.Phases the phase;
-- Terminal.Tasks and Terminal.Turns what open, answer, start_shell, open_local and attach do between
-- two awaits, on the store of Session.Store; Terminal.Connection the frames that come in and
-- Terminal.Pump those that go out; Terminal.System all connections, with disable_full_access of
-- monitor/src/api/server.rs. The errors and credentials are those of monitor/src/ssh/client.rs.
-- Audit models monitor/src/api/ws/audit.rs: the rows that the terminal and the file API log.
-- FsRoots models monitor/src/core/fs_roots.rs: resolve_existing, resolve_entry and resolve_new.
-- FileApi models monitor/src/api/fs.rs on Unix: admit, in FileApi.Reading and FileApi.Writing what the
-- handlers do on the paths that FsRoots resolves, and in FileApi.Requests the handlers with their
-- checks and the routes to them, of monitor/src/api/server.rs.
-- RemoteAccess models monitor/src/core/remote_access.rs: the settings, their resolution and what they
-- open. It uses the roots of FsRoots.
-- TimeSeries models monitor/src/monitoring/timeseries.rs, and Velocity
-- monitor/src/monitoring/velocity.rs on top of it.
-- PushLimiter models PushRateLimiter of monitor/src/monitoring/push.rs and the loop of
-- monitor/src/monitoring/rules.rs that asks it: check and acquire.
-- Alerts models monitor/src/monitoring/size.rs, threshold.rs and rules.rs: Size::parse,
-- Threshold::parse and is_true, and in Alerts.Rules the rules of each monitor.
-- KnownHosts models monitor/src/ssh/known_hosts.rs: verify and pin_or_compare, statement by statement.
-- CustomCmds models monitor/src/monitoring/custom_cmds.rs: validate, and write_dir with
-- recover_interrupted_replace, call by call.
-- Retention models monitor/src/db/cleanup.rs: cleanup_old_metrics, cleanup_old_alerts,
-- cleanup_policy_tables and enforce_db_size_limit.
-- Status models crates/sbm_parser/src/types.rs: CpuCore::total, disk_should_calc, disk_usage,
-- BatteryStatus::parse and Temperatures::first.
-- Script models crates/sbm_parser/src/script.rs: the names of custom command files and markers, and in
-- Script.Segments parse_script_segments and parse_script_output; Script.Printing writes out the text
-- of a run that is read back: its shape, a marker before each section and the output of a custom
-- command encoded, is that of the parser, since the scripts themselves are not modelled.
-- OsText models crates/sbm_parser/src/common.rs.
-- Prelude has what the parts share: tests on numbers, lists, results, maps as association lists and
-- the operations of str.
--
-- A call on shared state is one step, because the source holds a lock around it; an interleaving is a
-- list of such steps, or a step relation for the connections. A call of a connection is cut into turns
-- where it waits for the server, the log or the runtime, and before another thread's change can
-- matter; a write to the socket or to the log that nothing follows, and a disconnect before a failure,
-- are in the turn that makes them. A session is known by the channel of its input, and what it becomes
-- is written back to the store that shares it. Time, random bytes, the file system, the environment
-- and the channels are arguments. Numbers are natural numbers: a subtraction that saturates or is
-- checked is written out, and so is the wrap-around of the scrollback's sequence number. Instants are
-- below the limits of their types. Floating-point operations and the difference of two instants are a
-- record of functions; the lower case of Unicode is a parameter; base64 is another, with the laws that
-- decoding undoes encoding and that encoded texts keep to their alphabet, shown to hold by a code that
-- counts letters; the two laws that are assumed of floating point say when a number of seconds and a
-- number of whole milliseconds are above zero, and fractions show that they can hold. An SQL statement
-- is one atomic step; those of the known hosts may fail. The clean-up compares timestamps as texts, in
-- the order of their characters; how sqlx writes the instant that it binds is a parameter, and its
-- statements succeed. The file API's disk holds files, and a read fills its buffer where the file has
-- the bytes; its directories, links and errors are what the system answers, and the calls that resolve
-- a path are not among those that are counted. A write of the custom commands may fail at any call of
-- the file system and stop between any two. Loops are structural recursion on a list, but for two on
-- fuel: the loop of the size limit ends where the fuel is more than the rows of the database, and a
-- number is printed in at most ten digits, which 32 bits need. Alerts are raised one behind the other;
-- the clock may move on while one is pushed.
--
-- Not modelled: the JSON of messages, the heartbeat, the other HTTP handlers, SSH and pseudo-
-- terminals, SQL, configuration files and the command line, because they are mostly calls of
-- libraries; the texts of the generated scripts, the listing of custom commands and the other parsers
-- are left for later. Reading the custom commands back and the statistics of the clean-up are left out
-- too.
pub mod Prelude
pub mod Throttle
pub mod Secrets
pub mod Terminal
pub mod Ticket
pub mod Session
pub mod FsRoots
pub mod FileApi
pub mod RemoteAccess
pub mod TimeSeries
pub mod Velocity
pub mod OsText
pub mod PushLimiter
pub mod KnownHosts
pub mod CustomCmds
pub mod Retention
pub mod Script
pub mod Alerts
pub mod Audit
pub mod Status
