-- ===== src/Lib.antt =====
-- The FIX proxy of roq: a process that many clients connect to with the FIX protocol and that holds
-- one FIX connection to a gateway (fix-bridge), on which it forwards what the clients ask and from
-- which it brings the answers back.
--
-- Parts, and where they are modelled:
--   Crypto        src/roq/proxy/fix/tools/crypto.cpp: the check of a logon's password.
--   Shared        src/roq/proxy/fix/shared.{hpp,cpp}: users, who is logged on where, request ids.
--   Mapping       struct Mapping of src/roq/proxy/fix/controller.hpp, and add_req_id, remove_req_id and
--                 clear_req_ids of controller.cpp: which session a request of the server's belongs to.
--   Server        src/roq/proxy/fix/server/session.cpp: the session with the gateway.
--   Client        src/roq/proxy/fix/client/session.cpp: the session with one client.
--   Controller    src/roq/proxy/fix/controller.cpp: every handler of either kind of session, named as
--                 the message with `on_` before it.
--   Config        src/roq/proxy/fix/config.{hpp,cpp}: the users and symbols that the proxy starts with.
--   Auth          src/roq/proxy/fix/auth/session.cpp: the service that adds and removes users.
--   Startup       the constructors of Shared, Crypto and Controller: the state at the start.
--   Manager       src/roq/proxy/fix/client/manager.cpp: the clients' sessions and their removal.
--   Events        the event loop: one event after the other, each handled to its end.
--   Invariant     what holds in every state that the event loop reaches.
--   Message       the messages, with the fields that the proxy reads or writes; `fields` stands for the
--                 others, which are handed on as they are.
--   World         the state of all these objects together.
--   Externals     the libraries that the source calls, as functions that the model takes.
--   Examples      concrete states, and each theorem at one of them.
--
-- State and effects. A method of the source is an action on World (Prelude.Effect): it gives a result
-- and the state afterwards. What a method wrote before it threw stays written. An exception is
-- `not_ready` or `malformed`, log::fatal is `fatal`, and the use of a session that is no longer in the
-- store is `dangling`. A reference to one of the ten mappings is a name (World.Mappings). Calls between
-- the objects are calls of actions, so that a handler's call back into the session that called it is
-- there. Whatever is sent, and each close of a connection, is put in front of the list `out`. An unordered
-- map is an association list; what is said of one holds for any order of its entries.
--
-- Numbers. uint64_t counters wrap around at 2 ^ 64, the heartbeat interval of a logon is cut to 16 bits.
-- A client's time stamp is turned into nanoseconds in int64_t, wrapped as it is compiled.
-- Times are in nanoseconds from an epoch that no clock reads before.
--
-- Loops. The loops over the messages of a buffer, over the entries of a session and over the sessions
-- are structural recursion on the list; there is no fuel.
--
-- Not modelled: the bytes of FIX messages, since they are decoded and encoded by a library (a message
-- that cannot be decoded is one of the cases); TCP, web sockets and timers, which are the source of the
-- events; logging; assertions, which a release build leaves out; the reading of files and of flags
-- (src/roq/proxy/fix/settings.cpp); TOML and JSON, of which the model takes the parsed document from
-- the library; the compilation of the symbols to regular expressions.
--
-- What a history takes for granted is said where it is needed: that the connection manager reports a
-- new connection to the gateway only once the last one is known to be gone, and that there are fewer
-- than 2 ^ 64 client sessions.
mod Prelude
mod Examples
pub mod Message
pub mod Config
pub mod Auth
pub mod Externals
pub mod Crypto
pub mod Shared
pub mod Mapping
pub mod World
pub mod Server
pub mod Controller
pub mod Client
pub mod Manager
pub mod Startup
pub mod Events
pub mod Invariant
