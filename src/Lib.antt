-- ===== src/Lib.antt =====
-- A verification library for SipWitchQt, a SIP server for small offices.
--
-- Contexts (Server/context.cpp) wait for SIP events, filter them and signal requests to the manager
-- (Server/manager.cpp). The manager owns the registry (Server/registry.cpp), asks a registration for the
-- credentials of a request, and signals to the database thread what the request asks for. A REGISTER
-- for an endpoint that has no registration goes to the lookup of the database
-- (Database/authorize.cpp), whose answer creates one. The parts, and the files that model them:
--
-- - UString: Common/types.cpp. Contact: Common/contact.cpp and contact.hpp. Util: Common/util.cpp and
--   inline.hpp. Crypto: the padding of Common/crypto.cpp. Texts that are taken apart are lists of
--   bytes; texts that are only compared are strings.
-- - Sip: the status codes and the fields of Server/event.hpp that the others read.
-- - Registry: Server/registry.cpp. A Registry object stands on a heap under its address, and the
--   hashes hold addresses, so that a use after delete is a lookup that fails: every operation that
--   uses an address is an Option. Hash has the hashes, with the newest entry first.
--   Registry/Invariant states when hashes, counts and bits agree, Registry/Reach closes it over all
--   operations, and Registry/Access has `authenticate` and `authorize`.
-- - Manager: the handlers of Server/manager.cpp, from a store to a store and a list of answers and
--   signals. Manager/Register has the registration handlers, Manager/Deliver `sendMessage`, and
--   Manager/Body the text that a server puts into its answer to a REGISTER.
-- - Event: how Server/event.cpp takes a message of osip apart (Event/Message), what an event is made of
--   (Event/Build), and the names of the event types.
-- - Context: `Context::process`; Context/Serve has the connections of `Context::run`.
-- - Authorize: `findEndpoint` and `removeAuthorization`, over tables that are a record of queries.
-- - Database: the connection and the retry loops of Database/database.cpp, over an engine that is a
--   record of what can be asked of it. The loops run three times, as in the source: no fuel is used.
--   The pragmas that opening runs are run directly; Database/Recursion has opening and querying as they
--   call each other, with fuel, where fuel 2 is enough.
-- - Database/Tables: the tables of Database/sqldriver.cpp and what the statements do to them. A list of
--   faults says which statements have no result. Database/Outbox has the handlers of messages, and
--   Database/Accounts, Profile, Admin, Groups and Roster the others.
--   Database/Wiring connects the manager's signals to them, and their disconnects to the manager.
--   Database/Suspend has the lookup's queries on the same tables. A handler goes from a database to a
--   database and a list of answers and signals. The rows of a SELECT come in the order of the table,
--   and a QSet is a list in the order of insertion.
-- - Request: Database/request.cpp, as what happens to a request in the order in which it happens.
-- - Connect: the client's side, in Connect/. Connect/Listener, with its children Receive, Xdp and Loop, is
--   Connect/listener.cpp; Connect/Connector is Connect/connector.cpp, and Connect/Storage the devices of
--   Connect/storage.cpp. Both threads are a list of waits, each with the event that eXosip gives and
--   the slots that ran before it, so that their loops recurse on that list and need no fuel.
--
-- Numbers: `unsigned` counts wrap at 2 ^ 32, ports at 2 ^ 16; extension numbers are not negative once
-- they have been created. Time is an argument, in milliseconds.
--
-- Not modelled: eXosip, osip, Qt, OpenSSL and the SQL engine, whose answers are parameters; the waiting of
-- the threads; the configuration; cascades of foreign keys; the client's other tables and its files,
-- Connect/control.cpp, and the user interface of the desktop client.
pub mod Prelude
pub mod UString
pub mod Crypto
pub mod Util
pub mod Contact
pub mod Sip
pub mod Hash
pub mod Registry
pub mod Manager
pub mod Context
pub mod Database
pub mod Authorize
pub mod Request
pub mod Connect
pub mod Event
pub mod Samples
