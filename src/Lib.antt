-- ===== src/Lib.antt =====
-- sqlx_monetdb: a model of the MonetDB driver for sqlx and the theorems that make it correct.
--
-- The driver speaks MAPI, a text protocol in length-prefixed blocks. A connection is opened by a
-- challenge and a login, possibly behind redirects; then each query is one request and one
-- response, which is parsed into rows. Bound arguments are written into the query as literals.
--
-- The files, and the code that they model:
--   Framing     src/protocol/framing.rs: blocks and their headers
--   Response    src/protocol/response.rs: requests and the parser of responses
--     Response/Fields   fields and tuples: parse_tuple_fields, unescape_field
--     Response/Headers  header lines: parse_header_values, apply_header_values
--     Response/Lines    the other lines and the loop: parse_response
--   Handshake   src/protocol/handshake.rs: challenge, password hash, login line, redirects
--   Session     src/protocol/mod.rs: messages on a socket, the handshake rounds, a query
--     Session/Peers     the interface that the theorems on whole conversations take
--     Session/Slices    the interface of a stream that the peer has closed, which Session/Answered
--                       and Session/Settles extend by what is written to it
--     Session/ServerTests  the source's tests against a server, as actions
--   Arguments   src/arguments.rs: substitution of bound literals
--     Arguments/Reader  a reader of standard SQL, by which Arguments/Injection and Arguments/Minus
--                       state what a substituted query says
--   Values      src/value.rs and src/type_info.rs
--   Types       src/types: Type, Decode and Encode of each Rust type
--   Rows        src/row.rs, src/column.rs and the query result of src/database.rs
--   Connection  src/connection.rs: the connection and the queries on it
--   Statements  src/statement.rs
--   Transactions src/transaction.rs
--   Options     src/options.rs: connection options
--     Options/Sessions  a connection from its options to its last query
--   Error       src/error.rs
--   Text        the functions of Rust's str, char and integer parsing that the code calls
--   Prelude     lists, options, results and Boolean tests
-- A module UnitTests has the unit tests of its source file, each as a statement about the model with
-- its proof; a module ServerTests has those that talk to a server, as actions over any network, and
-- its child Runs runs them against scripted servers.
-- A definition has its source function's name; a loop or a match that needs a name of its own is a
-- helper beside it. A method of a trait is a function that takes the value first.
--
-- Text is a list of code points, bytes are numbers below 256, and `as_bytes` and `from_utf8` go
-- between them. Integers are natural numbers with the bounds of their types written out: `u64` and
-- `usize` have 64 bits. A function that can fail returns `Result`; where it can panic its error is
-- a `Fault`. An async function is a function of the world outside, which it returns changed.
--
-- Fuel: the decoder of framed messages takes one unit more than its input has bytes, and each
-- round consumes two bytes at least; the chunks of a message take its length; the socket reader
-- takes its fuel as an argument, and the length of the framed message is enough.
--
-- The parts interact in one direction: Connection substitutes the arguments of a query by
-- Arguments, sends it and reads the answer by Session, which frames messages by Framing and reads
-- their texts by Handshake and Response, and turns the answer into Rows. The socket is the record
-- `Network` of its operations: what `connect_tcp`, a buffered read or write, a flush and a shutdown
-- do to the world. What the theorems on conversations ask of it is the record `Peer`: a relation of
-- a world to the bytes that are still to come, those put in the write buffer and those gone out,
-- which reads, writes and flushes keep as their documentation says; the examples give a network of
-- three lists of bytes that has one. Where a peer may send anything, the theorems ask less: `Closed`
-- and `HalfClosed` are a stream that ends behind some bytes, and `Servers` says that every
-- connection does so behind at most a given number of bytes, which the fuel has to exceed.
--
-- Not modelled: the functions of other crates. The digests and the hex encoder are the record
-- `Hashes`, the parsers and printers of floats, decimals and times are arguments, a URL is the
-- record of its parts. What the source leaves unimplemented, in Connection, Statements and
-- Transactions, is a panic. Url::parse and the logging settings of sqlx_core are arguments; of
-- Url::parse a theorem asks no more than that it splits plain addresses into their parts. In the
-- tests, the digests' known answers and what the parsers of other crates make of the tests' texts
-- are hypotheses, and the provided methods of sqlx_core's Executor and Row are parameters; the test
-- of sqlx_core's pool and that of a result of 5000 rows are left out: the first tests another
-- crate's code alone, the second a server's answer. The texts of formatted error messages and the
-- capacities of buffers are left out.
pub mod Prelude
pub mod Framing
pub mod Text
pub mod Error
pub mod Response
pub mod Handshake
pub mod Arguments
pub mod Values
pub mod Types
pub mod Rows
pub mod Session
pub mod Connection
pub mod Options
pub mod Statements
pub mod Transactions
