-- ===== src/Lib.antt =====
-- A verification library of tapgres, a passive tap of PostgreSQL traffic: frames are captured,
-- parsed to TCP segments, put in order for each direction of a connection, decoded as wire messages
-- and shown, filtered, stored and counted; a proxy feeds the same decoder from sockets.
--
-- The parts and their files:
-- - Net: src/net.rs, `parse_frame` and all below it. Net/Safety is about reads and ranges, Net/Wire
--   writes frames as bytes and Net/RoundTrip parses them back.
-- - Direction: src/flow.rs, `Role` and `Direction`: the order of one direction's segments.
--   Direction/Segments holds the map's lemmas, Direction/InSync what one `feed` keeps and
--   Direction/Reassembly runs of it.
-- - Connection: src/flow.rs, `Connection`: a segment is fed to its direction and decoded, and the
--   outcome goes to the metrics. Connection/Handled says what that does to them.
-- - ConnTable: src/flow.rs, `ConnKey` and `ConnTable`; the hash map is an association list.
--   ConnTable/Entries sums over the entries, ConnTable/Tracks has the invariant that ties the table
--   to the metrics, ConnTable/Advance what a packet does to both, ConnTable/Others what it leaves.
-- - Capture: src/capture.rs, from the choice of the device to the loop; Capture/Loop runs it.
-- - State: src/state.rs, `Metrics` with the registry of connections. A `ConnStats` shared behind an
--   `Arc` is a record in a store, and a handle is its id. State/Registry has the invariant,
--   State/Closing eviction, State/Totals the counters, State/Rates the history, State/Effects what
--   an operation does to the counts and State/Reach all sequences of operations.
-- - Filter: src/filter.rs, the display filters' data and evaluation; Filter/Lexer is `lex`,
--   with Filter/Lexer/Places on its positions, Filter/Values what a token can stand for,
--   Filter/Parser the recursive descent and `DisplayFilter::parse`. The regex crate and the reading of IP addresses are a parameter.
-- - Session: src/session.rs, the stored records, reading and writing; Session/RoundTrip writes and
--   reads, Session/Tail compares `read_tail` with `read_all`, Session/Safety is on the consumer and
--   Session/Writer is `SessionWriter`. JSON and the file system are parameters.
-- - Decode: src/decode.rs, data rows and the formatting of their values; Decode/Rows writes rows as
--   bytes and decodes them. Decode/Messages has the formatting of the messages, Decode/Emit what is
--   delivered, and Decode/Drain the handlers and `drain_direction`, with Decode/Drain/Counts and
--   Decode/Drain/Total on what a drain counts and that it ends. pgwire's decoders are the
--   parameter `Wire`; what the program relies on of them is the record `Documented`.
-- - Tui: src/tui.rs, the state `App` and its operations; Tui/Keys is `handle_key`, Tui/View the
--   window of the message view, Tui/Rich the lines of an event, Tui/Line the spans of one, and Tui/Loop
--   `app_loop`. Tui/Consistent has the invariant; Tui/Line/Broken and Tui/Rich/Drawable tell which
--   events cannot be drawn, Tui/Keys/Kept, Tui/View/Shown and Tui/Loop/Shows what keys, drawing and
--   rounds do.
-- - Stdout: src/main.rs, the consumer of `run_stdout`; Stdout/Printed is on what it prints and
--   records.
-- - Proxy: src/proxy.rs, `handle_connection`, its guard and the pumps; Proxy/Relay is on the bytes
--   relayed and Proxy/Guard on the end of a connection.
-- - Event: the records that decoder, filter, session file and terminal exchange.
-- - Bytes, Utf8, Outcome and Prelude: byte and word arithmetic, slices of texts, runs that return,
--   fail or panic, and shared names; Outcome/Unless is on runs that may panic for one reason alone.
--
-- Bytes are numbers; a word keeps its wrap-around. Indexing out of bounds is a panic. Loops over a
-- frame's bytes run on fuel of one more than its length, the drain loop of `feed` on one more than
-- the buffered segments; each round takes at least one of them away. The filter's lexer
-- runs on one more than the characters, its parser on four calls at each token. `drain_direction`
-- runs on three rounds more than the buffered bytes: a message takes a byte at least, and one
-- round peeks. Deliveries append to a log, and a clock is told by the log's length.
--
-- Not modelled: libpcap, sockets, TLS and certificates, argument parsing, widgets and layout, which
-- are I/O or other projects' libraries, as are the decoder of pgwire and the regular expressions.
-- An operation on `Metrics`, a packet, a key and a round of a pump are one step each, so
-- interleavings inside two operations are not modelled either, nor the thread that samples rates,
-- nor an abort inside a pump's round. The splash's texts in src/tui.rs are left out,
-- and `ensure_distinct_files` of src/main.rs, which asks the file system; the height of wrapped
-- lines, which ratatui tells, is a parameter.
pub mod Prelude
pub mod Outcome
pub mod Bytes
pub mod Net
pub mod Event
pub mod Direction
pub mod State
pub mod Filter
pub mod Session
pub mod Decode
pub mod Connection
pub mod ConnTable
pub mod Capture
pub mod Tui
pub mod Utf8
pub mod Stdout
pub mod Proxy
