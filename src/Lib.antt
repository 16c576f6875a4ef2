-- ===== src/Lib.antt =====
-- A verification library for the HTTP/2 client of this repository: header compression, the frame
-- codec, the stream manager, the connection and its event emitter.
--
-- How the parts interact. The connection (src/connection.ts) cuts what it reads into frames with
-- `parseFrame` (src/frame/frame.ts) and hands each to `dispatch` of the stream manager
-- (src/stream/stream.ts). The manager keeps the streams and the windows, sends frames, which
-- `serializeFrame` writes, emits events, and settles the promise of each response. The connection
-- listens to the events: it frees the slot of a stream that has closed and wakes the next request
-- that waits for one. Header blocks go through `encodeHeaders` and `decodeHeaders`
-- (src/hpack/helpers.ts), which stand on the encoder, the decoder, the two tables and the integer and
-- string codings of src/hpack.
--
-- Which file models what. Each file opens with the paths it is about; a function of the source
-- `likeThis` is the definition `like_this`, and the steps of a long function are definitions of
-- their own.
--   Common          numbers, texts, lists, maps, the errors of src/errors.ts and src/hpack/error.ts
--   Hpack.Integer   src/hpack/integer.ts
--   Hpack.HuffmanTable, Hpack.Huffman, Hpack.Strings
--                   src/hpack/huffman-table.ts and src/hpack/string.ts
--   Hpack.StaticTable, Hpack.DynamicTable
--                   src/hpack/static-table.ts and src/hpack/dynamic-table.ts; the newest entry
--                   is the head of the list
--   Hpack.Encoder, Hpack.Decoder, Hpack.Helpers
--                   src/hpack/encoder.ts, src/hpack/decoder.ts and src/hpack/helpers.ts; an
--                   encoder and a table are records that each call takes and gives back
--   Frame           src/frame/frame.ts, the frames of src/types.ts, src/schemas.ts, and
--                   `generateHttp2GreaseValue` of src/utils.ts
--   Stream          src/stream/stream.ts; the variables of `createStreamManager` are the record
--                   `Manager`, with three logs for the frames sent, the events emitted and the
--                   promises settled, in order. `concat` and `concatAll` stand in Stream.Bytes, and the other
--                   files write them as `++` and `flatten`
--   Connection.Request
--                   `buildRequestHeaders` and `sendHeaders` of src/connection.ts, with the request
--                   and the options of src/types.ts
--   Connection.Reader
--                   `readOneFrame` and `readLoop`, on the pieces that the transport gives
--   Connection.Preface
--                   `connectHttp2` and `randomUint64`
--   Connection.State, Connection.Calls, Connection.Runs
--                   the fields of `Http2ConnectionImpl` are the record `Connection`; State has the
--                   callbacks, Calls the public calls, and Runs puts the steps in any order. An
--                   `async` function is cut at its `await`s, and a request that waits for its turn
--                   stands in a queue of the state. A log has every call of a
--                   promise's `resolve` and `reject`, of which the first one counts. Aside, Hearing,
--                   Waking, Waits, Down and Pings have the proofs about the callbacks
--   Emitter         src/internal-emitter.ts; what a listener does is the parameter `react`
--
-- How it is modelled. An octet, a code point and a length are natural numbers, a text is the list of
-- its UTF-16 units, and what is cut to a width says so with `%`. The windows of the stream manager are
-- integers, for SETTINGS can make them negative. Code that throws returns an `Outcome`; a
-- handler that throws midway gives the manager as it was then and the error. A `Map` is its list of
-- pairs in insertion order. `String.prototype.toLowerCase` and the reading of a number are the
-- parameters `to_lower_case` and `to_number`; the random nibble of a GREASE value and the octets that
-- the crypto provider draws are arguments. The reads of the transport are a list of pieces, behind
-- which it rejects. A timer may fire at any time while it is armed. The listeners that the connection
-- has on the manager's events run behind the call of the manager that emits them: they change
-- nothing that the manager reads.
--
-- Bounds and fuel. Numbers of the source are doubles, which are exact below 2 ^ 53; the model
-- has no such bound. The shifts of the Huffman encoder are cut to 32 bits as in the source, and
-- so its round trip is about codes of at most 25 bits, which fit behind the bits that are pending: those
-- of every visible ASCII character, and of most Latin-1 ones.
-- A loop on a buffer has its length as fuel, `encodeInteger` has the value, eviction has the number
-- of entries and `drainSendQueue` the octets in the queue: each round of those loops consumes
-- one at least. `readLoop` has more fuel than there are octets to come, and a frame takes nine. An
-- `Outcome` says `stuck` where fuel runs out.
--
-- Not modelled: the clock and the id of a connection, the writes of the transport, the field
-- `settings` that nothing changes, the options that nothing reads, `createId` of src/utils.ts, and the
-- barrel src/index.ts. Messages and causes of errors are left out, and so are the priority fields of a
-- HEADERS frame, which nothing sets. A status code is a natural number or the default: that `Number`
-- also reads negative and fractional values is left out. The states of streams that have left the map are not kept. That
-- the manager passes its listeners on to an emitter of its own is left out: its events are a log, and
-- each of the methods that it passes on is modelled in Emitter.
pub mod Common
pub mod Hpack
pub mod Frame
pub mod Stream
pub mod Connection
pub mod Emitter
