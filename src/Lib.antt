-- ===== src/Lib.antt =====
-- kafka-go, a client of Kafka: a model of its wire protocol, of messages and batches of them, of
-- the connection, of the balancers and of the offsets that a group commits.
--
-- The program. read.go, discard.go, write.go, sizeof.go and protocol.go are the primitives of the
-- wire. A file for each message (joingroup.go, syncgroup.go, offsetcommit.go, ...) has its
-- structs, with the methods size, writeTo and readFrom. conn.go sends a request as a frame with a
-- correlation id, waits for the response with the same id, and reads it; its operations are one
-- such exchange each. message.go and write.go have the messages: sets of them in the formats 0 and
-- 1, and record batches, format 2. A fetch of conn.go gives a Batch (batch.go), which reads its
-- messages one by one off the connection. reader.go joins a consumer group and commits offsets for
-- it; groupbalancer.go computes which member of the group gets which partitions.
--
-- Prelude has the helpers: lists and integers over the native numbers (Lists, Int), Boolean tests
-- (Tests), bits (Bits), strings and maps as association lists (Strings, Dict).
--
-- Wire is the primitives. Bytes: big-endian bytes (encoding/binary); an intN is its bit pattern,
-- a number below 2 ^ N. Reader: the state of a read is the bytes that the bufio.Reader delivers
-- before its stream ends, and the number of bytes left of the response (sz, remain); an outcome
-- is a value or an error, with the state after it. Read: read.go and discard.go. Write and Size:
-- write.go and sizeof.go, a writer as the bytes that it writes, and sizes as int32 sums. Mapping:
-- readMapStringInt32. VarInt: writeVarInt, varIntLen, readVarInt. Reads and Primitives say when a
-- reader reads a value from the bytes written for it, Frame when it stays inside its response,
-- and Sizes that the announced sizes are those written.
--
-- Time is time.go: a Duration is its nanoseconds, and so is a Time, from 1970, with the zero Time
-- apart.
--
-- Message has the messages. Crc is crc32.go, Compression the codecs of compression.go, Raw the
-- structs message and messageSetItem, Encode the functions of write.go that write messages without
-- them, Stack messageSetReaderV1 with its readerStack, Record the functions of write.go for
-- records, RecordSet messageSetReaderV2, Set messageSetReader, and Produce the produce requests.
-- Errors is error.go, Batch batch.go, Balancer balancer.go. Conn is conn.go from the side of its
-- caller: Offsets has Offset, Seek and the requests for offsets, Fetching ReadBatchWith, Writing
-- writeCompressedMessages, and Versions the choice of versions and the exchanges of SASL.
--
-- Protocol has a module for each pair of messages: for the struct x a record, and size_x, write_x
-- and read_x for its methods. JoinGroupResponse and GroupAssignment are those of joingroup.go and
-- syncgroup.go whose size methods differ from what is written. Interface and Requests are the
-- request interface and what implements it. Header and Frame are requestHeader and
-- Conn.writeRequest; Direct is the requests of write.go that are written without their data
-- structures. Exchange is Conn.waitResponse, Conn.readResponse and expectZeroSize; Operations the
-- operations of Conn that are one exchange. Connection is a connection that operations share, as
-- runs of steps: Conn.doRequest, an answer of the broker, and the turn of an operation.
--
-- GroupBalancer is groupbalancer.go. OffsetStash is commit.go and the offsetStash of reader.go,
-- the offsets that the reader of a consumer group collects before it commits them. Group is the
-- rest of reader.go for a group: the requests it builds and the responses it takes apart, Exchange
-- joinGroup, syncGroup and rebalance on the methods of Conn that they call, Committing the commit
-- loops and fetchOffsets, an event for each case that a select takes. Writer is writer.go: Batching
-- the loop of the writer of a partition, writer.run, on the events of its select, Sending its loop
-- writer.write with the answers to the messages, Partitions the rebalance of Writer.run. Examples
-- applies the theorems to concrete values.
--
-- Bounds. The loops of writeVarInt and varIntLen run on fuel of ten rounds, since ten groups of
-- seven bits hold 64 bits. The loop of readVarInt runs on one round more than there are bytes
-- left, since a round takes a byte. The loop of messageSetReaderV1.readMessage runs on fuel, since a
-- codec may give ever new sets; for messages that are not compressed it needs two rounds more than
-- there are messages. The loop of writer.write runs on fuel, and one round more than the retries that
-- are left is enough. The loop of extractOffset has one round more than there are bytes, since a
-- round takes twelve. Go's int is a natural number or an integer without a bound.
--
-- Not modelled. The value that an out-parameter holds when a read fails; the size of the buffer of
-- a bufio.Reader, which bounds what Peek gives (more than is asked for, but for compressed record
-- batches, where it is modelled); compression itself, a parameter; the order in which Go iterates
-- over a map, where the association list stands for any one of them; the order that sort.Slice gives to members with the same id. Sockets, their
-- deadlines, TLS and name resolution, the fetch loops of the Reader, and WriteMessages of the Writer.
pub mod Prelude
pub mod Wire
pub mod Time
pub mod Protocol
pub mod GroupBalancer
pub mod OffsetStash
pub mod Message
pub mod Errors
pub mod Batch
pub mod Balancer
pub mod Conn
pub mod Group
pub mod Writer
pub mod Examples
