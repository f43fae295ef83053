-- ===== src/Lib.antt =====
-- A verification library for the Rust client of EdgeDB: the wire protocol, the connection pool,
-- the numbers, dates and times of the data model, the descriptions of types, the codecs of values, and
-- the loop that retries transactions.
--
-- The parts and how they interact. edgedb-protocol turns messages into frames and frames into
-- messages. A frame is one byte of code, four bytes of length, which count themselves and the body,
-- and the body. A client sends `ClientMessage`s and reads `ServerMessage`s; some messages have one
-- form below version 1.0 of the protocol and another from there on, and the version that an `Input`
-- carries decides. edgedb-client keeps a pool of connections over which the messages travel. Query
-- results and arguments are values of the data model. A message describes their type as a list of
-- descriptors, each of which refers to others by position; out of the descriptors `build_codec` makes
-- a codec, which turns bytes into a value and a value into bytes, over the readers of raw values.
-- edgedb-tokio runs a transaction over a connection of the pool, and runs it again if the tags of its
-- error and the rules of its options say so.
--
-- Which file models what.
--   Base       the helpers of all parts: Boolean tests on numbers, lists, results, and the standard
--              library's HashMap as a list of entries without a key twice. `Result` has a case for
--              a panic, so that a theorem can say that there is none.
--   Wire       edgedb-protocol/src/encoding.rs and errors.rs, and what the two files of messages have
--              in common. Decoder and Encoder are the two kinds of computation: a decoder takes bytes
--              from the front of an `Input`, an encoder adds bytes to an `Output`. Encoding has
--              String, Bytes, Uuid, the maps of headers and annotations, and `encode`, which writes
--              the frame round a message. Frame has what the two `decode`s share. Decoder/Reads,
--              Decoder/Safe, Decoder/Stops and Encoder/Writes are the rules by which the messages are
--              proved: what is read back, what cannot panic, what panics, what is written.
--   Protocol   edgedb-protocol/src/features.rs and common.rs, and the enumerations and flags of
--              client_message.rs: versions, cardinalities, formats, and their bytes.
--   Client     edgedb-protocol/src/client_message.rs. Types, Encode and Decode have one definition for
--              each struct and each `impl`, named after it (`encode_parse`, `decode_parse`); Message
--              has `ClientMessage::decode`. Wire says which bytes a message is, independently of the
--              code, and RoundTrip, Safety and Faults have the theorems.
--   Server     edgedb-protocol/src/server_message.rs, in the same way. `Data` is `DataChunks` here.
--   Pool       edgedb-client/src/pool: Inner has the state under the lock, `handle` for a command that
--              `main` receives, one round of `acquire`, `commit` and the drop of an `InProgress`.
--              System has the tasks: a step relation in which calls of `acquire` start, fail, are
--              dropped or succeed, connections are used and given back, and `main` serves its
--              channel, all in any order.
--   Time       edgedb-protocol/src/model/time.rs: LocalTime, LocalDate with its calendar,
--              LocalDatetime, Datetime with the system time, RelativeDuration, DateDuration, and in
--              Durations what these share and their text, and the parser of a Duration that reads
--              its text: of its errors the model says only whether they are final.
--   Bignum     edgedb-protocol/src/model/bignum.rs: BigInt, its normalization, and the conversions into
--              it from the machine integers.
--   Descriptors  edgedb-protocol/src/descriptors.rs: the descriptors, their decoders (Decode), and the
--              descriptions of types (Typedesc). Wire says which bytes a descriptor is. The methods of
--              the messages that read a description are in Typedesc and in Server/Typedescs.
--   Codecs     edgedb-protocol/src/value.rs, codec.rs and serialization/decode: Raw and Composite have
--              the readers of raw_scalar.rs and raw_composite.rs, Scalars, Collections and Objects the
--              codecs, each of them a pair of its decoder and its encoder (`int16_codec`), and Build
--              has `CodecBuilder`. Appends, ReadingBack and the files named RoundTrip lead to what is
--              read back, Safety, Reading and the files named Total to what cannot panic. Typing says
--              which values have a type, and Derivation which codec belongs to it, both by the
--              descriptors and independently of the code; Gives, the files whose names end in Typing, and Soundness
--              are about what decoders give, Encodes, Inversion and Completeness about what encoders
--              accept, in the bytes that Size counts for a value by the layout of the protocol. Typedesc goes from the bytes of a description to its codec.
--   Errors     edgedb-errors/src: the codes of errors, with their ancestry and their tags.
--   Tokio      edgedb-tokio/src/options.rs and transaction.rs: which rule holds for an error, and the
--              loop of `transaction`. The pool, the connections, the body and the clock are an
--              environment with a state, and Transcript says which calls of it a caller may expect. Of the
--              body it keeps whether it returned a value and whether it had started a transaction.
--
-- What stands for code outside the repository. Wire/External has the operations that are called of
-- the crates bytes, uuid and bitflags as records, each with the laws that their documentation states;
-- every definition that uses one takes the record `Crates` as an instance argument. Wire/Reference
-- gives plain functions that satisfy all the laws, over which the tests run. The standard library is
-- modelled where it is used: `String::from_utf8` by its rule in Wire/Utf8, HashMap as above.
--
-- How the types correspond. A number stands for an unsigned integer, and its width is a condition of
-- the theorems where it matters; a signed integer is a ℤ, and a float is its bits; a cast or an operation that can wrap has its modulus written out. A
-- String is the list of its UTF-8 bytes, a Bytes the list of its bytes, a Uuid the list of its sixteen
-- bytes. The fields named `data` in the source are named after what they hold, and the
-- names of fields are otherwise those of the source. `debug_assert!` does nothing in a release build
-- and is left out, and arithmetic wraps as it does there. An allocation succeeds, also that of
-- `Vec::with_capacity` for an announced number of methods. `BigInt::normalize` counts the weight
-- without the bounds of an i16, which the conversions stay far within. The order of a HashMap's entries is not
-- fixed in Rust; here an iteration meets them in the order of insertion, and reading them back gives
-- them in the order in which they were written.
--
-- Bounds. Three definitions run on fuel, and say by `none` that it was too little. The loop over the
-- descriptors of a description gets one round more than there are bytes, and each descriptor takes
-- one. `build` gets the depth to which a codec is built; one more than the position of the type is
-- enough if descriptors refer to earlier ones only, so that 2^16 is for a description, and nothing is
-- enough if one refers to itself.
-- `transaction` gets the number of attempts. (`trailing_zeros` counts within the 32 bits of a `u32`,
-- and is never cut short. The text of a number has at most 20 digits, which a number of 64 bits does not
-- exceed.) The other loops of the decoders count down the
-- number that they read. Runs of the pool are taken shorter than 2^63 steps, so that no counter wraps.
-- In the round trips of codecs an encoding is shorter than 2^31 bytes, as its decoder takes the
-- length of an element for an `i32`.
--
-- Not modelled. The constructors Parse::new, Prepare::new and OptimisticExecute::new; the encoders and
-- checks of query arguments, and the types of queryable.rs; the conversions of values from and
-- to other types; in time.rs the two other formats
-- of Duration and from_str, which tries them in turn, and the text of dates and times; the messages and
-- headers of edgedb-errors; edgedb-derive and the rest of edgedb-client and edgedb-tokio. The
-- connections themselves, TLS, and the reading of files and of the environment are input and output,
-- kinds.rs is generated, of which the codes and tags are taken, and the derive macros work on another
-- crate's syntax trees.
pub mod Base
pub mod Wire
pub mod Protocol
pub mod Client
pub mod Server
pub mod Pool
pub mod Time
pub mod Bignum
pub mod Descriptors
pub mod Codecs
pub mod Errors
pub mod Tokio
