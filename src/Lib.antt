-- ===== src/Lib.antt =====
-- A model of proxy-protocol-rs, a library that parses and builds headers of the PROXY protocol,
-- versions 1 and 2, and strips them from accepted TCP connections, with proofs about it.
--
-- The program's parts and the files that model them:
--   src/types.rs     Types: the parsed header. A byte and a machine integer is a number, a Vec<u8>
--                    and a String is the list of its bytes. Types/Ranges says which values the
--                    source's types have. Types/Display has the texts.
--   src/error.rs     Error: the error values, and their texts in Error/Display.
--   src/parse        Parse: `parse` (Parse/Header) looks at the first bytes and calls `parse_v1`
--                    (Parse/V1) or `parse_v2` (Parse/V2), which calls `parse_tlvs` (Parse/Tlv).
--                    Parse/Wire is the form of TLVs on the wire, and Parse/V1/Grammar that of the
--                    text lines, which no code computes.
--   src/builder.rs   Builder: `HeaderBuilder` with its constructors and methods (Builder/Calls), and
--                    `build` (Builder/Header), with the encoding of TLVs (Builder/Encode) and of the
--                    TLS information (Builder/Ssl), and `write_to` (Builder/Writing).
--   src/policy.rs    Policy: whether the header of a peer is read.
--   src/config.rs, src/validator.rs   Config: the listener's settings and their check.
--   src/stream.rs    Stream: the stream with the header's metadata, which first delivers the bytes
--                    that were read behind the header; writes go to the connection.
--   src/listener.rs  Listener: `accept` asks the policy, reads until `parse` wants no more, checks
--                    the version and asks the validator. Listener/Handshakes has the calls of
--                    `accept` that run interleaved, as a step relation: each waits for a permit of
--                    the semaphore or for its next read, returns, or is dropped.
--   src/vendor       Vendor: the TLVs of AWS, Azure and GCP.
--   src/axum.rs      Axum: the loop that accepts connections for a server, and what it logs.
-- Prelude has what all files share, Std the parts of Rust's standard library that the program uses
-- (IP addresses and their text, UTF-8, I/O errors), Incoming what a TCP connection brings, and Tests
-- runs on concrete inputs.
--
-- How the code is translated: a function that can fail or panic gives an `Outcome`, with its value,
-- its error, or `panic`; a slice or an index out of range, a failed assertion and `unreachable!`
-- panic. `stuck` is a loop that runs out of fuel. The loops over TLVs get as many rounds as they have
-- bytes, and each round takes at least three of them; the search for the checksum's TLV gets a round
-- more than the header has bytes. A `Result` with the error type `⊥` has no error. Subtraction stops
-- at 0, and stands only where the code has tested before or panics. The
-- loop over the reads of a connection goes along the connection, which is finite.
--
-- What is not part of the repository is a parameter: the crate crc32c (`Crc32c`, with the laws of its
-- documentation), the crate ipnet (`IpNets`), the validator and the policy, each of which may panic,
-- the sink of `write_to` (`AsyncWrite`), and what tokio's TCP listener and streams give (`Connection`,
-- `TcpStream`, where each read gives bytes, an error, or nothing before the deadline, and `TcpWrites`).
-- Tokio's semaphore is the number of its free permits, which go to the calls in the order in which
-- they began to wait; for a single call it is what the wait for a permit gives (`Permit`). With the
-- permit comes the longest time that the clock can count from there, since adding `header_timeout` to
-- it panics beyond that. The semaphore is never closed, as the code never closes it, and its
-- `MAX_PERMITS` is a parameter.
--
-- Not modelled: the text of a `TlvParseError`, which may quote a text in its `Debug` form; the `Debug`,
-- `Hash` and `Clone` implementations, which are derived; the accessors that only lend a field; and the
-- glue for the crate axum.
pub mod Prelude
pub mod Std
pub mod Types
pub mod Error
pub mod Crc
pub mod Parse
pub mod Builder
pub mod Policy
pub mod Config
pub mod Incoming
pub mod Stream
pub mod Listener
pub mod Vendor
pub mod Axum
pub mod Tests
