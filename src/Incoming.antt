-- ===== src/Incoming.antt =====
-- What a TCP connection brings to its reader. The stream of the crate `tokio` is no part of the
-- repository: a connection stands for it that says what the reads give, one after another.
use proxy_protocol_rs.Prelude.{
  ℕ, leb, if◌then◌else◌, List, [], length, take, drop, ◌++◌, ◌≡◌, Outcome,
}
use proxy_protocol_rs.Std.Net.{SocketAddr}
use proxy_protocol_rs.Std.Io.{IoError}

-- One read, under a deadline: some bytes (none of them is the end of the stream), an error, or
-- nothing before the deadline.
pub data ReadEvent : Type 0 where
  received : List ℕ → ReadEvent
  failed : IoError → ReadEvent
  elapsed : ReadEvent

pub data TcpStream : Type 0 where
  closed : TcpStream
  broken : IoError → TcpStream
  late : TcpStream → TcpStream
  chunk : List ℕ → TcpStream → TcpStream

abbrev pub next_read : TcpStream → ReadEvent × TcpStream
next_read closed = (received [], closed)
next_read (broken e) = (failed e, broken e)
next_read (late s) = (elapsed, s)
next_read (chunk bytes s) = (received bytes, s)

-- A read into a buffer with room for some bytes: what is over stays for the next read.
abbrev pub next_read_into : ℕ → TcpStream → ReadEvent × TcpStream
next_read_into room closed = (received [], closed)
next_read_into room (broken e) = (failed e, broken e)
next_read_into room (late s) = (elapsed, s)
next_read_into room (chunk bytes s) =
    if leb (length bytes) room
    then (received bytes, s)
    else (received (take room bytes), chunk (drop room bytes) s)

-- All bytes that the connection brings
abbrev pub bytes_of : TcpStream → List ℕ
bytes_of closed = []
bytes_of (broken e) = []
bytes_of (late s) = bytes_of s
bytes_of (chunk bytes s) = bytes ++ bytes_of s

-- The listening socket, with what its `local_addr` gives
pub record TcpListener : Type 0 where
  pub bound_to : Outcome SocketAddr IoError

-- What a poll of the write half gives: a number of bytes taken (none for a flush or a shutdown), an
-- error, or nothing yet
pub data WriteEvent : Type 0 where
  wrote : ℕ → WriteEvent
  write_failed : IoError → WriteEvent
  write_pending : WriteEvent

-- The write half of tokio's `TcpStream`. The laws are that the two directions of a TCP connection
-- are independent: no write changes what the reads give.
pub record TcpWrites : Type 0 where
  pub inner_write : List ℕ → TcpStream → WriteEvent × TcpStream
  pub inner_flush : TcpStream → WriteEvent × TcpStream
  pub inner_shutdown : TcpStream → WriteEvent × TcpStream
  pub write_law : (buf : List ℕ) (s : TcpStream) → (inner_write buf s).1 ≡ s
  pub flush_law : (s : TcpStream) → (inner_flush s).1 ≡ s
  pub shutdown_law : (s : TcpStream) → (inner_shutdown s).1 ≡ s
