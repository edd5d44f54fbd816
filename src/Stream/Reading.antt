-- ===== src/Stream/Reading.antt =====
-- Reading from the stream of stream.rs.
use proxy_protocol_rs.Prelude.{
  ℕ, ◌+◌, ◌-◌, ◌≤◌, ◌<◌, ◌≡◌, refl, ap, inl, inr, min, leb, leb→le, ltb, ltb→lt, le→leb, Bool-cases,
  List, [], ◌++◌, length, take, drop, slice_lem, take-append-drop, append_assoc, drop-drop,
  drop_all, length-take, ok, arith,
}
use proxy_protocol_rs.Incoming.{
  ReadEvent, received, failed, elapsed, TcpStream, closed, broken, late, chunk, next_read_into,
  bytes_of,
}
use proxy_protocol_rs.Stream.{ProxiedStream, poll_read}

-- The position stands in the leftover bytes.
abbrev pub IsStream : ProxiedStream → Type 0
IsStream s = s.position ≤ length s.leftover

-- The bytes that a stream has still to deliver
abbrev pub unread : ProxiedStream → List ℕ
unread s = drop s.position s.leftover ++ bytes_of s.inner

-- The bytes of a read
abbrev pub event_bytes : ReadEvent → List ℕ
event_bytes (received bytes) = bytes
event_bytes (failed e) = []
event_bytes elapsed = []

next_read_into-bytes :
    (room : ℕ) (s : TcpStream)
    → event_bytes (next_read_into room s).0 ++ bytes_of (next_read_into room s).1 ≡ bytes_of s
next_read_into-bytes room closed = refl
next_read_into-bytes room (broken e) = refl
next_read_into-bytes room (late s) = refl
next_read_into-bytes room (chunk bytes s) = elim (Bool-cases (leb (length bytes) room)) [
  | inl e ↦ rw e
  | inr e ↦
      rw (e, ← append_assoc (take room bytes) (drop room bytes) (bytes_of s))
        (ap (λ q. q ++ bytes_of s) (take-append-drop room bytes))
]

next_read_into-room :
    (room : ℕ) (s : TcpStream) → length (event_bytes (next_read_into room s).0) ≤ room
next_read_into-room room closed = omega arith
next_read_into-room room (broken e) = omega arith
next_read_into-room room (late s) = omega arith
next_read_into-room room (chunk bytes s) = elim (Bool-cases (leb (length bytes) room)) [
  | inl e ↦ rw e (leb→le (length bytes) room e)
  | inr e ↦ rw e (omega (arith, length-take room bytes))
]

-- Bytes taken at a position, and those behind them
taken :
    (xs more : List ℕ) (p n k : ℕ)
    → n ≡ k
    → take n (drop p xs) ++ (drop (p + k) xs ++ more) ≡ drop p xs ++ more
taken xs more p n k e =
    rw (e, ← drop-drop k p xs, ← append_assoc (take k (drop p xs)) (drop k (drop p xs)) more)
      (ap (λ q. q ++ more) (take-append-drop k (drop p xs)))

delegate :
    (room : ℕ) (xs : List ℕ) (p : ℕ) (s : TcpStream)
    → length xs ≤ p
    → event_bytes (next_read_into room s).0 ++ (drop p xs ++ bytes_of (next_read_into room s).1)
      ≡ drop p xs ++ bytes_of s
delegate room xs p s h = rw (drop_all xs p h) (next_read_into-bytes room s)

-- `poll_read` on a stream whose position stands in its leftover bytes does not panic. It delivers
-- the next bytes of the stream in order: what it puts in the buffer, followed by what the stream has
-- then to deliver, is what the stream had to deliver, and it is no more than the buffer has room for.
-- While there are leftover bytes, the connection is not read. The metadata stays as it is.
pub poll_read-unread :
    (room : ℕ) (s : ProxiedStream)
    → IsStream s
    → (event : ReadEvent) × (s' : ProxiedStream) × (poll_read room s ≡ ok (event, s'))
      × IsStream s'
      × (event_bytes event ++ unread s' ≡ unread s)
      × (length (event_bytes event) ≤ room)
      × (s.position < length s.leftover → s'.inner ≡ s.inner)
      × (s'.proxy_info ≡ s.proxy_info)
      × (s'.peer_addr ≡ s.peer_addr)
unfolding poll_read
poll_read-unread room s h = elim (Bool-cases (ltb 0 (length s.leftover - s.position))) [
  | inl some_left ↦
      let k = min (length s.leftover - s.position) room in
      let lt = ltb→lt 0 (length s.leftover - s.position) some_left in
      (
        received (take (s.position + k - s.position) (drop s.position s.leftover)),
        record s { position = s.position + k },
        rw (
          le→leb _ _ h,
          some_left,
          slice_lem {E = ⊥} s.leftover s.position (s.position + k) (omega arith) (omega arith),
        ),
        omega arith,
        taken s.leftover (bytes_of s.inner) s.position _ k (omega arith),
        omega (arith, length-take (s.position + k - s.position) (drop s.position s.leftover)),
        λ q. refl,
        refl,
        refl,
      )
  | inr none_left ↦ (
    (next_read_into room s.inner).0,
    record s { inner = (next_read_into room s.inner).1 },
    rw (le→leb _ _ h, none_left),
    h,
    delegate room s.leftover s.position s.inner (ground arith),
    next_read_into-room room s.inner,
    λ q. absurd (ground arith),
    refl,
    refl,
  )
]
