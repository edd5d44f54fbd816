-- ===== src/Stream/Polling.antt =====
-- Polls of the stream of stream.rs, reads and writes in any order.
use proxy_protocol_rs.Prelude.{
  ℕ, ◌≡◌, refl, ap, ◌∙◌, List, [], ◌∷◌, ◌++◌, append_assoc, drop, Outcome, ok, ◌>>=◌,
}
use proxy_protocol_rs.Incoming.{TcpStream, TcpWrites, bytes_of}
use proxy_protocol_rs.Stream.{ProxiedStream, poll_read, poll_write, poll_flush, poll_shutdown}
use proxy_protocol_rs.Stream.Reading.{IsStream, unread, event_bytes, poll_read-unread}

-- A poll by the stream's owner: a read with some room in its buffer, a write, a flush or a shutdown
pub data Poll : Type 0 where
  read : (room : ℕ) → Poll
  write : (buf : List ℕ) → Poll
  flush shutdown : Poll

-- What polls on `s` that delivered `bytes` and came to `s'` keep
pub record Keeps (s : ProxiedStream) (bytes : List ℕ) (s' : ProxiedStream) : Type 0 where
  pub well : IsStream s'
  pub in_order : bytes ++ unread s' ≡ unread s
  pub same_info : s'.proxy_info ≡ s.proxy_info
  pub same_peer : s'.peer_addr ≡ s.peer_addr

module _ (w : TcpWrites) where
  -- The bytes that a poll delivers, and the stream after it
  unfoldable pub poll_once : Poll → ProxiedStream → Outcome (List ℕ × ProxiedStream) ⊥
  unfolding poll_read poll_write poll_flush poll_shutdown
  poll_once (read room) s = do (event, s') ← poll_read room s; ok (event_bytes event, s')
  poll_once (write buf) s = ok ([], (poll_write w buf s).1)
  poll_once flush s = ok ([], (poll_flush w s).1)
  poll_once shutdown s = ok ([], (poll_shutdown w s).1)

  unfoldable pub poll_all : List Poll → ProxiedStream → Outcome (List ℕ × ProxiedStream) ⊥
  unfolding poll_once
  poll_all [] s = ok ([], s)
  poll_all (p ∷ ps) s = do
    (bytes, s') ← poll_once p s
    (rest, s'') ← poll_all ps s'
    ok (bytes ++ rest, s'')

  inner-Keeps :
      (s : ProxiedStream) (inner' : TcpStream)
      → inner' ≡ s.inner
      → IsStream s
      → Keeps s [] (record s { inner = inner' })
  inner-Keeps s inner' e h = record {
    well = h;
    in_order = ap (λ q. drop s.position s.leftover ++ bytes_of q) e;
    same_info = refl;
    same_peer = refl;
  }

  poll_once-Keeps :
      (p : Poll) (s : ProxiedStream)
      → IsStream s
      → (bytes : List ℕ) × (s' : ProxiedStream) × (poll_once p s ≡ ok (bytes, s'))
        × Keeps s bytes s'
  unfolding poll_once
  poll_once-Keeps (read room) s h =
      let (event, s', e, well, order, room_kept, left, info, peer) = poll_read-unread room s h in
      (
        event_bytes event,
        s',
        rw e,
        record { well = well; in_order = order; same_info = info; same_peer = peer },
      )
  poll_once-Keeps (write buf) s h =
      ([], (poll_write w buf s).1, refl, inner-Keeps s _ (w.write_law buf s.inner) h)
  poll_once-Keeps flush s h =
      ([], (poll_flush w s).1, refl, inner-Keeps s _ (w.flush_law s.inner) h)
  poll_once-Keeps shutdown s h =
      ([], (poll_shutdown w s).1, refl, inner-Keeps s _ (w.shutdown_law s.inner) h)

-- Whatever polls the owner of a stream makes, reads with any room, writes, flushes and a shutdown in
-- any order: none panics, and the bytes delivered, followed by what the stream has then still to
-- deliver, are what it had to deliver. So a write between two reads neither loses nor reorders a
-- byte. The header's metadata and the peer stay as they are.
pub poll_all-Keeps :
    (w : TcpWrites) (ps : List Poll) (s : ProxiedStream)
    → IsStream s
    → (bytes : List ℕ) × (s' : ProxiedStream) × (poll_all w ps s ≡ ok (bytes, s'))
      × Keeps s bytes s'
unfolding poll_all
poll_all-Keeps w [] s h =
    ([], s, refl, record { well = h; in_order = refl; same_info = refl; same_peer = refl })
poll_all-Keeps w (p ∷ ps) s h =
    let (bytes, s', e, k) = poll_once-Keeps w p s h in
    let (rest, s'', e', k') = poll_all-Keeps w ps s' k.well in
    (
      bytes ++ rest,
      s'',
      rw (e, e'),
      record {
        well = k'.well;
        in_order =
            append_assoc bytes rest (unread s'') ∙ (ap (λ q. bytes ++ q) k'.in_order ∙ k.in_order);
        same_info = k'.same_info ∙ k.same_info;
        same_peer = k'.same_peer ∙ k.same_peer;
      },
    )
