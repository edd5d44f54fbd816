-- ===== src/Tests/Writing.antt =====
-- Concrete inputs on which the theorem of `write_to` of builder.rs is used.
use proxy_protocol_rs.Prelude.{ℕ, refl, List, ◌++◌, ok}
use proxy_protocol_rs.Parse.Tlv.View.{View}
use proxy_protocol_rs.Builder.Writing.{AsyncWrite}

-- A `Vec<u8>` as the sink
abbrev memory : AsyncWrite
memory = record {
  Writer = List ℕ;
  written = λ w. w;
  write_all = λ bytes w. (ok tt, w ++ bytes);
  write_all_law = λ bytes w e. refl;
}
