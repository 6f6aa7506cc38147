-- ===== src/Net/Interface.antt =====
-- What src/net_util.rs and src/stream_workers.rs use of tokio (`TcpStream` with `AsyncReadExt` and
-- `AsyncWriteExt`), of bytes (`BufMut`) and of serde_json, and the documented behaviour that the
-- proofs rely on.
use iperf3_rust.Common.{ℕ, ◌+◌, ◌^◌, ◌≤◌, ◌<◌, ◌≡◌, ◌≢◌, List, [], ◌++◌, Option, none, some, length}
use iperf3_rust.Message.{ClientEnvelope, ServerEnvelope}
use iperf3_rust.Error.{unexpected_eof, Io, done, failed}

abbrev pub Bytes : Type 0
Bytes = List ℕ

-- `serde_json::to_vec` and `serde_json::from_slice` at one type.
pub record Codec (A : Type 0) : Type 0 where
  pub to_vec : A → Option Bytes
  pub from_slice : Bytes → Option A

pub record Net : Type 1 where
  pub Stream : Type 0
  -- `AsyncReadExt::read_u32`
  pub read_u32 : Stream → Io ℕ × Stream
  -- `stream.take(limit).read_buf(&mut buf)`: the bytes that one call puts into the buffer.
  pub read_buf : ℕ → Stream → Io Bytes × Stream
  -- `AsyncReadExt::read` into a buffer of so many bytes.
  pub read : ℕ → Stream → Io Bytes × Stream
  -- `AsyncWriteExt::write_all`
  pub write_all : Bytes → Stream → Io (Unit {0}) × Stream
  -- The bytes that `BufMut::put_u32` appends.
  pub put_u32 : ℕ → Bytes
  pub client_codec : Codec ClientEnvelope
  pub server_codec : Codec ServerEnvelope

-- The payload that stands for a value, and that is read back as this value.
abbrev pub Encodes : {A : Type 0} → Codec A → A → Bytes → Type 0
Encodes c a payload = (c.to_vec a ≡ some payload) × (c.from_slice payload ≡ some a)

-- How a connection that works behaves. `pending` is what the peer has sent up to its end of the
-- stream and has not been read here, and `written` is what was written here.
pub record Behaves (n : Net) : Type 1 where
  pub IsUp : n.Stream → Type 0
  pub pending : n.Stream → Bytes
  pub written : n.Stream → Bytes
  -- How four bytes are read as a number, and what is behind them.
  pub get_u32 : Bytes → Option (ℕ × Bytes)
  pub get_u32_short : (bs : Bytes) → length bs < 4 → get_u32 bs ≡ none
  pub get_u32_rest :
      (bs : Bytes) (v : ℕ) (rest : Bytes)
      → get_u32 bs ≡ some (v, rest)
      → (v < 2 ^ 32) × (length bs ≡ 4 + length rest)
  pub get_u32-put_u32 :
      (v : ℕ) (rest : Bytes) → v < 2 ^ 32 → get_u32 (n.put_u32 v ++ rest) ≡ some (v, rest)
  pub read_u32_eof :
      (s : n.Stream)
      → IsUp s
      → get_u32 (pending s) ≡ none
      → (s' : n.Stream) × (n.read_u32 s ≡ (failed unexpected_eof, s'))
  pub read_u32_done :
      (s : n.Stream) (v : ℕ) (rest : Bytes)
      → IsUp s
      → get_u32 (pending s) ≡ some (v, rest)
      → (s' : n.Stream) × (n.read_u32 s ≡ (done v, s'))
        × IsUp s'
        × (pending s' ≡ rest)
        × (written s' ≡ written s)
  -- One read takes some of what is pending, at most `limit` bytes, and none only at the end.
  pub read_buf_done :
      (limit : ℕ) (s : n.Stream)
      → IsUp s
      → 0 < limit
      → (bs : Bytes) × (s' : n.Stream) × (n.read_buf limit s ≡ (done bs, s'))
        × IsUp s'
        × (pending s ≡ bs ++ pending s')
        × (length bs ≤ limit)
        × (pending s ≢ [] → 0 < length bs)
        × (written s' ≡ written s)
  pub read_done :
      (limit : ℕ) (s : n.Stream)
      → IsUp s
      → 0 < limit
      → (bs : Bytes) × (s' : n.Stream) × (n.read limit s ≡ (done bs, s'))
        × IsUp s'
        × (pending s ≡ bs ++ pending s')
        × (pending s ≢ [] → 0 < length bs)
        × (written s' ≡ written s)
  pub write_all_done :
      (bs : Bytes) (s : n.Stream)
      → IsUp s
      → (s' : n.Stream) × (n.write_all bs s ≡ (done tt, s'))
        × IsUp s'
        × (pending s' ≡ pending s)
        × (written s' ≡ written s ++ bs)
