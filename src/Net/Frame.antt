-- ===== src/Net/Frame.antt =====
-- `write_control_message` and `read_control_message`: a payload behind its length.
use iperf3_rust.Common.{
  ℕ, zero, suc, ◌+◌, ◌-◌, ◌%◌, ◌^◌, true, false, [], ◌++◌, Option, none, some, length, ltb, leb,
  ◌==◌, if◌then◌else◌,
}
use iperf3_rust.Constant.{max_control_message_size}
use iperf3_rust.Error.{
  Io, done, failed, NetUtilError, serialize_error, control_message_too_large,
  connection_was_closed_by_peer,
}
use iperf3_rust.Outcome.{
  Result, ok, err, hang, Action, continue_with, ◌>>=◌, ◌>>◌, pure, throw, assert,
}
use iperf3_rust.Net.Interface.{Bytes, Codec, Net}

-- `?` on an `io::Result`.
abbrev pub from_io : {S A : Type 0} → Io A × S → Result NetUtilError A × S
from_io (done a, s) = (ok a, s)
from_io (failed e, s) = (err (NetUtilError.io_error e), s)

-- `?` on a `serde_json::Result`.
abbrev pub from_serde : {S A : Type 0} → Option A → Action NetUtilError S A
from_serde (some a) = pure a
from_serde none = throw serialize_error

-- `a -= b` on `u64`.
abbrev pub sub_u64 : ℕ → ℕ → ℕ
sub_u64 a b = (a + 2 ^ 64 - b) % 2 ^ 64

-- How far a read of a control message is: so many reads within the length, or within the payload.
pub data Progress : Type 0 where
  in_length in_payload : (reads : ℕ) → Progress

module _ (n : Net) where
  open n use {Stream}

  unfoldable pub write_control_message :
      {A : Type 0} → Codec A → A → Action NetUtilError Stream (Unit {0})
  write_control_message codec message = do
    payload ← from_serde (codec.to_vec message)
    assert (leb (length payload) (2 ^ 32 - 1))
    λ s. from_io (n.write_all (n.put_u32 (length payload % 2 ^ 32) ++ payload) s)

  -- `while remaining_bytes > 0`, for at most `fuel` rounds: the bytes that are in `buf` in the end.
  unfoldable pub read_body : (fuel remaining_bytes : ℕ) → Bytes → Action NetUtilError Stream Bytes
  read_body zero remaining_bytes buf s = (if ltb 0 remaining_bytes then hang else ok buf, s)
  read_body (suc fuel) remaining_bytes buf s = elim (ltb 0 remaining_bytes) [
    | false ↦ (ok buf, s)
    | true ↦ continue_with (from_io (n.read_buf remaining_bytes s)) λ bytes s'.
        elim (length bytes == 0) [
          | true ↦ (err connection_was_closed_by_peer, s')
          | false ↦ read_body fuel (sub_u64 remaining_bytes (length bytes)) (buf ++ bytes) s'
        ]
  ]

  -- What follows once the length is known and allowed.
  unfoldable pub read_payload : {A : Type 0} → Codec A → ℕ → Action NetUtilError Stream A
  read_payload codec message_size = do
    buf ← read_body message_size message_size []
    assert (message_size == length buf)
    from_serde (codec.from_slice buf)

  unfoldable pub read_control_message : {A : Type 0} → Codec A → Action NetUtilError Stream A
  read_control_message codec = do
    message_size ← λ s. from_io (n.read_u32 s)
    if ltb max_control_message_size message_size
        then throw (control_message_too_large message_size)
        else read_payload codec message_size

  -- What a `read_control_message` leaves that is dropped, by a `select!` of which another branch is
  -- ready: what it took is lost. `read_u32` may have made so many reads for the bytes that it still
  -- misses of its four; or the length is there, and so many reads of the payload are.
  unfoldable pub dropped_length : (reads missing : ℕ) → Stream → Stream
  dropped_length zero missing s = s
  dropped_length (suc reads) zero s = s
  dropped_length (suc reads) (suc missing) s =
      let (r, s') = n.read (suc missing) s in
      elim r [ done bytes ↦ dropped_length reads (suc missing - length bytes) s' | failed e ↦ s' ]

  unfoldable pub dropped_body : (reads remaining_bytes : ℕ) → Stream → Stream
  dropped_body zero remaining_bytes s = s
  dropped_body (suc reads) remaining_bytes s =
      let (r, s') = n.read_buf remaining_bytes s in
      elim r [
        | done bytes ↦ dropped_body reads (sub_u64 remaining_bytes (length bytes)) s'
        | failed e ↦ s'
      ]

  unfoldable pub dropped_read : Progress → Stream → Stream
  unfolding dropped_length dropped_body
  dropped_read (in_length reads) s = dropped_length reads 4 s
  dropped_read (in_payload reads) s =
      let (r, s') = n.read_u32 s in
      elim r [ done message_size ↦ dropped_body reads message_size s' | failed e ↦ s' ]
