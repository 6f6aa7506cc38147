-- ===== src/Net/Specification.antt =====
-- A control message on the wire, independently of how the bytes arrive: a frame is the length of
-- a payload and the payload, and `parse_frame` says what a reader makes of the bytes sent to it.
use iperf3_rust.Common.{
  ℕ, ◌≤◌, ◌≡◌, ◌++◌, Option, none, some, length, take, drop, ltb, if◌then◌else◌,
}
use iperf3_rust.Constant.{max_control_message_size}
use iperf3_rust.Error.{
  unexpected_eof, NetUtilError, serialize_error, control_message_too_large,
  connection_was_closed_by_peer,
}
use iperf3_rust.Outcome.{Result, ok, err}
use iperf3_rust.Net.Interface.{Bytes, Codec, Encodes, Net, Behaves}

abbrev pub frame : Net → Bytes → Bytes
frame n payload = n.put_u32 (length payload) ++ payload

abbrev pub decode : {A : Type 0} → Codec A → Bytes → Result NetUtilError A
decode c payload = elim (c.from_slice payload) [ some a ↦ ok a | none ↦ err serialize_error ]

-- The result, and what is left for the next read if the whole frame was there.
abbrev pub parse_payload :
    {A : Type 0} → Codec A → Option (ℕ × Bytes) → Result NetUtilError A × Option Bytes
parse_payload c none = (err (NetUtilError.io_error unexpected_eof), none)
parse_payload c (some (size, rest)) =
    if ltb max_control_message_size size
    then (err (control_message_too_large size), none)
    else if ltb (length rest) size
    then (err connection_was_closed_by_peer, none)
    else (decode c (take size rest), some (drop size rest))

abbrev pub parse_frame :
    {n : Net} {A : Type 0} → Behaves n → Codec A → Bytes → Result NetUtilError A × Option Bytes
parse_frame b c bs = parse_payload c (b.get_u32 bs)

-- What a read that got a whole frame leaves: the bytes behind it, and nothing written.
abbrev pub Leaves : {n : Net} → Behaves n → Option Bytes → n.Stream → n.Stream → Type 0
Leaves b none s s' = Unit {0}
Leaves b (some rest) s s' = b.IsUp s' × (b.pending s' ≡ rest) × (b.written s' ≡ b.written s)

-- What a write leaves: one more frame written, and nothing read.
abbrev pub Sent : {n : Net} → Behaves n → Bytes → n.Stream → n.Stream → Type 0
Sent {n} b payload s s' =
    b.IsUp s' × (b.pending s' ≡ b.pending s) × (b.written s' ≡ b.written s ++ frame n payload)

-- The payload of a value, within what a reader takes.
abbrev pub Fits : {A : Type 0} → Codec A → A → Bytes → Type 0
Fits c a payload = Encodes c a payload × (length payload ≤ max_control_message_size)
