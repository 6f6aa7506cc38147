-- ===== src/Tests/Wire.antt =====
-- A connection that delivers at most three bytes at a time, and encodings of the messages that the
-- examples use, each in one byte.
use text.Mathlib.Text.{◌==◌ as str_eq}
use Prim.Native.Nat.{min}
use iperf3_rust.Common.{
  ℕ, zero, suc, ◌+◌, ◌*◌, ◌/◌, ◌%◌, ◌^◌, ◌≤◌, ◌<◌, ◌≡◌, ◌≢◌, refl, ap, true, false, Option, some,
  none, [], ◌∷◌, ◌++◌, length, take, drop, append_take-drop, if◌then◌else◌, arith, ◌==◌,
}
use iperf3_rust.Common.HashMap.{HashMap}
use iperf3_rust.Message.{
  Direction, Parameters, StreamStats, State, ClientMessage, ServerMessage, ClientEnvelope,
  ServerEnvelope, perf_test_already_in_flight,
}
use iperf3_rust.Error.{unexpected_eof, Io, done, failed}
use iperf3_rust.Net.Interface.{Bytes, Net, Behaves}

pub record Pipe : Type 0 where
  pub incoming : Bytes
  pub outgoing : Bytes

abbrev pub be_bytes : ℕ → Bytes
be_bytes v = (v / 2 ^ 24 % 256) ∷ (v / 2 ^ 16 % 256) ∷ (v / 2 ^ 8 % 256) ∷ (v % 256) ∷ []

abbrev pub be_value : ℕ → ℕ → ℕ → ℕ → ℕ
be_value a b c d = (((a * 256 + b) * 256 + c) * 256 + d) % 2 ^ 32

abbrev pub get_be : Bytes → Option (ℕ × Bytes)
get_be (a ∷ b ∷ c ∷ d ∷ rest) = some (be_value a b c d, rest)
get_be _ = none

abbrev read_be : Option (ℕ × Bytes) → Pipe → Io ℕ × Pipe
read_be none p = (failed unexpected_eof, p)
read_be (some (v, rest)) p = (done v, record p { incoming = rest })

abbrev pub sample_parameters : Parameters
sample_parameters = record {
  prefer_ipv6 = false;
  direction = Direction.bidirectional;
  duration = 10;
  parallel = 1;
  client_version = "0.1.0";
  block_size = 2097152;
  no_delay = false;
  socket_buffers = none;
  mss = none;
  interval = 1;
  max_length = some 100;
}

abbrev pub sample_stats : ℕ → StreamStats
sample_stats id = record {
  id = id;
  index = none;
  duration = 10000;
  bytes_transferred = 4096;
  retransmits = some 0;
  cwnd = some 14480;
  is_sending = true;
  is_peer = false;
  is_summary = true;
}

abbrev pub two_results : HashMap StreamStats
two_results = (0, sample_stats 0) ∷ (1, sample_stats 1) ∷ []

abbrev encode_client : ClientEnvelope → Option Bytes
encode_client (ClientEnvelope.message (ClientMessage.hello cookie)) =
    some (if str_eq cookie "ours" then 1 ∷ [] else 2 ∷ [])
encode_client (ClientEnvelope.message (ClientMessage.send_parameters p)) = some (3 ∷ [])
encode_client (ClientEnvelope.message (ClientMessage.send_results r)) =
    some (if length r == 2 then 8 ∷ [] else 4 ∷ [])
encode_client (ClientEnvelope.error e) = none

abbrev client_at : ℕ → Option ClientEnvelope
client_at (suc zero) = some (ClientEnvelope.message (ClientMessage.hello "ours"))
client_at (suc (suc zero)) = some (ClientEnvelope.message (ClientMessage.hello "theirs"))
client_at (suc (suc (suc zero))) =
    some (ClientEnvelope.message (ClientMessage.send_parameters sample_parameters))
client_at (suc (suc (suc (suc zero)))) =
    some (ClientEnvelope.message (ClientMessage.send_results ((0, sample_stats 0) ∷ [])))
client_at (suc (suc (suc (suc (suc (suc (suc (suc zero)))))))) =
    some (ClientEnvelope.message (ClientMessage.send_results two_results))
client_at _ = none

abbrev server_message_code : ServerMessage → ℕ
server_message_code ServerMessage.welcome = 1
server_message_code (ServerMessage.set_state State.running) = 2
server_message_code (ServerMessage.set_state State.exchange_results) = 3
server_message_code (ServerMessage.set_state (State.create_streams cookie)) = 6
server_message_code (ServerMessage.set_state State.terminate) = 7
server_message_code (ServerMessage.set_state _) = 9
server_message_code (ServerMessage.send_results r) = if length r == 2 then 8 else 4

abbrev encode_server : ServerEnvelope → Option Bytes
encode_server (ServerEnvelope.message m) = some (server_message_code m ∷ [])
encode_server (ServerEnvelope.error perf_test_already_in_flight) = some (5 ∷ [])

abbrev server_at : ℕ → Option ServerEnvelope
server_at (suc zero) = some (ServerEnvelope.message ServerMessage.welcome)
server_at (suc (suc zero)) = some (ServerEnvelope.message (ServerMessage.set_state State.running))
server_at (suc (suc (suc zero))) =
    some (ServerEnvelope.message (ServerMessage.set_state State.exchange_results))
server_at (suc (suc (suc (suc zero)))) =
    some (ServerEnvelope.message (ServerMessage.send_results ((1, sample_stats 1) ∷ [])))
server_at (suc (suc (suc (suc (suc zero))))) =
    some (ServerEnvelope.error perf_test_already_in_flight)
server_at (suc (suc (suc (suc (suc (suc zero)))))) =
    some (ServerEnvelope.message (ServerMessage.set_state (State.create_streams "ours")))
server_at (suc (suc (suc (suc (suc (suc (suc zero))))))) =
    some (ServerEnvelope.message (ServerMessage.set_state State.terminate))
server_at (suc (suc (suc (suc (suc (suc (suc (suc zero)))))))) =
    some (ServerEnvelope.message (ServerMessage.send_results two_results))
server_at _ = none

abbrev at_one : {A : Type 0} → (ℕ → Option A) → Bytes → Option A
at_one f (x ∷ []) = f x
at_one f _ = none

abbrev read_three : ℕ → Pipe → Io Bytes × Pipe
read_three limit p =
    (done (take (min limit 3) p.incoming), record p { incoming = drop (min limit 3) p.incoming })

abbrev pub pipes : Net
pipes = record {
  Stream = Pipe;
  read_u32 = λ p. read_be (get_be p.incoming) p;
  read_buf = read_three;
  read = read_three;
  write_all = λ bs p. (done tt, record p { outgoing = p.outgoing ++ bs });
  put_u32 = be_bytes;
  client_codec = record { to_vec = encode_client; from_slice = at_one client_at };
  server_codec = record { to_vec = encode_server; from_slice = at_one server_at };
}

pub be_value-be_bytes :
    (v : ℕ)
    → v < 2 ^ 32
    → be_value (v / 2 ^ 24 % 256) (v / 2 ^ 16 % 256) (v / 2 ^ 8 % 256) (v % 256) ≡ v
be_value-be_bytes v h = omega arith

pub get_be_short : (bs : Bytes) → length bs < 4 → get_be bs ≡ none
get_be_short [] h = refl
get_be_short (a ∷ []) h = refl
get_be_short (a ∷ b ∷ []) h = refl
get_be_short (a ∷ b ∷ c ∷ []) h = refl
get_be_short (a ∷ b ∷ c ∷ d ∷ rest) h = absurd (omega arith)

pub get_be_rest :
    (bs : Bytes) (v : ℕ) (rest : Bytes)
    → get_be bs ≡ some (v, rest)
    → (v < 2 ^ 32) × (length bs ≡ 4 + length rest)
get_be_rest [] v rest e = absurd (ground arith)
get_be_rest (a ∷ []) v rest e = absurd (ground arith)
get_be_rest (a ∷ b ∷ []) v rest e = absurd (ground arith)
get_be_rest (a ∷ b ∷ c ∷ []) v rest e = absurd (ground arith)
get_be_rest (a ∷ b ∷ c ∷ d ∷ tail) v rest e = ground arith

pub length-take_le : (k : ℕ) (bs : Bytes) → length (take k bs) ≤ k
length-take_le zero bs = omega arith
length-take_le (suc k) [] = omega arith
length-take_le (suc k) (x ∷ bs) = omega (arith, length-take_le k bs)

pub length-take_pos : (k : ℕ) (bs : Bytes) → 0 < k → bs ≢ [] → 0 < length (take k bs)
length-take_pos zero bs h ne = absurd (omega arith)
length-take_pos (suc k) [] h ne = absurd (ne refl)
length-take_pos (suc k) (x ∷ bs) h ne = omega arith

abbrev pub pipes-Behaves : Behaves pipes
pipes-Behaves = record {
  IsUp = λ p. Unit;
  pending = λ p. p.incoming;
  written = λ p. p.outgoing;
  get_u32 = get_be;
  get_u32_short = get_be_short;
  get_u32_rest = get_be_rest;
  get_u32-put_u32 = λ v rest h. ap (λ x. some (x, rest)) (be_value-be_bytes v h);
  read_u32_eof = λ s up e. (s, rw e refl);
  read_u32_done = λ s v rest up e. (record s { incoming = rest }, rw e refl, tt, refl, refl);
  read_buf_done = λ limit s up h. (
    take (min limit 3) s.incoming,
    record s { incoming = drop (min limit 3) s.incoming },
    refl,
    tt,
    append_take-drop (min limit 3) s.incoming,
    omega (arith, length-take_le (min limit 3) s.incoming),
    length-take_pos (min limit 3) s.incoming (omega arith),
    refl,
  );
  read_done = λ limit s up h. (
    take (min limit 3) s.incoming,
    record s { incoming = drop (min limit 3) s.incoming },
    refl,
    tt,
    append_take-drop (min limit 3) s.incoming,
    length-take_pos (min limit 3) s.incoming (omega arith),
    refl,
  );
  write_all_done = λ bs s up. (record s { outgoing = s.outgoing ++ bs }, refl, tt, refl, refl);
}
