-- ===== src/Server/Admission.antt =====
-- What becomes of a connection that reaches the server: a new test, a data stream, or a refusal.
use text.Mathlib.Text.{◌==◌ as str_eq}
use text.Mathlib.TextEquality.{eq_iff}
use iperf3_rust.Common.{
  String, ◌≡◌, ◌≢◌, refl, sym, ap, ◌∙◌, true, false, inl, inr, ◌++◌, Bool-cases,
}
use iperf3_rust.Message.{
  ClientMessage, ServerMessage, ClientEnvelope, ServerEnvelope, State, perf_test_already_in_flight,
  Parameters,
}
use iperf3_rust.Outcome.{ok}
use iperf3_rust.Net.Interface.{Bytes, Net, Behaves}
use iperf3_rust.Net.Specification.{frame, Sent, Fits}
use iperf3_rust.Net.Delivery.{
  server_write_message_done, server_write_error_done, server_read_message_done,
}
use iperf3_rust.Host.{Host, ControllerMessage}
use iperf3_rust.Client.{introduce}
use iperf3_rust.Client.Handshake.{introduce_done}
use iperf3_rust.Server.Handshake.{read_cookie, receive_parameters, reject, handle_create_stream}

str_eq-false : (cookie other : String) → cookie ≢ other → str_eq other cookie ≡ false
str_eq-false cookie other ne = elim (Bool-cases (str_eq other cookie)) [
  | inl t ↦ absurd (ne (sym ((eq_iff other cookie).0 t)))
  | inr t ↦ t
]

module _ (n : Net) (b : Behaves n) where
  open n use {Stream, client_codec, server_codec}
  open b use {IsUp, pending, written}

  -- The server's side of the handshake.
  pub receive_parameters_done :
      (cookie : String) (params : Parameters) (hello welcome parameters rest : Bytes) (s : Stream)
      → IsUp s
      → Fits client_codec (ClientEnvelope.message (ClientMessage.hello cookie)) hello
      → Fits server_codec (ServerEnvelope.message ServerMessage.welcome) welcome
      → Fits client_codec (ClientEnvelope.message (ClientMessage.send_parameters params)) parameters
      → pending s ≡ frame n hello ++ (frame n parameters ++ rest)
      → (s' : Stream) × (receive_parameters n true s ≡ (ok (cookie, params), s'))
        × (written s' ≡ written s ++ frame n welcome)
        × IsUp s'
        × (pending s' ≡ rest)
  unfolding receive_parameters read_cookie
  receive_parameters_done cookie params hello welcome parameters rest s ups fh fw fp ps =
      let (s1, r4, l4) = server_read_message_done n b hello s ups _ ps _ fh in
      let (s2, w5, o5) = server_write_message_done n b welcome s1 l4.0 _ fw in
      let (s3, r6, l6) = server_read_message_done n b parameters s2 o5.0 rest (o5.1 ∙ l4.1) _ fp in
      (
        s3,
        rw (r4, w5, r6, receive_parameters) refl,
        l6.2 ∙ o5.2 ∙ ap (λ x. x ++ frame n welcome) l4.2,
        l6.0,
        l6.1,
      )

  -- If both connections work, the three messages fit, and what each side sends stands at the head
  -- of what is pending for the other, then the client's handshake succeeds, the server has the
  -- client's cookie and parameters, and they have written exactly the hello and the parameters,
  -- and the welcome.
  handshake_agrees :
      (cookie : String) (params : Parameters) (hello welcome parameters rest rest' : Bytes)
      (c s : Stream)
      → IsUp c
      → IsUp s
      → Fits client_codec (ClientEnvelope.message (ClientMessage.hello cookie)) hello
      → Fits server_codec (ServerEnvelope.message ServerMessage.welcome) welcome
      → Fits client_codec (ClientEnvelope.message (ClientMessage.send_parameters params)) parameters
      → pending s ≡ frame n hello ++ (frame n parameters ++ rest)
      → pending c ≡ frame n welcome ++ rest'
      → (c' s' : Stream) × (introduce n cookie params c ≡ (ok tt, c'))
        × (receive_parameters n true s ≡ (ok (cookie, params), s'))
        × (written c' ≡ (written c ++ frame n hello) ++ frame n parameters)
        × (written s' ≡ written s ++ frame n welcome)
  handshake_agrees cookie params hello welcome parameters rest rest' c s upc ups fh fw fp ps pc =
      let (c', r, up, left, sent) =
        introduce_done b cookie params hello welcome parameters rest' c upc pc fh fw fp in
      let (s', r', w, up', left') =
        receive_parameters_done cookie params hello welcome parameters rest s ups fh fw fp ps in
      (c', s', r, r', sent, w)

  reject_done :
      (h : Host n) (refusal : Bytes) (s : Stream)
      → IsUp s
      → Fits server_codec (ServerEnvelope.error perf_test_already_in_flight) refusal
      → (s' : Stream) × (reject h s ≡ s') × Sent b refusal s s'
  unfolding reject
  reject_done h refusal s up fits =
      let (s', r, sent) = server_write_error_done n b refusal s up _ fits in
      (s', ap (λ x. x.1) r, sent)

  module _ (h : Host n) (sender : h.Sender) (s : Stream) (w : h.World) (up : IsUp s) where
    -- While the test waits for streams, a working connection whose pending bytes begin with a
    -- hello under the test's cookie is sent a welcome, if that fits, and is handed to the
    -- controller, with the bytes behind the hello unread.
    pub admits_own_cookie :
        (cookie : String) (hello welcome rest : Bytes)
        → Fits client_codec (ClientEnvelope.message (ClientMessage.hello cookie)) hello
        → Fits server_codec (ServerEnvelope.message ServerMessage.welcome) welcome
        → pending s ≡ frame n hello ++ rest
        → (s' : Stream) × (handle_create_stream h (State.create_streams cookie) sender (s, w)
            ≡ (ok tt, (s', h.try_send (ControllerMessage.create_stream s') sender w)))
          × (pending s' ≡ rest)
          × (written s' ≡ written s ++ frame n welcome)
    unfolding handle_create_stream read_cookie
    admits_own_cookie cookie hello welcome rest fh fw p =
        let (s1, r1, l1) = server_read_message_done n b hello s up rest p _ fh in
        let (s2, w2, o2) = server_write_message_done n b welcome s1 l1.0 _ fw in
        let same : str_eq cookie cookie ≡ true = (eq_iff cookie cookie).1 refl in
        (
          s2,
          rw (r1, same, w2, handle_create_stream) refl,
          o2.1 ∙ l1.1,
          o2.2 ∙ ap (λ x. x ++ frame n welcome) l1.2,
        )

    -- While the test waits for streams, a working connection whose pending bytes begin with a
    -- hello under another cookie is sent the refusal, if that fits, and the controller does not
    -- hear of it.
    pub refuses_other_cookie :
        (cookie other : String) (hello refusal rest : Bytes)
        → cookie ≢ other
        → Fits client_codec (ClientEnvelope.message (ClientMessage.hello other)) hello
        → Fits server_codec (ServerEnvelope.error perf_test_already_in_flight) refusal
        → pending s ≡ frame n hello ++ rest
        → (s' : Stream) × (handle_create_stream h (State.create_streams cookie) sender (s, w)
            ≡ (ok tt, (s', w)))
          × (written s' ≡ written s ++ frame n refusal)
    unfolding handle_create_stream read_cookie
    refuses_other_cookie cookie other hello refusal rest ne fh fr p =
        let (s1, r1, l1) = server_read_message_done n b hello s up rest p _ fh in
        let (s2, gone, o2) = reject_done h refusal s1 l1.0 fr in
        let differ : str_eq other cookie ≡ false = str_eq-false cookie other ne in
        (
          s2,
          rw (r1, differ, gone, handle_create_stream) refl,
          o2.2 ∙ ap (λ x. x ++ frame n refusal) l1.2,
        )

    -- While the test is in a state in which it does not wait for streams, a working connection is
    -- sent the refusal, if that fits, nothing is read from it, and the controller does not hear of
    -- it.
    pub refuses_out_of_turn :
        (state : State) (refusal : Bytes)
        → ((cookie : String) → state ≢ State.create_streams cookie)
        → Fits server_codec (ServerEnvelope.error perf_test_already_in_flight) refusal
        → (s' : Stream) × (handle_create_stream h state sender (s, w) ≡ (ok tt, (s', w)))
          × (pending s' ≡ pending s)
          × (written s' ≡ written s ++ frame n refusal)
    unfolding handle_create_stream
    refuses_out_of_turn (State.create_streams cookie) refusal ne fr = absurd (ne cookie refl)
    refuses_out_of_turn State.start refusal ne fr =
        let (s', gone, sent) = reject_done h refusal s up fr in (s', rw gone refl, sent.1, sent.2)
    refuses_out_of_turn State.running refusal ne fr =
        let (s', gone, sent) = reject_done h refusal s up fr in (s', rw gone refl, sent.1, sent.2)
    refuses_out_of_turn State.exchange_results refusal ne fr =
        let (s', gone, sent) = reject_done h refusal s up fr in (s', rw gone refl, sent.1, sent.2)
    refuses_out_of_turn State.terminate refusal ne fr =
        let (s', gone, sent) = reject_done h refusal s up fr in (s', rw gone refl, sent.1, sent.2)
