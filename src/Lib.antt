-- ===== src/Lib.antt =====
-- iperf3-rust measures the throughput between a client and a server over TCP. The server accepts a
-- control connection, greets the client and gets the parameters of a test; then the client opens
-- data streams, which workers on both sides fill or drain for the time of the test; at the end the
-- two sides exchange their results over the control connection. This library models the program's
-- own logic and proves properties of it.
--
--   Constant             src/constant.rs
--   Message              src/message.rs, with src/opts.rs in Message.Opts and the two errors of
--                        src/error.rs that travel to the peer
--   Error, Outcome       src/error.rs; the result of an operation and the state monad over it
--   Net                  src/net_util.rs: Frame has `write_control_message` and
--                        `read_control_message`, Messages the functions of the two sides;
--                        Interface is what is used of tokio, bytes and serde_json, and
--                        Specification says what a reader makes of the bytes on the wire
--   Socket, Linux        `new_socket` and `TcpStreamExt` of src/net_util.rs, and
--                        src/net_util_linux.rs
--   Host                 what is used of tokio's tasks and channels and of the system
--   Perf                 src/perf.rs
--   Controller           src/controller.rs: State has the struct, Streams the creation of data
--                        streams, Results their results, Run the loop; Machine is an abstract
--                        machine that each pass of the loop is compared with; the other children
--                        prove
--   Worker               src/stream_workers.rs: Meter has the statistics, Loop has `run_worker`;
--                        Task the task round it, Drain the one that it leaves behind; the other
--                        children prove
--   Server, Client       src/server.rs: Handshake and Accept have the definitions, the accept loop
--                        and `start_server` included; src/client.rs
--   Ui                   src/ui.rs: the quantities, over an interface for `f64`; Lines has what is
--                        printed, with `run_client` and `run_server`
--   Main                 src/main.rs, over an interface for the broadcast channel of the shutdown
--   Common               lists, tests, and `HashMap` as an association list
--   Tests                a concrete connection and host, and the theorems at concrete inputs
--
-- An `async fn` on `&mut self` is an `Action`: a function from the state to a result and the new
-- state, where `?` is the bind of the monad and leaves done what was done. A failed `assert!` or
-- `expect` is `panic`. Each point where the program waits for something outside is an input: a
-- `Turn` of the controller's loop says which branch of `select!` is ready and with what, a `Round`
-- of a worker's loop has the clock, the signal, the transfer and what becomes of a report. Theorems
-- hold for all inputs, so for all orders of events. The operating system and the tasks and channels
-- of tokio are the `World` of `Host`, which is handed from call to call. Names are those of the
-- source, in snake_case.
--
-- What other packages do is a parameter. `Net.Interface.Net` has the operations on a connection
-- and the two encodings, and `Behaves` the documented behaviour of a connection that works: a read
-- takes some of the pending bytes, at most as many as asked for, and none only at the end; a write
-- adds its bytes. `Fits` says of one message that it has a payload that decodes to it and is not
-- larger than a reader takes. `Cooperates` and `Reaches` say the same of the system: signals are
-- heard, workers end with a result, reports are taken; sockets are made, and connections lead to a
-- server that greets. Tests.Wire and Tests.Desk have instances; the connection of Tests.Wire
-- delivers at most three bytes in one read.
--
-- Numbers are natural numbers, with the wrap-around of the source's type written out where it
-- computes: a release build, in which overflow wraps. `usize` has 64 bits, and the platform is
-- Linux. The loop that reads a payload has as many rounds as the payload has bytes, which is
-- enough since each round gets one or fails. The loop that connects streams has as many rounds as
-- there are streams. A read of the control socket that the client's `select!` drops is an input of
-- the pass too: how much it had taken, of the length or of the payload. The loops of the controller
-- and of a worker run on the inputs that are given; `hang` says that they are used up, or that the
-- program waits for ever: a server for its control socket, a worker for a full channel.
--
-- Not modelled: logging, command-line parsing, `ctrl_c` itself, and the text of errors.
pub mod Common
pub mod Constant
pub mod Message
pub mod Error
pub mod Outcome
pub mod Net
pub mod Host
pub mod Perf
pub mod Socket
pub mod Controller
pub mod Linux
pub mod Worker
pub mod Ui
pub mod Client
pub mod Server
pub mod Main
pub mod Tests
