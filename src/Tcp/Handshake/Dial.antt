-- ===== src/Tcp/Handshake/Dial.antt =====
-- src/tcp_proxy.c and src/netutils.c: the connection to a server, over what the system answers. Of
-- an error, the model keeps whether it is the node's, that is not a local one.
use tproxy2ss.Base.{ℕ, Bool, true, false, ◌&&◌, not, Option, none, some, ltb, if◌then◌else◌}

-- What `send` answers: EINTR or EAGAIN, another error, by whether it is the node's, or a number
-- of bytes.
pub data Queued : Type 0 where
  later : Queued
  refused : Bool → Queued
  accepted : ℕ → Queued

-- What a socket that is done connecting answers: its error, by whether it is the node's, and the
-- answer to the first `send`
pub record Established : Type 0 where
  pub socket_error : Option Bool
  pub answer : Queued

-- What `tcp_handshake_connect_server` answers: no socket, by whether that is the node's failure,
-- or a socket that is connecting or connected, with the bytes that were sent by fast open.
pub data Connect : Type 0 where
  failed : Bool → Connect
  in_progress : Option ℕ → Connect
  connected : Option ℕ → Established → Connect

-- What `sendto` with MSG_FASTOPEN answers: a number of bytes, EINPROGRESS, an error behind which
-- the code connects without data, or another error, by whether it is the node's
pub data FastOpen : Type 0 where
  opened_with : ℕ → FastOpen
  opening : FastOpen
  unavailable : FastOpen
  rejected : Bool → FastOpen

-- What `connect` answers: success, EINPROGRESS, or another error, by whether it is the node's
pub data PlainConnect : Type 0 where
  done : PlainConnect
  pending : PlainConnect
  denied : Bool → PlainConnect

-- Whether a socket is made, whether OPT_ENABLE_TFO_CONNECT is set, and the answers of the system
pub record Dial : Type 0 where
  pub socket_made : Bool
  pub fast_open : Bool
  pub sendto_answer : FastOpen
  pub connect_answer : PlainConnect
  pub established : Established

-- `tcp_connect_result_t`, with the `errno` of a failure and `tfo_nsend`, which is -1 as `none`
pub data ConnectResult : Type 0 where
  connect_failed : Bool → ConnectResult
  connect_in_progress : Option ℕ → ConnectResult
  connect_connected : ConnectResult

unfoldable pub tcp_plain_connect : PlainConnect → ConnectResult
tcp_plain_connect done = connect_connected
tcp_plain_connect pending = connect_in_progress none
tcp_plain_connect (denied node) = connect_failed node

-- `tcp_connect` with data to send
unfoldable pub fast_connect : FastOpen → PlainConnect → ConnectResult
fast_connect (opened_with n) plain = connect_in_progress (some n)
fast_connect opening plain = connect_in_progress none
fast_connect unavailable plain = tcp_plain_connect plain
fast_connect (rejected node) plain = connect_failed node

-- `tcp_connect`, by whether there are data to send
unfoldable pub tcp_connect : Bool → FastOpen → PlainConnect → ConnectResult
tcp_connect true fast plain = fast_connect fast plain
tcp_connect false fast plain = tcp_plain_connect plain

unfoldable pub connect_of : Established → ConnectResult → Connect
connect_of e (connect_failed node) = failed node
connect_of e (connect_in_progress nsend) = in_progress nsend
connect_of e connect_connected = connected none e

-- `tcp_handshake_connect_server`, with the length of the request header
unfoldable pub connect_server : Dial → ℕ → Connect
connect_server d len =
    if not d.socket_made
    then failed false
    else connect_of d.established
        (tcp_connect (d.fast_open && ltb 0 len) d.sendto_answer d.connect_answer)
