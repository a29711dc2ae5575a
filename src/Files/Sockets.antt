-- ===== src/Files/Sockets.antt =====
-- `Socket` of api/src/file/net.rs, over the sockets of axnet. The macro `impl_socket` makes seven
-- functions that pass a call on to the socket of either kind.
use vegar.Prelude.{ℕ, Bool, Option, none, some, List, LinuxResult, ok, err, eisconn, eopnotsupp}

pub record PollState : Type 0 where
  pub readable : Bool
  pub writable : Bool

-- What a socket of one kind does to the state of the network. A buffer that is filled is the list of
-- the bytes received.
pub record Net (State : Type 0) : Type 1 where
  pub Addr : Type 0
  pub UdpSocket : Type 0
  pub TcpSocket : Type 0
  pub udp_recv_from : UdpSocket → ℕ → State → LinuxResult (List ℕ × Addr) × State
  pub udp_send : UdpSocket → List ℕ → State → LinuxResult ℕ × State
  pub udp_send_to : UdpSocket → List ℕ → Addr → State → LinuxResult ℕ × State
  pub udp_poll : UdpSocket → State → LinuxResult PollState
  pub udp_set_nonblocking : UdpSocket → Bool → State → State
  pub tcp_recv : TcpSocket → ℕ → State → LinuxResult (List ℕ) × State
  pub tcp_send : TcpSocket → List ℕ → State → LinuxResult ℕ × State
  pub tcp_listen : TcpSocket → State → LinuxResult (Unit {0}) × State
  pub tcp_accept : TcpSocket → State → LinuxResult TcpSocket × State
  pub tcp_poll : TcpSocket → State → LinuxResult PollState
  pub tcp_set_nonblocking : TcpSocket → Bool → State → State

pub data Socket {State : Type 0} (N : Net State) : Type 0 where
  udp : N.UdpSocket → Socket N
  tcp : N.TcpSocket → Socket N

-- `map` of a result.
abbrev pub mapped : {A B S : Type 0} → (A → B) → LinuxResult A × S → LinuxResult B × S
mapped f (ok a, s) = (ok (f a), s)
mapped f (err e, s) = (err e, s)

module _ {State : Type 0} (N : Net State) where
  unfoldable pub recv : Socket N → ℕ → State → LinuxResult (List ℕ) × State
  recv (udp u) len s = mapped (λ (got : List ℕ × N.Addr). got.0) (N.udp_recv_from u len s)
  recv (tcp t) len s = N.tcp_recv t len s

  unfoldable pub sendto : Socket N → List ℕ → N.Addr → State → LinuxResult ℕ × State
  sendto (udp u) buf addr s = N.udp_send_to u buf addr s
  sendto (tcp t) buf addr s = (err eisconn, s)

  unfoldable pub recvfrom : Socket N → ℕ → State → LinuxResult (List ℕ × Option N.Addr) × State
  recvfrom (udp u) len s =
      mapped (λ (got : List ℕ × N.Addr). (got.0, some got.1)) (N.udp_recv_from u len s)
  recvfrom (tcp t) len s = mapped (λ (got : List ℕ). (got, none)) (N.tcp_recv t len s)

  unfoldable pub listen : Socket N → State → LinuxResult (Unit {0}) × State
  listen (udp u) s = (err eopnotsupp, s)
  listen (tcp t) s = N.tcp_listen t s

  unfoldable pub accept : Socket N → State → LinuxResult N.TcpSocket × State
  accept (udp u) s = (err eopnotsupp, s)
  accept (tcp t) s = N.tcp_accept t s

  unfoldable pub send : Socket N → List ℕ → State → LinuxResult ℕ × State
  send (udp u) buf s = N.udp_send u buf s
  send (tcp t) buf s = N.tcp_send t buf s

  unfoldable pub poll : Socket N → State → LinuxResult PollState
  poll (udp u) s = N.udp_poll u s
  poll (tcp t) s = N.tcp_poll t s

  unfoldable pub set_nonblocking : Socket N → Bool → State → LinuxResult (Unit {0}) × State
  set_nonblocking (udp u) nonblock s = (ok tt, N.udp_set_nonblocking u nonblock s)
  set_nonblocking (tcp t) nonblock s = (ok tt, N.tcp_set_nonblocking t nonblock s)
