-- ===== src/Transport.antt =====
-- internal/connection/transport.go. An `http.Transport` is the record of what `NewTransport` fills in;
-- what it does with it belongs to net/http. The socket is reached through two parameters:
-- `control` is `RawConn.Control`, and `setsockopt` is `syscall.SetsockoptInt`, both on a state `W`.
pub mod Sockets
use Prim.Native.String.{String}
use rapid_proxy.Prelude.{
  ℕ, Bool, true, false, Option, none, some, List, [], ◌∷◌, Int64, ◌*◌, nanos_per_sec,
}

pub record TransportConfig : Type 0 where
  pub max_idle_conns : Int64
  pub max_idle_conns_per_host : Int64
  pub max_conns_per_host : Int64
  pub idle_conn_timeout : Int64
  pub dial_timeout : Int64
  pub tls_handshake_timeout : Int64
  pub response_header_timeout : Int64
  pub keep_alive : Int64
  pub expect_continue_timeout : Int64
  pub insecure_skip_verify : Bool
  pub tls_min_version : ℕ
  pub disable_compression : Bool
  pub disable_keep_alives : Bool
  pub force_attempt_http2 : Bool

-- `tls.VersionTLS12`.
abbrev pub version_tls12 : ℕ
version_tls12 = 771

unfoldable pub default_transport_config : TransportConfig
default_transport_config = record {
  max_idle_conns = 1000;
  max_idle_conns_per_host = 10;
  max_conns_per_host = 0;
  idle_conn_timeout = 90 * nanos_per_sec;
  dial_timeout = 5 * nanos_per_sec;
  tls_handshake_timeout = 5 * nanos_per_sec;
  response_header_timeout = 10 * nanos_per_sec;
  keep_alive = 30 * nanos_per_sec;
  expect_continue_timeout = 1 * nanos_per_sec;
  insecure_skip_verify = false;
  tls_min_version = version_tls12;
  disable_compression = false;
  disable_keep_alives = false;
  force_attempt_http2 = false;
}

-- `net.Dialer`; its `Control` is always `socketControl`.
pub record Dialer : Type 0 where
  pub timeout : Int64
  pub keep_alive : Int64

-- `tls.Config`.
pub record TlsConfig : Type 0 where
  pub insecure_skip_verify : Bool
  pub min_version : ℕ

pub record Transport : Type 0 where
  pub proxy : String
  pub dialer : Dialer
  pub max_idle_conns : Int64
  pub max_idle_conns_per_host : Int64
  pub max_conns_per_host : Int64
  pub idle_conn_timeout : Int64
  pub tls_handshake_timeout : Int64
  pub response_header_timeout : Int64
  pub expect_continue_timeout : Int64
  pub tls_client_config : TlsConfig
  pub disable_keep_alives : Bool
  pub disable_compression : Bool
  pub force_attempt_http2 : Bool

abbrev filled : String → TransportConfig → Transport
filled proxy config = record {
  proxy = proxy;
  dialer = record { timeout = config.dial_timeout; keep_alive = config.keep_alive };
  max_idle_conns = config.max_idle_conns;
  max_idle_conns_per_host = config.max_idle_conns_per_host;
  max_conns_per_host = config.max_conns_per_host;
  idle_conn_timeout = config.idle_conn_timeout;
  tls_handshake_timeout = config.tls_handshake_timeout;
  response_header_timeout = config.response_header_timeout;
  expect_continue_timeout = config.expect_continue_timeout;
  tls_client_config = record {
    insecure_skip_verify = config.insecure_skip_verify;
    min_version = config.tls_min_version;
  };
  disable_keep_alives = config.disable_keep_alives;
  disable_compression = config.disable_compression;
  force_attempt_http2 = config.force_attempt_http2;
}

unfoldable pub new_transport : String → Option TransportConfig → Transport
new_transport proxy none = filled proxy default_transport_config
new_transport proxy (some config) = filled proxy config

-- The options that `socketControl` sets.
pub data SocketOption : Type 0 where
  tcp_nodelay so_keepalive tcp_keepidle tcp_keepintvl tcp_keepcnt so_reuseaddr : SocketOption

module _ {W E : Type 0} (setsockopt : ℕ → SocketOption → ℕ → W → W × Option E) where
  -- The four calls whose errors are ignored.
  unfoldable pub tune : ℕ → W → W
  tune fd w =
      let (w1, _) = setsockopt fd tcp_keepidle 30 w in
      let (w2, _) = setsockopt fd tcp_keepintvl 10 w1 in
      let (w3, _) = setsockopt fd tcp_keepcnt 3 w2 in (setsockopt fd so_reuseaddr 1 w3).0

  -- The function that `socketControl` hands to `Control`, with `sockErr`.
  unfoldable pub set_options : ℕ → W → W × Option E
  unfolding tune
  set_options fd w =
      let (w1, no_delay) = setsockopt fd tcp_nodelay 1 w in
      elim no_delay [
        | some e ↦ (w1, some e)
        | none ↦
            let (w2, alive) = setsockopt fd so_keepalive 1 w1 in
            elim alive [ some e ↦ (w2, some e) | none ↦ (tune fd w2, none) ]
      ]

  -- `control f` gives what `f` stored in `sockErr` (`none` when it has not been called), and its own error.
  unfoldable pub socket_control :
      ((ℕ → W → W × Option E) → W → W × Option E × Option E) → W → W × Option E
  unfolding set_options
  socket_control control w =
      let (w', sock_err, err) = control set_options w in
      elim err [ some e ↦ (w', some e) | none ↦ (w', sock_err) ]
