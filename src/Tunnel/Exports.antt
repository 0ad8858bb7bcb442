-- ===== src/Tunnel/Exports.antt =====
-- The tunnel functions that bambu-farm-client/cpp/api.cpp exports: each is one of the bridge.
use bambu_farm.Base.{ℕ, Bool, Option, List}
use bambu_farm.Base.Text.{Text}
use bambu_farm.Base.Int.{ℤ, negsuc}
use bambu_farm.Tunnel.Session.{
  CompatTunnel, Bridge, Outcome, BackendCall, bambu_success, create_tunnel, set_tunnel_logger,
  open_tunnel, close_tunnel, destroy_tunnel,
}
use bambu_farm.Tunnel.Stream.{
  start_tunnel_stream, start_tunnel_stream_ex, tunnel_stream_count, tunnel_stream_info, StreamInfo,
  read_tunnel_sample, Sample,
}
use bambu_farm.Tunnel.Message.{send_tunnel_message, recv_tunnel_message, Received}

unfoldable pub bambu_create : Bool → Option Text → Bridge → Outcome
bambu_create has_target path b = create_tunnel has_target path b

unfoldable pub bambu_set_logger : Option (ℕ × ℕ) → Option CompatTunnel → Option CompatTunnel
bambu_set_logger logger t = set_tunnel_logger logger t

unfoldable pub bambu_open : Option CompatTunnel → Bridge → Outcome
bambu_open t b = open_tunnel t b

unfoldable pub bambu_start_stream :
    (ℕ → Text → Text → ℤ) → Bool → Option CompatTunnel → Bridge → Outcome
bambu_start_stream start video t b = start_tunnel_stream start video t b

unfoldable pub bambu_start_stream_ex : ℤ → Option CompatTunnel → Bridge → Outcome
bambu_start_stream_ex type t b = start_tunnel_stream_ex type t b

unfoldable pub bambu_get_stream_count : Option CompatTunnel → ℕ
bambu_get_stream_count t = tunnel_stream_count t

unfoldable pub bambu_get_stream_info : ℤ → Bool → Option CompatTunnel → Option StreamInfo
bambu_get_stream_info index has_info t = tunnel_stream_info index has_info t

unfoldable pub bambu_get_duration : Option CompatTunnel → ℕ
bambu_get_duration t = 0

unfoldable pub bambu_seek : Option CompatTunnel → ℕ → ℤ
bambu_seek t time = negsuc 0

unfoldable pub bambu_send_message :
    (Text → Text → Text → Text) → ℤ → Option Text → Option CompatTunnel → Bridge → Outcome
bambu_send_message answer ctrl request t b = send_tunnel_message answer ctrl request t b

unfoldable pub bambu_read_sample :
    (ℕ → Text) → (ℕ → ℤ) → Bool → Option CompatTunnel → Bridge → Outcome × Option Sample
bambu_read_sample frame state has_sample t b = read_tunnel_sample frame state has_sample t b

unfoldable pub bambu_recv_message :
    Bool → Bool → Option ℤ → Option CompatTunnel → Bridge → Outcome × Option Received
bambu_recv_message has_ctrl has_data len t b = recv_tunnel_message has_ctrl has_data len t b

unfoldable pub bambu_close : Option CompatTunnel → Option CompatTunnel × List BackendCall
bambu_close t = close_tunnel t

unfoldable pub bambu_destroy : Option CompatTunnel → Option CompatTunnel × List BackendCall
bambu_destroy t = destroy_tunnel t

unfoldable pub bambu_init : ℤ
bambu_init = bambu_success

unfoldable pub bambu_get_last_error_msg : Bridge → Text
bambu_get_last_error_msg b = b.last_tunnel_error
