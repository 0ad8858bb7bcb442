-- ===== src/Tunnel/Tests.antt =====
-- Runs of the tunnel on a small download.
use bambu_farm.Base.{
  ◌≤◌, suc, ℕ, true, false, none, some, [], ◌∷◌, ◌≡◌, ◌⊎◌, refl, length, All, arith,
}
use bambu_farm.Base.Text.{find_from, Text, codes, find, starts_with}
use bambu_farm.Base.Int.{ℤ, pos}
use bambu_farm.Tunnel.Session.{CompatTunnel, Bridge, bambu_query_param, bambu_success, int_of_size}
use bambu_farm.Tunnel.Protocol.Rounds.{Rounds, frame_loop-Rounds}
use bambu_farm.Tunnel.Protocol.{
  FileInfo, file_info, frame_loop, split_frames, split_file_download_response_frames,
}
use bambu_farm.Tunnel.Protocol.Reassembly.{
  frame_payload, reassembled, Fits, reassembled-split_frames, split_frames-Fits,
}
use bambu_farm.Tunnel.Message.{send_tunnel_message}
use bambu_farm.Tunnel.Message.Delivery.{fetch, fetch_all, fetch_front, download_delivers}
use bambu_farm.Tunnel.Stream.Laws.{starts, opens}
use bambu_farm.Tunnel.Exports.{bambu_create, bambu_destroy}
use bambu_farm.Tunnel.Lifecycle.{never, open_after, serve, held}
use bambu_farm.Tunnel.Lifecycle.Closed.{serve-bambu_create}

abbrev response : Text
response = codes "{\"sequence\":7}\n\nabcde"

reassembled-split_frames_example : reassembled (split_frames 2 response) ≡ frame_payload response
reassembled-split_frames_example = reassembled-split_frames 2 response (omega arith)

split_frames-Fits_example :
    (split_frames 2 response ≡ response ∷ []) ⊎ All (Fits 2) (split_frames 2 response)
split_frames-Fits_example = split_frames-Fits 2 response (omega arith)

abbrev tunnel : CompatTunnel
tunnel = record {
  url = codes "bambu:///?device=01S";
  device_id = codes "01S";
  logger = none;
  opened = true;
  control_stream_started = true;
  video_stream_started = false;
  queued_responses = [];
  active_response = [];
  video_stream_id = 0;
  active_decode_time = 0;
}

abbrev bridge : Bridge
bridge = record { next_video_stream_id = 1; last_tunnel_error = [] }

abbrev waiting : CompatTunnel
waiting = record tunnel { queued_responses = codes "one" ∷ codes "two" ∷ [] }

fetch_front_example : fetch waiting bridge ≡ (
  record {
    bridge = bridge;
    tunnel = some (record waiting { queued_responses = codes "two" ∷ [] });
    code = bambu_success;
    calls = [];
  },
  some (record {
    len = int_of_size (length (codes "one"));
    copied = some (codes "one");
    ctrl = some 0x3001;
  }),
)
fetch_front_example = fetch_front waiting bridge (codes "one") (codes "two" ∷ []) refl

abbrev request : Text
request = codes "{\"cmdtype\":4}"

abbrev answer : Text → Text → Text → Text
answer url device_id body = response

asks_for_file : find (codes "\"cmdtype\":4") request ≡ some 1
unfolding find starts_with
asks_for_file = refl

download_delivers_example :
    reassembled (
      fetch_all
        (length (split_file_download_response_frames response))
        (send_tunnel_message answer (pos 0x3001) (some request) (some tunnel) bridge).tunnel
        (send_tunnel_message answer (pos 0x3001) (some request) (some tunnel) bridge).bridge)
    ≡ frame_payload response
download_delivers_example =
    download_delivers answer request tunnel bridge 1
      (length (split_file_download_response_frames response)) asks_for_file refl refl (omega arith)

abbrev camera : ℕ → Text → Text → ℤ
camera id url device_id = pos 0

device_of_url :
    bambu_query_param (codes "bambu:///local/10.0.0.2?port=6000&device=ABC&x=1") (codes "device")
    ≡ codes "ABC"
unfolding bambu_query_param find_from find starts_with
device_of_url = refl

serve-bambu_create_example :
    let o = bambu_create true (some (codes "bambu:///?device=01S")) bridge in
    let r = serve (opens ∷ starts camera true ∷ starts camera true ∷ []) o.tunnel o.bridge [] in
    (r.1 ≡ held r.0.0) × (open_after never (bambu_destroy r.0.0).1 r.1 ≡ [])
serve-bambu_create_example =
    serve-bambu_create (codes "bambu:///?device=01S") bridge
      (opens ∷ starts camera true ∷ starts camera true ∷ [])
      (record { started = omega arith; room = omega arith })

abbrev info : FileInfo
info = file_info (codes "{\"sequence\":7}") (codes "abcde") 7

frame_loop-Rounds_example :
    Rounds info 2 (codes "abcde") 0 (frame_loop info 2 (codes "abcde") (suc 5) 0)
    × (length (frame_loop info 2 (codes "abcde") (suc 5) 0) ≤ 5)
frame_loop-Rounds_example = frame_loop-Rounds info 2 (codes "abcde") (omega arith)
