-- ===== src/Tunnel/Stream.antt =====
-- The streams of a session of bambu-farm-client/cpp/tunnel_bridge.cpp, and the samples that are read
-- from it.
pub mod Laws
use bambu_farm.Base.{
  ℕ, suc, ◌+◌, ◌-◌, ◌*◌, ◌%◌, ◌^◌, Bool, true, false, not, ◌&&◌, ◌||◌, ltb, ◌==◌, if◌then◌else◌,
  Option, none, some, is_some, List, [], ◌∷◌, ◌++◌, length, drop, take, ◌≡◌, refl,
}
use bambu_farm.Base.Text.{Text, codes, is_empty, find, find_from, starts_with}
use bambu_farm.Base.Int.{ℤ, pos, negsuc, int_eq}
use bambu_farm.Tunnel.Session.{
  CompatTunnel, Bridge, bambu_success, bambu_stream_end, bambu_would_block, bambu_buffer_limit,
  failure, BackendCall, camera_started, tunnel_requested, frame_read, state_read, camera_stopped,
  Outcome, succeed, fail_with, int_of_size,
}

-- The video branch, where no video stream is started. `start` is `bambu_network_rs_start_camera_stream`.
-- `next_video_stream_id.fetch_add(1)` gives the old value and wraps at 64 bits. The
-- code releases the session's mutex around the call of `start`; here the call is one step.
unfoldable pub start_video : (ℕ → Text → Text → ℤ) → CompatTunnel → Bridge → Outcome
start_video start t b =
    let stream_id = b.next_video_stream_id in
    let b' = record b { next_video_stream_id = (stream_id + 1) % 2 ^ 64 } in
    let calls = camera_started stream_id t.url t.device_id ∷ [] in
    let t' = record t {
      video_stream_id = stream_id;
      video_stream_started = true;
      active_response = [];
      active_decode_time = 0;
    } in
    if int_eq (start stream_id t.url t.device_id) (pos 0)
    then succeed b' t' calls
    else fail_with b' (some (record t' { video_stream_started = false; video_stream_id = 0 }))
        (codes "Bambu_StartStream: failed to start camera stream") calls

unfoldable pub start_tunnel_stream :
    (ℕ → Text → Text → ℤ) → Bool → Option CompatTunnel → Bridge → Outcome
start_tunnel_stream start video none b =
    fail_with b none (codes "Bambu_StartStream: invalid tunnel") []
start_tunnel_stream start true (some t) b =
    if t.video_stream_started then succeed b t [] else start_video start t b
start_tunnel_stream start false (some t) b =
    succeed b (record t { control_stream_started = true }) []

unfoldable pub start_tunnel_stream_ex : ℤ → Option CompatTunnel → Bridge → Outcome
start_tunnel_stream_ex type none b =
    fail_with b none (codes "Bambu_StartStreamEx: invalid tunnel") []
start_tunnel_stream_ex type (some t) b =
    if int_eq type (pos 0x3001)
    then succeed b (record t { control_stream_started = true }) []
    else fail_with b (some t) (codes "Bambu_StartStreamEx: unsupported stream type") []

unfoldable pub tunnel_stream_count : Option CompatTunnel → ℕ
tunnel_stream_count none = 0
tunnel_stream_count (some t) = if t.video_stream_started then 1 else 0

-- `Bambu_StreamInfo` as `tunnel_stream_info` fills it; VIDE, MJPG and video_jpeg are left as names.
pub record StreamInfo : Type 0 where
  pub width : ℕ
  pub height : ℕ
  pub frame_rate : ℕ
  pub format_size : ℕ
  pub max_frame_size : ℕ

unfoldable pub tunnel_stream_info : ℤ → Bool → Option CompatTunnel → Option StreamInfo
tunnel_stream_info index has_info none = none
tunnel_stream_info index has_info (some t) =
    if not has_info || not (int_eq index (pos 0)) || not t.video_stream_started
    then none
    else some (record {
      width = 1920;
      height = 1080;
      frame_rate = 5;
      format_size = 0;
      max_frame_size = 512 * 1024;
    })

-- A filled `Bambu_Sample`: `itrack` 0, `flags` 1, and the buffer is `active_response`.
pub record Sample : Type 0 where
  pub size : ℤ
  pub buffer : Text
  pub decode_time : ℕ

unfoldable pub sample_of : Text → Sample
sample_of response = record {
  size = int_of_size (length response);
  buffer = response;
  decode_time = 0;
}

-- The video branch. `frame` and `state` are what the camera stream answers.
unfoldable pub read_video : Text → ℤ → CompatTunnel → Bridge → Outcome × Option Sample
read_video frame state t b =
    let id = t.video_stream_id in
    if not (is_empty frame)
    then (
      succeed b (record t { active_response = frame; active_decode_time = 0 }) (frame_read id ∷ []),
      some (sample_of frame),
    )
    else (let calls = frame_read id ∷ state_read id ∷ [] in
        if int_eq state (pos 0)
        then (record { bridge = b; tunnel = some t; code = bambu_would_block; calls = calls }, none)
        else if int_eq state (pos 1)
        then (record { bridge = b; tunnel = some t; code = bambu_stream_end; calls = calls }, none)
        else (fail_with b (some t) (codes "Bambu_ReadSample: camera stream failed") calls, none))

-- The queue branch.
unfoldable pub read_queue : List Text → CompatTunnel → Bridge → Outcome × Option Sample
read_queue [] t b =
    (record { bridge = b; tunnel = some t; code = bambu_would_block; calls = [] }, none)
read_queue (response ∷ rest) t b = (
  succeed b (record t { active_response = response; queued_responses = rest }) [],
  some (sample_of response),
)

unfoldable pub read_tunnel_sample :
    (ℕ → Text) → (ℕ → ℤ) → Bool → Option CompatTunnel → Bridge → Outcome × Option Sample
read_tunnel_sample frame state has_sample none b =
    (fail_with b none (codes "Bambu_ReadSample: invalid arguments") [], none)
read_tunnel_sample frame state false (some t) b =
    (fail_with b (some t) (codes "Bambu_ReadSample: invalid arguments") [], none)
read_tunnel_sample frame state true (some t) b =
    if t.video_stream_started && not (t.video_stream_id == 0)
    then read_video (frame t.video_stream_id) (state t.video_stream_id) t b
    else read_queue t.queued_responses t b
