-- ===== src/Tunnel/Lifecycle.antt =====
-- The camera streams that a session of bambu-farm-client/cpp/tunnel_bridge.cpp has open in the Rust
-- library, from its creation to its end.
pub mod Balance
pub mod Counter
pub mod Closed
use bambu_farm.Base.{
  ℕ, suc, zero, ◌+◌, ◌%◌, ◌^◌, ◌≤◌, ◌<◌, Bool, true, false, not, ◌==◌, ◌&&◌, ◌||◌, if◌then◌else◌,
  Option, none, some, List, [], ◌∷◌, length, ◌≡◌, ◌≢◌, ◌⊎◌, inl, inr, refl, sym, ap, ◌∙◌, arith,
  if_cases, Bool-cases, subst,
}
use bambu_farm.Base.Text.{Text, codes, is_empty}
use bambu_farm.Base.Int.{ℤ, pos, negsuc, int_eq}
use bambu_farm.Tunnel.Session.{
  CompatTunnel, Bridge, Outcome, BackendCall, camera_started, tunnel_requested, frame_read,
  state_read, camera_stopped, succeed, bambu_query_param, create_tunnel, open_tunnel, close_tunnel,
  destroy_tunnel, int_of_size,
}
use bambu_farm.Tunnel.Stream.{
  start_video, start_tunnel_stream, start_tunnel_stream_ex, read_tunnel_sample, read_video,
  read_queue, Sample,
}
use bambu_farm.Tunnel.Message.{
  send_tunnel_message, recv_tunnel_message, receive_front, int_lt, Received,
}
use bambu_farm.Tunnel.Exports.{
  bambu_create, bambu_open, bambu_start_stream, bambu_start_stream_ex, bambu_send_message,
  bambu_read_sample, bambu_recv_message, bambu_close, bambu_destroy,
}
use bambu_farm.Tunnel.Stream.Laws.{
  Op, opens, starts, starts_ex, sends, reads, receives, closes, op_step, IsTied, op_step-IsTied,
}

-- The calls of the Rust library that an exported function makes.
unfoldable pub backend_calls : Op → Option CompatTunnel → Bridge → List BackendCall
backend_calls opens t b = (bambu_open t b).calls
backend_calls (starts start video) t b = (bambu_start_stream start video t b).calls
backend_calls (starts_ex type) t b = (bambu_start_stream_ex type t b).calls
backend_calls (sends answer ctrl request) t b = (bambu_send_message answer ctrl request t b).calls
backend_calls (reads frame state has_sample) t b =
    (bambu_read_sample frame state has_sample t b).0.calls
backend_calls (receives has_ctrl has_data len) t b =
    (bambu_recv_message has_ctrl has_data len t b).0.calls
backend_calls closes t b = (bambu_close t).1

abbrev pub never : ℕ → Text → Text → ℤ
never id url dev_id = negsuc 0

-- What the Rust library answers to the start of a camera stream during a call.
unfoldable pub start_answer : Op → ℕ → Text → Text → ℤ
start_answer (starts start video) = start
start_answer _ = never

unfoldable pub without : ℕ → List ℕ → List ℕ
without id [] = []
without id (i ∷ ids) = if i == id then without id ids else i ∷ without id ids

-- The streams that are open after the calls: a start that succeeds opens one, a stop closes it.
unfoldable pub open_after : (ℕ → Text → Text → ℤ) → List BackendCall → List ℕ → List ℕ
open_after start [] ids = ids
open_after start (camera_started id url dev_id ∷ cs) ids =
    open_after start cs (if int_eq (start id url dev_id) (pos 0) then id ∷ ids else ids)
open_after start (camera_stopped id ∷ cs) ids = open_after start cs (without id ids)
open_after start (tunnel_requested url dev_id request ∷ cs) ids = open_after start cs ids
open_after start (frame_read id ∷ cs) ids = open_after start cs ids
open_after start (state_read id ∷ cs) ids = open_after start cs ids

-- The session after the calls, and the streams that are open then.
unfoldable pub serve :
    List Op → Option CompatTunnel → Bridge → List ℕ → (Option CompatTunnel × Bridge) × List ℕ
serve [] t b ids = ((t, b), ids)
serve (op ∷ ops) t b ids =
    let (t', b') = op_step op t b in
    serve ops t' b' (open_after (start_answer op) (backend_calls op t b) ids)

-- The stream that the session knows of.
unfoldable pub held : Option CompatTunnel → List ℕ
held none = []
held (some t) = if t.video_stream_id == 0 then [] else t.video_stream_id ∷ []
