-- ===== src/Tunnel/Stream/Laws.antt =====
-- The video stream of a session: its identifier, and what starting and closing it ask of the camera.
use bambu_farm.Base.{
  ℕ, Bool, true, false, not, ◌==◌, Option, none, some, List, [], ◌∷◌, ◌≡◌, ◌≢◌, refl, arith,
  Bool-cases, inl, inr, if_cases, ◌&&◌, ◌||◌, length,
}
use bambu_farm.Base.Text.{Text, is_empty}
use bambu_farm.Base.Int.{ℤ, pos, int_eq}
use bambu_farm.Tunnel.Session.{
  CompatTunnel, Bridge, Outcome, int_of_size, open_tunnel, close_tunnel,
}
use bambu_farm.Tunnel.Stream.{
  start_video, start_tunnel_stream, start_tunnel_stream_ex, read_tunnel_sample, read_video,
  read_queue,
}
use bambu_farm.Tunnel.Message.{send_tunnel_message, recv_tunnel_message, receive_front, int_lt}

-- A stream is started exactly when it has an identifier.
abbrev pub IsTied : Option CompatTunnel → Type 0
IsTied none = Unit
IsTied (some t) = t.video_stream_started ≡ not (t.video_stream_id == 0)

abbrev Ties : Outcome → Type 0
Ties o = IsTied o.tunnel

abbrev LeavesTied {ℓ} : {B : Type ℓ} → Outcome × B → Type 0
LeavesTied r = IsTied r.0.tunnel

-- The calls of a session that change it.
pub data Op : Type 0 where
  opens : Op
  starts : (ℕ → Text → Text → ℤ) → Bool → Op
  starts_ex : ℤ → Op
  sends : (Text → Text → Text → Text) → ℤ → Option Text → Op
  reads : (ℕ → Text) → (ℕ → ℤ) → Bool → Op
  receives : Bool → Bool → Option ℤ → Op
  closes : Op

unfoldable pub op_step : Op → Option CompatTunnel → Bridge → Option CompatTunnel × Bridge
op_step opens t b = let o = open_tunnel t b in (o.tunnel, o.bridge)
op_step (starts start video) t b =
    let o = start_tunnel_stream start video t b in (o.tunnel, o.bridge)
op_step (starts_ex type) t b = let o = start_tunnel_stream_ex type t b in (o.tunnel, o.bridge)
op_step (sends answer ctrl request) t b =
    let o = send_tunnel_message answer ctrl request t b in (o.tunnel, o.bridge)
op_step (reads frame state has_sample) t b =
    let o = (read_tunnel_sample frame state has_sample t b).0 in (o.tunnel, o.bridge)
op_step (receives has_ctrl has_data len) t b =
    let o = (recv_tunnel_message has_ctrl has_data len t b).0 in (o.tunnel, o.bridge)
op_step closes t b = ((close_tunnel t).0, b)

start_video-IsTied :
    (start : ℕ → Text → Text → ℤ) (t : CompatTunnel) (b : Bridge)
    → b.next_video_stream_id ≢ 0
    → IsTied (start_video start t b).tunnel
unfolding start_video
start_video-IsTied start t b nz =
    elim (Bool-cases (int_eq (start b.next_video_stream_id t.url t.device_id) (pos 0))) [
      | inl h ↦ rw h (ground (arith, nz))
      | inr h ↦ rw h refl
    ]

read_video-IsTied :
    (frame : Text) (state : ℤ) (t : CompatTunnel) (b : Bridge)
    → IsTied (some t)
    → IsTied (read_video frame state t b).0.tunnel
unfolding read_video
read_video-IsTied frame state t b tied = if_cases LeavesTied (not (is_empty frame)) _ _ tied (
    if_cases LeavesTied (int_eq state (pos 0)) _ _ tied
      (if_cases LeavesTied (int_eq state (pos 1)) _ _ tied tied))

read_queue-IsTied :
    (q : List Text) (t : CompatTunnel) (b : Bridge)
    → IsTied (some t)
    → IsTied (read_queue q t b).0.tunnel
unfolding read_queue
read_queue-IsTied [] t b tied = tied
read_queue-IsTied (m ∷ q) t b tied = tied

receive_front-IsTied :
    (has_ctrl has_data : Bool) (room : ℤ) (q : List Text) (t : CompatTunnel) (b : Bridge)
    → IsTied (some t)
    → IsTied (receive_front has_ctrl has_data room q t b).0.tunnel
unfolding receive_front
receive_front-IsTied has_ctrl has_data room [] t b tied = tied
receive_front-IsTied has_ctrl has_data room (m ∷ q) t b tied =
    if_cases LeavesTied (not has_data || int_lt room (int_of_size (length m))) _ _ tied tied

-- A session whose stream counts as started exactly when it has an identifier other than zero stays one
-- under every call that opens it, starts a stream, sends, reads, receives or closes, as long as the
-- counter of streams has not wrapped to zero.
pub op_step-IsTied :
    (op : Op) (t : Option CompatTunnel) (b : Bridge)
    → b.next_video_stream_id ≢ 0
    → IsTied t
    → IsTied (op_step op t b).0
unfolding op_step open_tunnel start_tunnel_stream start_tunnel_stream_ex send_tunnel_message
    read_tunnel_sample recv_tunnel_message close_tunnel
op_step-IsTied opens none b nz tied = tt
op_step-IsTied (starts start video) none b nz tied = tt
op_step-IsTied (starts_ex type) none b nz tied = tt
op_step-IsTied (sends answer ctrl request) none b nz tied = tt
op_step-IsTied (reads frame state has_sample) none b nz tied = tt
op_step-IsTied (receives has_ctrl has_data len) none b nz tied = tt
op_step-IsTied closes none b nz tied = tt
op_step-IsTied opens (some t) b nz tied = tied
op_step-IsTied (starts start true) (some t) b nz tied =
    if_cases Ties t.video_stream_started _ _ tied (start_video-IsTied start t b nz)
op_step-IsTied (starts start false) (some t) b nz tied = tied
op_step-IsTied (starts_ex type) (some t) b nz tied =
    if_cases Ties (int_eq type (pos 0x3001)) _ _ tied tied
op_step-IsTied (sends answer ctrl none) (some t) b nz tied = tied
op_step-IsTied (sends answer ctrl (some request)) (some t) b nz tied =
    if_cases Ties (not (int_eq ctrl (pos 0x3001))) _ _ tied
      (if_cases Ties (is_empty (answer t.url t.device_id request)) _ _ tied tied)
op_step-IsTied (reads frame state false) (some t) b nz tied = tied
op_step-IsTied (reads frame state true) (some t) b nz tied =
    if_cases LeavesTied (t.video_stream_started && not (t.video_stream_id == 0)) _ _
      (read_video-IsTied (frame t.video_stream_id) (state t.video_stream_id) t b tied)
      (read_queue-IsTied t.queued_responses t b tied)
op_step-IsTied (receives has_ctrl has_data none) (some t) b nz tied = tied
op_step-IsTied (receives has_ctrl has_data (some room)) (some t) b nz tied =
    receive_front-IsTied has_ctrl has_data room t.queued_responses t b tied
op_step-IsTied closes (some t) b nz tied = refl
