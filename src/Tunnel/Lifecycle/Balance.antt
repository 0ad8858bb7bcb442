-- ===== src/Tunnel/Lifecycle/Balance.antt =====
-- No call opens a camera stream that its session does not know of, or forgets one that is open.
use bambu_farm.Base.{
  ℕ, Bool, true, false, not, ◌==◌, ◌&&◌, if◌then◌else◌, Option, none, some, List, [], ◌∷◌, ◌≡◌, ◌≢◌,
  inl, inr, refl, sym, arith, if_cases, Bool-cases, subst,
}
use bambu_farm.Base.Text.{Text}
use bambu_farm.Base.Int.{ℤ, pos, int_eq}
use bambu_farm.Tunnel.Session.{CompatTunnel, Bridge, Outcome, succeed, open_tunnel, close_tunnel}
use bambu_farm.Tunnel.Stream.{
  start_video, start_tunnel_stream, start_tunnel_stream_ex, read_tunnel_sample, read_video,
  read_queue,
}
use bambu_farm.Tunnel.Message.{send_tunnel_message, recv_tunnel_message, receive_front}
use bambu_farm.Tunnel.Exports.{
  bambu_open, bambu_start_stream, bambu_start_stream_ex, bambu_send_message, bambu_read_sample,
  bambu_recv_message, bambu_close,
}
use bambu_farm.Tunnel.Stream.Laws.{
  Op, opens, starts, starts_ex, sends, reads, receives, closes, op_step, IsTied,
}
use bambu_farm.Tunnel.Lifecycle.{never, backend_calls, start_answer, without, open_after, held}

-- A result that leaves open what its session knows of.
unfoldable Balanced : (ℕ → Text → Text → ℤ) → List ℕ → Outcome → Type 0
Balanced start ids o = open_after start o.calls ids ≡ held o.tunnel

unfoldable BalancedWith {ℓ} : {B : Type ℓ} → (ℕ → Text → Text → ℤ) → List ℕ → Outcome × B → Type 0
BalancedWith start ids r = open_after start r.0.calls ids ≡ held r.0.tunnel

start_video-Balanced :
    (start : ℕ → Text → Text → ℤ) (t : CompatTunnel) (b : Bridge)
    → b.next_video_stream_id ≢ 0
    → Balanced start [] (start_video start t b)
unfolding Balanced start_video open_after held
start_video-Balanced start t b nz =
    elim (Bool-cases (int_eq (start b.next_video_stream_id t.url t.device_id) (pos 0))) [
      | inl h ↦ rw h (ground (arith, nz))
      | inr h ↦ ground (arith, h)
    ]

idle_held :
    (t : CompatTunnel)
    → t.video_stream_started ≡ false
    → t.video_stream_started ≡ not (t.video_stream_id == 0)
    → held (some t) ≡ []
unfolding held
idle_held t s tied = ground arith

same-Balanced :
    (start : ℕ → Text → Text → ℤ) (t : CompatTunnel) (b : Bridge)
    → Balanced start (held (some t)) (succeed b t [])
unfolding Balanced open_after
same-Balanced start t b = refl

starts-Balanced :
    (start : ℕ → Text → Text → ℤ) (t : CompatTunnel) (b : Bridge)
    → b.next_video_stream_id ≢ 0
    → IsTied (some t)
    → Balanced start (held (some t)) (bambu_start_stream start true (some t) b)
unfolding bambu_start_stream start_tunnel_stream
starts-Balanced start t b nz tied = elim (Bool-cases t.video_stream_started) [
  | inl h ↦ subst P (sym h) (same-Balanced start t b)
  | inr h ↦ subst P (sym h) (
      subst (λ ids. Balanced start ids (start_video start t b)) (sym (idle_held t h tied))
        (start_video-Balanced start t b nz))
]
  where
    P : Bool → Type 0
    P started =
        Balanced start (held (some t)) (if started then succeed b t [] else start_video start t b)

receive_front-Balanced :
    (start : ℕ → Text → Text → ℤ) (has_ctrl has_data : Bool) (room : ℤ) (q : List Text)
    (t : CompatTunnel) (b : Bridge)
    → BalancedWith start (held (some t)) (receive_front has_ctrl has_data room q t b)
unfolding receive_front BalancedWith open_after held
receive_front-Balanced start has_ctrl has_data room [] t b = refl
receive_front-Balanced start has_ctrl has_data room (m ∷ q) t b = ground arith

read_queue-Balanced :
    (start : ℕ → Text → Text → ℤ) (q : List Text) (t : CompatTunnel) (b : Bridge)
    → BalancedWith start (held (some t)) (read_queue q t b)
unfolding read_queue BalancedWith open_after held
read_queue-Balanced start [] t b = refl
read_queue-Balanced start (m ∷ q) t b = refl

read_video-Balanced :
    (start : ℕ → Text → Text → ℤ) (frame : Text) (state : ℤ) (t : CompatTunnel) (b : Bridge)
    → BalancedWith start (held (some t)) (read_video frame state t b)
unfolding read_video BalancedWith open_after held
read_video-Balanced start frame state t b = ground arith

sends-Balanced :
    (start : ℕ → Text → Text → ℤ) (answer : Text → Text → Text → Text) (ctrl : ℤ) (request : Text)
    (t : CompatTunnel) (b : Bridge)
    → Balanced start (held (some t)) (bambu_send_message answer ctrl (some request) (some t) b)
unfolding bambu_send_message send_tunnel_message Balanced open_after held
sends-Balanced start answer ctrl request t b = ground arith

closed_held :
    (start : ℕ → Text → Text → ℤ) (t : CompatTunnel)
    → open_after start (bambu_close (some t)).1 (held (some t)) ≡ []
unfolding bambu_close close_tunnel open_after held without
closed_held start t = ground arith

reads-Balanced :
    (start : ℕ → Text → Text → ℤ) (frame : Text) (state : ℤ) (t : CompatTunnel) (b : Bridge)
    → BalancedWith start (held (some t)) (
        if t.video_stream_started && not (t.video_stream_id == 0)
        then read_video frame state t b
        else read_queue t.queued_responses t b)
reads-Balanced start frame state t b =
    if_cases (BalancedWith start (held (some t))) _ _ _ (read_video-Balanced start frame state t b)
      (read_queue-Balanced start t.queued_responses t b)

-- One call keeps the streams that are open and the stream that the session knows of the same.
pub step_held :
    (op : Op) (t : Option CompatTunnel) (b : Bridge)
    → b.next_video_stream_id ≢ 0
    → IsTied t
    → open_after (start_answer op) (backend_calls op t b) (held t) ≡ held (op_step op t b).0
unfolding Balanced BalancedWith backend_calls op_step start_answer open_after held bambu_open
    open_tunnel bambu_start_stream start_tunnel_stream bambu_start_stream_ex start_tunnel_stream_ex
    bambu_send_message send_tunnel_message bambu_read_sample read_tunnel_sample bambu_recv_message
    recv_tunnel_message bambu_close close_tunnel
step_held opens none b nz tied = refl
step_held (starts start video) none b nz tied = refl
step_held (starts_ex type) none b nz tied = refl
step_held (sends answer ctrl request) none b nz tied = refl
step_held (reads frame state has_sample) none b nz tied = refl
step_held (receives has_ctrl has_data len) none b nz tied = refl
step_held closes none b nz tied = refl
step_held opens (some t) b nz tied = refl
step_held (starts start true) (some t) b nz tied = starts-Balanced start t b nz tied
step_held (starts start false) (some t) b nz tied = refl
step_held (starts_ex type) (some t) b nz tied = ground arith
step_held (sends answer ctrl none) (some t) b nz tied = refl
step_held (sends answer ctrl (some request)) (some t) b nz tied =
    sends-Balanced never answer ctrl request t b
step_held (reads frame state false) (some t) b nz tied = refl
step_held (reads frame state true) (some t) b nz tied =
    reads-Balanced never (frame t.video_stream_id) (state t.video_stream_id) t b
step_held (receives has_ctrl has_data none) (some t) b nz tied = refl
step_held (receives has_ctrl has_data (some room)) (some t) b nz tied =
    receive_front-Balanced never has_ctrl has_data room t.queued_responses t b
step_held closes (some t) b nz tied = closed_held never t
