-- ===== src/Tunnel/Lifecycle/Counter.antt =====
-- The identifiers of camera streams, which the bridge counts.
use bambu_farm.Base.{
  ℕ, suc, ◌+◌, ◌%◌, ◌^◌, ◌≤◌, ◌<◌, Bool, true, false, not, ◌==◌, ◌&&◌, ◌||◌, Option, none, some,
  List, [], ◌∷◌, length, ◌≡◌, ◌⊎◌, inl, inr, refl, arith, if_cases,
}
use bambu_farm.Base.Text.{Text, is_empty}
use bambu_farm.Base.Int.{ℤ, pos, int_eq}
use bambu_farm.Tunnel.Session.{
  CompatTunnel, Bridge, Outcome, open_tunnel, close_tunnel, int_of_size,
}
use bambu_farm.Tunnel.Stream.{
  start_video, start_tunnel_stream, start_tunnel_stream_ex, read_tunnel_sample, read_video,
  read_queue,
}
use bambu_farm.Tunnel.Message.{send_tunnel_message, recv_tunnel_message, receive_front, int_lt}
use bambu_farm.Tunnel.Stream.Laws.{
  Op, opens, starts, starts_ex, sends, reads, receives, closes, op_step,
}

-- The counter of streams after a call.
unfoldable Follows : Bridge → Bridge → Type 0
Follows b b' =
    (b'.next_video_stream_id ≡ b.next_video_stream_id)
    ⊎ (b'.next_video_stream_id ≡ (b.next_video_stream_id + 1) % 2 ^ 64)

abbrev FollowedBy : Bridge → Outcome → Type 0
FollowedBy b o = Follows b o.bridge

abbrev FollowedWith {ℓ} : {B : Type ℓ} → Bridge → Outcome × B → Type 0
FollowedWith b r = Follows b r.0.bridge

start_video-Follows :
    (start : ℕ → Text → Text → ℤ) (t : CompatTunnel) (b : Bridge)
    → FollowedBy b (start_video start t b)
unfolding start_video Follows
start_video-Follows start t b =
    if_cases (FollowedBy b) (int_eq (start b.next_video_stream_id t.url t.device_id) (pos 0)) _ _
      (inr refl) (inr refl)

receive_front-Follows :
    (has_ctrl has_data : Bool) (room : ℤ) (q : List Text) (t : CompatTunnel) (b : Bridge)
    → FollowedWith b (receive_front has_ctrl has_data room q t b)
unfolding receive_front Follows
receive_front-Follows has_ctrl has_data room [] t b = inl refl
receive_front-Follows has_ctrl has_data room (m ∷ q) t b =
    if_cases (FollowedWith b) (not has_data || int_lt room (int_of_size (length m))) _ _ (inl refl)
      (inl refl)

read_queue-Follows :
    (q : List Text) (t : CompatTunnel) (b : Bridge) → FollowedWith b (read_queue q t b)
unfolding read_queue Follows
read_queue-Follows [] t b = inl refl
read_queue-Follows (m ∷ q) t b = inl refl

read_video-Follows :
    (frame : Text) (state : ℤ) (t : CompatTunnel) (b : Bridge)
    → FollowedWith b (read_video frame state t b)
unfolding read_video Follows
read_video-Follows frame state t b =
    if_cases (FollowedWith b) (not (is_empty frame)) _ _ (inl refl) (
      if_cases (FollowedWith b) (int_eq state (pos 0)) _ _ (inl refl)
        (if_cases (FollowedWith b) (int_eq state (pos 1)) _ _ (inl refl) (inl refl)))

step-Follows : (op : Op) (t : Option CompatTunnel) (b : Bridge) → Follows b (op_step op t b).1
unfolding op_step open_tunnel start_tunnel_stream start_tunnel_stream_ex send_tunnel_message
    read_tunnel_sample recv_tunnel_message close_tunnel Follows
step-Follows opens none b = inl refl
step-Follows (starts start video) none b = inl refl
step-Follows (starts_ex type) none b = inl refl
step-Follows (sends answer ctrl request) none b = inl refl
step-Follows (reads frame state has_sample) none b = inl refl
step-Follows (receives has_ctrl has_data len) none b = inl refl
step-Follows closes none b = inl refl
step-Follows opens (some t) b = inl refl
step-Follows (starts start true) (some t) b =
    if_cases (FollowedBy b) t.video_stream_started _ _ (inl refl) (start_video-Follows start t b)
step-Follows (starts start false) (some t) b = inl refl
step-Follows (starts_ex type) (some t) b =
    if_cases (FollowedBy b) (int_eq type (pos 0x3001)) _ _ (inl refl) (inl refl)
step-Follows (sends answer ctrl none) (some t) b = inl refl
step-Follows (sends answer ctrl (some request)) (some t) b =
    if_cases (FollowedBy b) (not (int_eq ctrl (pos 0x3001))) _ _ (inl refl) (
      if_cases (FollowedBy b) (is_empty (answer t.url t.device_id request)) _ _ (inl refl)
        (inl refl))
step-Follows (reads frame state false) (some t) b = inl refl
step-Follows (reads frame state true) (some t) b =
    if_cases (FollowedWith b) (t.video_stream_started && not (t.video_stream_id == 0)) _ _
      (read_video-Follows (frame t.video_stream_id) (state t.video_stream_id) t b)
      (read_queue-Follows t.queued_responses t b)
step-Follows (receives has_ctrl has_data none) (some t) b = inl refl
step-Follows (receives has_ctrl has_data (some room)) (some t) b =
    receive_front-Follows has_ctrl has_data room t.queued_responses t b
step-Follows closes (some t) b = inl refl

-- There are identifiers left for `n` more calls.
pub record HasRoom (n : ℕ) (b : Bridge) : Type 0 where
  pub started : 1 ≤ b.next_video_stream_id
  pub room : b.next_video_stream_id + n < 2 ^ 64

next_room :
    (i i' n : ℕ)
    → 1 ≤ i
    → i + suc n < 2 ^ 64
    → (i' ≡ i) ⊎ (i' ≡ (i + 1) % 2 ^ 64)
    → (1 ≤ i') × (i' + n < 2 ^ 64)
next_room i i' n l r (inl e) = (omega arith, omega arith)
next_room i i' n l r (inr e) = (omega arith, omega arith)

pub step-HasRoom :
    (n : ℕ) (op : Op) (t : Option CompatTunnel) (b : Bridge)
    → HasRoom (suc n) b
    → HasRoom n (op_step op t b).1
unfolding Follows
step-HasRoom n op t b h =
    let r = next_room b.next_video_stream_id _ n h.started h.room (step-Follows op t b) in
    record { started = r.0; room = r.1 }
