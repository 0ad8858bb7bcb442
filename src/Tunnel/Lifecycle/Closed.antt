-- ===== src/Tunnel/Lifecycle/Closed.antt =====
-- What is open in the Rust library when a session ends.
use bambu_farm.Base.{
  ℕ, true, Option, none, some, List, [], ◌∷◌, length, ◌≡◌, ◌≢◌, refl, sym, ap, ◌∙◌, arith, if_cases,
  subst,
}
use bambu_farm.Base.Text.{Text, codes, is_empty}
use bambu_farm.Tunnel.Session.{
  CompatTunnel, Bridge, Outcome, bambu_query_param, create_tunnel, close_tunnel, destroy_tunnel,
}
use bambu_farm.Tunnel.Exports.{bambu_create, bambu_destroy}
use bambu_farm.Tunnel.Stream.Laws.{Op, op_step, IsTied, op_step-IsTied}
use bambu_farm.Tunnel.Lifecycle.{never, without, open_after, serve, held}
use bambu_farm.Tunnel.Lifecycle.Balance.{step_held}
use bambu_farm.Tunnel.Lifecycle.Counter.{HasRoom, step-HasRoom}

serve-held :
    (ops : List Op) (t : Option CompatTunnel) (b : Bridge)
    → HasRoom (length ops) b
    → IsTied t
    → let r = serve ops t b (held t) in r.1 ≡ held r.0.0
unfolding serve
serve-held [] t b h tied = refl
serve-held (op ∷ ops) t b h tied =
    subst (λ ids. let r = serve ops (op_step op t b).0 (op_step op t b).1 ids in r.1 ≡ held r.0.0)
      (sym (step_held op t b nz tied))
      (serve-held ops (op_step op t b).0 (op_step op t b).1 (step-HasRoom (length ops) op t b h)
        (op_step-IsTied op t b nz tied))
  where
    nz : b.next_video_stream_id ≢ 0
    nz e = omega (arith, h.started)

-- What a creation leaves is served from nothing.
created_held : (path : Text) (b : Bridge) → held (bambu_create true (some path) b).tunnel ≡ []
unfolding bambu_create create_tunnel held
created_held path b = ground arith

created-IsTied : (path : Text) (b : Bridge) → IsTied (bambu_create true (some path) b).tunnel
unfolding bambu_create create_tunnel
created-IsTied path b =
    if_cases (λ (o : Outcome). IsTied o.tunnel) (is_empty (bambu_query_param path (codes "device")))
      _ _ tt refl

created-HasRoom :
    (n : ℕ) (path : Text) (b : Bridge)
    → HasRoom n b
    → HasRoom n (bambu_create true (some path) b).bridge
unfolding bambu_create create_tunnel
created-HasRoom n path b h =
    if_cases (λ (o : Outcome). HasRoom n o.bridge)
      (is_empty (bambu_query_param path (codes "device"))) _ _
      (record { started = h.started; room = h.room }) h

destroyed_held : (t : Option CompatTunnel) → open_after never (bambu_destroy t).1 (held t) ≡ []
unfolding bambu_destroy destroy_tunnel close_tunnel open_after held without
destroyed_held none = refl
destroyed_held (some t) = ground arith

-- Whatever calls a tunnel gets between its creation and its end, and whatever the Rust library answers
-- to them, the only camera stream that is open in the Rust library is the one that the session knows of,
-- if it knows of one; and once the tunnel is destroyed, none is open. The counter of streams starts at 1
-- or more and does not reach its end within the calls.
pub serve-bambu_create :
    (path : Text) (b : Bridge) (ops : List Op)
    → HasRoom (length ops) b
    → let o = bambu_create true (some path) b in
      let r = serve ops o.tunnel o.bridge [] in
      (r.1 ≡ held r.0.0) × (open_after never (bambu_destroy r.0.0).1 r.1 ≡ [])
serve-bambu_create path b ops h =
    (known, ap (open_after never (bambu_destroy r.0.0).1) known ∙ destroyed_held r.0.0)
  where
    o : Outcome
    o = bambu_create true (some path) b

    r : (Option CompatTunnel × Bridge) × List ℕ
    r = serve ops o.tunnel o.bridge []

    known : r.1 ≡ held r.0.0
    known =
        subst
          (λ ids. (serve ops o.tunnel o.bridge ids).1 ≡ held (serve ops o.tunnel o.bridge ids).0.0)
          (created_held path b)
          (serve-held ops o.tunnel o.bridge (created-HasRoom (length ops) path b h)
            (created-IsTied path b))
