-- ===== src/Pingpong/Farewell.antt =====
-- The two timeouts of `pingpong_client`.
use cpp_sk.Base.{ℕ, ◌+◌, ◌-◌, ◌^◌, ◌<◌, ◌≡◌, refl, sym, ap, ◌∙◌, Option, some, [], ◌∷◌, ◌++◌, arith}
use cpp_sk.World.{World, handle_of, error}
use cpp_sk.Timer.{timer_add}
use cpp_sk.Message.{Bytes, Payload}
use cpp_sk.Service.{
  Closure, SocketNode, Service, post, send_task, close_task, send_buffer, timeout, on_response,
}
use cpp_sk.Service.Session.{Ahead, fired, armed, timeout-armed, timeout_once}
use cpp_sk.SocketServer.Send.{socket_send}
use cpp_sk.Base.Maps.{find}
use cpp_sk.Pingpong.Echo.{send_buffer_lem}
use cpp_sk.Pingpong.Client.{client_call, greet, hang_up, greet_site, start_text, hello}

call_greet :
    (fd taken : ℕ) (s s' t : Service) (w : World) (r id : ℕ)
    → error s.world greet_site 0 start_text ≡ some w
    → send_buffer (record s { world = w }) fd hello taken ≡ some (s', r)
    → timeout s' 300 hang_up ≡ some (t, id)
    → client_call fd taken greet s ≡ some t
unfolding client_call
call_greet fd taken s s' t w r id logs sends arms = ground (arith, logs, sends, arms)

call_hang_up :
    (fd taken : ℕ) (s : Service) → client_call fd taken hang_up s ≡ some (post s (close_task fd))
unfolding client_call
call_hang_up fd taken s = refl

-- Where the log and the direct write go through, no callback waits under a session above the last
-- one given out, and the numbers are not within two of the largest `int`: the first timeout of the
-- client posts the greeting and sets a second timeout, which gets the next number and arms the timer
-- with it for 300 centiseconds. The first response with this session posts the close of the
-- connection and does nothing else, and another one does nothing.
pub farewell :
    (fd taken : ℕ) (call_text : Closure → Bytes → Service → Option Service) (s : Service)
    (n : SocketNode) (w : World) (r offset : ℕ) (a : Payload)
    → find fd s.socket_nodes ≡ some n
    → error s.world greet_site 0 start_text ≡ some w
    → socket_send s.server fd taken ≡ some (r, some offset)
    → Ahead (record s { world = w })
    → (w.contexts s.self).session_id + 1 < 2 ^ 31 - 1
    → (t : Service) × (id : ℕ) × (client_call fd taken greet s ≡ some t)
      × (t.posted ≡ s.posted ++ send_task fd offset hello ∷ [])
      × (id ≡ (w.contexts s.self).session_id + 1)
      × (t.timer ≡ timer_add s.timer (handle_of w s.self) id 300)
      × (on_response (client_call fd taken) call_text t id a
          ≡ some (post (fired t id) (close_task fd)))
      × (on_response (client_call fd taken) call_text (fired t id) id a ≡ some (fired t id))
farewell fd taken call_text s n w r offset a there logs sends ahead small =
    let s1 = record s { world = w } in
    let s2 = post s1 (send_task fd offset hello) in
    let ahead' : Ahead s2 = record {
      small = ahead.small;
      no_timeout = ahead.no_timeout;
      no_response = ahead.no_response;
    } in
    let (t, id, arms, first, second, _, _, number, armed_timer) =
      timeout_once (client_call fd taken) call_text s2 300 hang_up a ahead' small refl in
    let same : armed s2 300 hang_up ≡ t =
      ground (arith, arms, timeout-armed s2 300 hang_up ahead.small refl) in
    (
      t,
      id,
      call_greet fd taken s s2 t w r id logs
          (send_buffer_lem s1 fd n hello taken r offset there sends) arms,
      ap Service.posted (sym same),
      number,
      armed_timer,
      first ∙ call_hang_up fd taken (fired t id),
      second,
    )
