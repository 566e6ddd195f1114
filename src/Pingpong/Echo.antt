-- ===== src/Pingpong/Echo.antt =====
-- A connection of `pingpong_server`, from its listener to the bytes sent back.
use cpp_sk.Base.{ℕ, ◌≡◌, refl, ap, ◌∙◌, Bool, Option, none, some, List, [], ◌++◌, arith, length}
use cpp_sk.Base.Slices.{drop_all}
use cpp_sk.World.{World, error}
use cpp_sk.Message.{Bytes, StringBuf, incoming}
use cpp_sk.Service.{
  Closure, SocketNode, Service, post, put_node, send_task, send_buffer, on_bytes, on_socket,
  bytes_of, consume,
}
use cpp_sk.Service.Stream.{Sets, put_node-Sets, consume_lem}
use cpp_sk.SocketServer.Send.{socket_send}
use cpp_sk.Base.Maps.{find}
use cpp_sk.Pingpong.{echo, data_site, server_call_id, server_call_data}

pub send_buffer_lem :
    (s : Service) (id : ℕ) (n : SocketNode) (buf : Bytes) (taken r offset : ℕ)
    → find id s.socket_nodes ≡ some n
    → socket_send s.server id taken ≡ some (r, some offset)
    → send_buffer s id buf taken ≡ some (post s (send_task id offset buf), r)
unfolding send_buffer
send_buffer_lem s id n buf taken r offset there sends = rw (there, sends, send_buffer) refl

call_echo :
    (data_text : ℕ → Bytes → Bytes) (taken : ℕ) (s t : Service) (id r : ℕ) (bytes : Bytes)
    (w : World)
    → error s.world data_site 0 (data_text id bytes) ≡ some w
    → send_buffer (record s { world = w }) id bytes taken ≡ some (t, r)
    → server_call_data data_text taken echo id bytes s ≡ some (t, length bytes)
unfolding server_call_data
call_echo data_text taken s t id r bytes w logs sent = rw (logs, sent, server_call_data) refl

-- Where the log and the direct write go through, the bytes of a message, after those that waited, are
-- posted to be sent back, none are left in the node, and the other nodes and the rest of the node stay.
pub on_socket-echo :
    (data_text : ℕ → Bytes → Bytes) (taken : ℕ) (rehashes : List (ℕ × SocketNode) → ℕ → Bool)
    (s : Service) (id ud : ℕ) (n : SocketNode) (b : StringBuf) (w : World) (r offset : ℕ)
    → find id s.socket_nodes ≡ some n
    → n.id ≡ id
    → n.on_data ≡ some echo
    → error s.world data_site 0 (data_text id (n.rbuff ++ bytes_of b)) ≡ some w
    → socket_send s.server id taken ≡ some (r, some offset)
    → (t : Service) × (on_socket server_call_id
          (server_call_data data_text taken)
          rehashes
          s
          (record { type = incoming; id = id; ud = ud; buffer = b })
        ≡ some t)
      × Sets (post s (send_task id offset (n.rbuff ++ bytes_of b))) id (record n { rbuff = [] }) t
unfolding on_socket on_bytes
on_socket-echo data_text taken rehashes s id ud n b w r offset there own echoes logs sends =
    let all = n.rbuff ++ bytes_of b in
    let n' = record n { rbuff = all } in
    let s1 = put_node s id n' in
    let s2 = record s1 { world = w } in
    let s3 = post s2 (send_task id offset all) in
    let put = put_node-Sets s id n' in
    let sent = send_buffer_lem s2 id n' all taken r offset put.there sends in
    let (t, eaten, sets) = consume_lem s3 id n' (length all) put.there (omega arith) in
    let called : server_call_data data_text taken echo id all s1 ≡ some (s3, length all) =
      call_echo data_text taken s1 s3 id r all w logs sent in
    let then_consume : Option (Service × ℕ) → Option Service =
      λ o. elim o [ none ↦ none | some (s', sz) ↦ consume s' id sz ] in
    let took : Option Closure → Option Service = λ o. elim o [
      | none ↦ some s1
      | some c ↦ then_consume (server_call_data data_text taken c n.id all s1)
    ] in
    let run : on_bytes server_call_id (server_call_data data_text taken) rehashes s id n
          (bytes_of b)
        ≡ some t =
      ap took echoes
      ∙ ap (λ k. then_consume (server_call_data data_text taken echo k all s1)) own
      ∙ ap then_consume called
      ∙ eaten in
    (
      t,
      rw (there, on_socket) run,
      record {
        there =
            sets.there
            ∙ ap (λ l. some (record n { rbuff = l })) (drop_all (length all) all (omega arith));
        others = λ k h. sets.others k h ∙ put.others k h;
        posted = sets.posted;
      },
    )
