-- ===== src/Service/Stream.antt =====
-- The bytes that a service receives on a connection.
use cpp_sk.Base.{
  ℕ, ◌≤◌, ◌≡◌, refl, ap, sym, ◌∙◌, ◌≢◌, Bool, true, false, Option, some, none, List, [], ◌∷◌, ◌++◌,
  length, take, drop, arith, leb, ◌==◌, ==_refl, append_assoc, take-append-drop, zero, suc,
}
use cpp_sk.Service.{Closure, SocketNode, Service, put_node, consume, on_bytes}
use cpp_sk.Base.Maps.{find, find-insert}
use cpp_sk.Message.{Bytes}

-- The callback that takes a number of the bytes that it sees and does nothing else.
abbrev pub quiet : (Bytes → ℕ) → Closure → ℕ → Bytes → Service → Option (Service × ℕ)
quiet take_count c id bytes s = some (s, take_count bytes)

-- `s'` has the node `n` for `id`, the other nodes of `s`, and nothing more posted.
pub record Sets (s : Service) (id : ℕ) (n : SocketNode) (s' : Service) : Type 0 where
  pub there : find id s'.socket_nodes ≡ some n
  pub others : (k : ℕ) → k ≢ id → find k s'.socket_nodes ≡ find k s.socket_nodes
  pub posted : s'.posted ≡ s.posted

pub put_node-Sets : (s : Service) (id : ℕ) (n : SocketNode) → Sets s id n (put_node s id n)
put_node-Sets s id n = record {
  there = find-insert id id n s.socket_nodes ∙ rw (==_refl id) refl;
  others = λ k h. find-insert id k n s.socket_nodes ∙ ground (arith, h);
  posted = refl;
}

pub Sets-trans :
    {s s' s'' : Service} {id : ℕ} {n m : SocketNode}
    → Sets s id n s'
    → Sets s' id m s''
    → Sets s id m s''
Sets-trans a b = record {
  there = b.there;
  others = λ k h. b.others k h ∙ a.others k h;
  posted = b.posted ∙ a.posted;
}

pub consume_lem :
    (s : Service) (id : ℕ) (n : SocketNode) (sz : ℕ)
    → find id s.socket_nodes ≡ some n
    → sz ≤ length n.rbuff
    → (s' : Service) × (consume s id sz ≡ some s')
      × Sets s id (record n { rbuff = drop sz n.rbuff }) s'
unfolding consume
consume_lem s id n zero there le =
    (s, rw (there, consume) refl, record { there = there; others = λ k h. refl; posted = refl })
consume_lem s id n (suc sz) there le =
    let fits : leb (suc sz) (length n.rbuff) ≡ true = ground (arith, le) in
    let some_left : (suc sz == 0) ≡ false = ground arith in
    (
      put_node s id (record n { rbuff = drop (suc sz) n.rbuff }),
      rw (there, some_left, fits, consume) refl,
      put_node-Sets s id (record n { rbuff = drop (suc sz) n.rbuff }),
    )

-- Taking bytes away changes neither the world nor the context of the service.
consume_world :
    (s s' : Service) (id sz : ℕ)
    → consume s id sz ≡ some s'
    → (s'.world ≡ s.world) × (s'.self ≡ s.self)
unfolding consume
consume_world s s' id sz e = ground (arith, e)

-- What the callback takes of the texts, in order, where `held` waits in the node.
unfoldable pub taken : (Bytes → ℕ) → Bytes → List Bytes → Bytes
taken take_count held [] = []
taken take_count held (b ∷ bs) =
    let all = held ++ b in let k = take_count all in take k all ++ taken take_count (drop k all) bs

-- What was taken of one more text, before the rest, and what waits at the end.
pub taken_step :
    (take_count : Bytes → ℕ) (held b rest all : Bytes) (bs : List Bytes)
    → (let k = take_count (held ++ b) in
        taken take_count (drop k (held ++ b)) bs ++ rest ≡ drop k (held ++ b) ++ all)
    → taken take_count held (b ∷ bs) ++ rest ≡ held ++ (b ++ all)
unfolding taken
taken_step take_count held b rest all bs e =
    let k = take_count (held ++ b) in
    append_assoc (take k (held ++ b)) (taken take_count (drop k (held ++ b)) bs) rest
    ∙ ap (λ l. take k (held ++ b) ++ l) e
    ∙ sym (append_assoc (take k (held ++ b)) (drop k (held ++ b)) all)
    ∙ ap (λ l. l ++ all) (take-append-drop k (held ++ b))
    ∙ append_assoc held b all

module _ (take_count : Bytes → ℕ) (rehashes : List (ℕ × SocketNode) → ℕ → Bool)
    (call_id : Closure → ℕ → Service → Option Service) where
  -- The node after some bytes came in.
  abbrev pub fed : SocketNode → Bytes → SocketNode
  fed n text = let all = n.rbuff ++ text in record n { rbuff = drop (take_count all) all }

  -- A message of the connection `id` with the bytes `text`, whose callback takes its share.
  pub on_bytes_lem :
      (s : Service) (id : ℕ) (n : SocketNode) (c : Closure) (text : Bytes)
      → ((b : Bytes) → take_count b ≤ length b)
      → n.on_data ≡ some c
      → (s' : Service) × (on_bytes call_id (quiet take_count) rehashes s id n text ≡ some s')
        × Sets s id (fed n text) s'
        × (s'.world ≡ s.world)
        × (s'.self ≡ s.self)
  unfolding on_bytes
  on_bytes_lem s id n c text within e =
      let all = n.rbuff ++ text in
      let n' = record n { rbuff = all } in
      let set = put_node-Sets s id n' in
      let (s', eaten, sets) =
        consume_lem (put_node s id n') id n' (take_count all) set.there (within all) in
      let took : Option Closure → Option Service = λ o. elim o [
        | none ↦ some (put_node s id n')
        | some cb ↦ consume (put_node s id n') id (take_count all)
      ] in
      let (same_world, same_self) = consume_world (put_node s id n') s' id (take_count all) eaten in
      (s', ap took e ∙ eaten, Sets-trans set sets, same_world, same_self)
