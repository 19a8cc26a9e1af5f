-- ===== src/Rpc/Request/Delivered.antt =====
-- When `processReq` of lab3/labrpc/labrpc.go answers with the handler's reply.
use cs.Base.{ℕ, ◌≡◌, refl, sym, ap, ◌∙◌, inl, inr, Bool, true, false, Option, none, some, List}
use cs.Base.Tests.{Bool-cases, of_some}
use cs.Rpc.Network.{Network, EndnameInfo, read_endname_info, server_of, is_server_dead}
use cs.Rpc.Request.{
  Rolls, Turn, Processed, wait_reply, is_dropped, reply_at, reply_after, dispatch_at, process_at,
  process_req,
}
use cs.Rpc.Request.Alive.{IsAlive, is_server_dead-IsAlive, Replies, wait_reply-Replies}

-- The handler's reply reaches the client.
pub record Delivered (endname : ℕ) (rolls : Rolls) (net : Network) (turns : List Turn)
    (last : Network) (reply : List ℕ) : Type 0 where
  pub servername : ℕ
  pub server : ℕ
  pub connected : net.connections endname ≡ some servername
  pub was_alive : IsAlive endname servername server net
  pub request_kept : is_dropped net.reliable rolls.drop_request ≡ false
  pub replied : Replies endname servername server reply turns
  pub still_alive : IsAlive endname servername server last
  pub reply_kept : is_dropped net.reliable rolls.drop_reply ≡ false

reply_at-cases :
    (info : EndnameInfo) (rolls : Rolls) (dead : Bool) (o : Option (List ℕ))
    → (reply_at info rolls dead o).answer.ok ≡ true
    → (dead ≡ false)
      × (is_dropped info.is_reliable rolls.drop_reply ≡ false)
      × (o ≡ some (reply_at info rolls dead o).answer.reply)
unfolding reply_at
reply_at-cases info rolls dead none h = cc
reply_at-cases info rolls true (some reply) h = cc
reply_at-cases info rolls false (some reply) h =
    elim (Bool-cases (is_dropped info.is_reliable rolls.drop_reply)) [
      | inl t ↦ absurd (let h' : false ≡ true = sym (rw t refl) ∙ h in cc)
      | inr f ↦ (refl, f, rw f refl)
    ]

reply_after-cases :
    (info : EndnameInfo) (rolls : Rolls) (dead : Bool) (o : Option (Option (List ℕ)))
    (p : Processed)
    → reply_after info rolls dead o ≡ some p
    → p.answer.ok ≡ true
    → (dead ≡ false)
      × (is_dropped info.is_reliable rolls.drop_reply ≡ false)
      × (o ≡ some (some p.answer.reply))
unfolding reply_after
reply_after-cases info rolls dead none p h k = cc
reply_after-cases info rolls dead (some o) p h k =
    let q : reply_at info rolls dead o ≡ p = of_some h in
    let (a, b, c) = reply_at-cases info rolls dead o (ap (λ z. z.answer.ok) q ∙ k) in
    (a, b, ap some (c ∙ ap (λ z. some z.answer.reply) q))

dispatch_at-cases :
    (b : Bool) (rest : Option Processed) (p : Processed)
    → dispatch_at b rest ≡ some p
    → p.answer.ok ≡ true
    → (b ≡ false) × (rest ≡ some p)
unfolding dispatch_at
dispatch_at-cases true rest p h k = absurd (let k' = ap (λ z. z.answer.ok) (of_some h) ∙ k in cc)
dispatch_at-cases false rest p h k = (refl, h)

process_at-Delivered :
    (endname : ℕ) (rolls : Rolls) (net : Network) (turns : List Turn) (last : Network)
    (p : Processed) (b : Bool) (n s : Option ℕ)
    → net.enabled endname ≡ b
    → net.connections endname ≡ n
    → server_of n net.servers ≡ s
    → process_at endname (read_endname_info endname net) rolls turns last b n s ≡ some p
    → p.answer.ok ≡ true
    → Delivered endname rolls net turns last p.answer.reply
unfolding process_at read_endname_info server_of
process_at-Delivered endname rolls net turns last p true (some servername) (some server) e f g h k =
    let (kept, rest) =
      dispatch_at-cases (is_dropped net.reliable rolls.drop_request)
        (reply_after (read_endname_info endname net) rolls
          (is_server_dead endname servername server last)
          (wait_reply endname servername server turns))
        p h k in
    let (alive, kept', turned) =
      reply_after-cases (read_endname_info endname net) rolls
        (is_server_dead endname servername server last) (wait_reply endname servername server turns)
        p rest k in
    record {
      servername = servername;
      server = server;
      connected = f;
      was_alive = (e, g);
      request_kept = kept;
      replied = wait_reply-Replies endname servername server p.answer.reply turns turned;
      still_alive = is_server_dead-IsAlive endname servername server last alive;
      reply_kept = kept';
    }
process_at-Delivered endname rolls net turns last p true (some servername) none e f g h k =
    absurd (let k' = ap (λ z. z.answer.ok) (of_some h) ∙ k in cc)
process_at-Delivered endname rolls net turns last p true none s e f g h k =
    absurd (let k' = ap (λ z. z.answer.ok) (of_some h) ∙ k in cc)
process_at-Delivered endname rolls net turns last p false n s e f g h k =
    absurd (let k' = ap (λ z. z.answer.ok) (of_some h) ∙ k in cc)

-- A request that is answered with success was read from an enabled end connected to a server, the server's handler returned
-- the reply that is delivered, at every look at the network until then and once more afterwards the end was enabled and
-- the name had the same server, and neither the request nor the reply was dropped.
pub process_req-Delivered :
    (endname : ℕ) (rolls : Rolls) (net : Network) (turns : List Turn) (last : Network)
    (p : Processed)
    → process_req endname rolls net turns last ≡ some p
    → p.answer.ok ≡ true
    → Delivered endname rolls net turns last p.answer.reply
unfolding process_req read_endname_info
process_req-Delivered endname rolls net turns last p h k =
    process_at-Delivered endname rolls net turns last p (net.enabled endname)
      (net.connections endname) (server_of (net.connections endname) net.servers) refl refl refl h k
