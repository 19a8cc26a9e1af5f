-- ===== src/Rpc/Request/Returns.antt =====
-- `processReq` of lab3/labrpc/labrpc.go answers once the handler has returned or the server is dead.
use cs.Base.{
  ℕ, ◌≡◌, ◌≢◌, refl, sym, ap, ◌∙◌, ◌⊎◌, inl, inr, Bool, true, false, Option, none, some, List, [],
  ◌∷◌,
}
use cs.Base.All.{In}
use cs.Base.Tests.{Bool-cases}
use cs.Rpc.Network.{Network, EndnameInfo, read_endname_info, server_of, is_server_dead}
use cs.Rpc.Request.{
  Rolls, Turn, replies, polls, Processed, failure, wait_reply, is_dropped, reply_at, reply_after,
  dispatch_at, process_at, process_req,
}
use cs.Rpc.Request.Alive.{is_server_dead-IsAlive}

-- Somewhere among the turns the handler replies, or the network is one in which the end is disabled or
-- the name no longer has the server.
abbrev pub Ends : ℕ → ℕ → ℕ → List Turn → Type 0
Ends endname servername server turns =
    ((reply : List ℕ) × In (replies reply) turns)
    ⊎ ((net : Network) × In (polls net) turns
        × ((net.enabled endname ≡ false) ⊎ (net.servers servername ≢ some server)))

-- The client is told of a failure, or gets what the handler replied.
abbrev pub IsAnswer : List Turn → Processed → Type 0
IsAnswer turns p = (p.answer ≡ failure) ⊎ ((p.answer.ok ≡ true) × In (replies p.answer.reply) turns)

-- The loop's result.
abbrev IsEnd : List Turn → Option (List ℕ) → Type 0
IsEnd turns none = Unit
IsEnd turns (some reply) = In (replies reply) turns

Ends-tail :
    (endname servername server : ℕ) (net : Network) (turns : List Turn)
    → is_server_dead endname servername server net ≡ false
    → Ends endname servername server (polls net ∷ turns)
    → Ends endname servername server turns
Ends-tail e n s net turns f (inl (r, inl k)) = cc
Ends-tail e n s net turns f (inl (r, inr m)) = inl (r, m)
Ends-tail e n s net turns f (inr (net', inr m, d)) = inr (net', m, d)
Ends-tail e n s net turns f (inr (net', inl k, d)) =
    let same : net' ≡ net = cc in
    let (on, has) = is_server_dead-IsAlive e n s net f in
    elim d [
      | inl off ↦ absurd (let bad : false ≡ true = sym off ∙ ap (λ z. z.enabled e) same ∙ on in cc)
      | inr gone ↦ absurd (gone (ap (λ z. z.servers n) same ∙ has))
    ]

wait_reply-Ends :
    (endname servername server : ℕ) (turns : List Turn)
    → Ends endname servername server turns
    → ((r : Option (List ℕ)) × (wait_reply endname servername server turns ≡ some r)
        × IsEnd turns r)
unfolding wait_reply
wait_reply-Ends e n s [] (inl (r, m)) = absurd m
wait_reply-Ends e n s [] (inr (net, m, d)) = absurd m
wait_reply-Ends e n s (replies r ∷ turns) h = (some r, refl, inl refl)
wait_reply-Ends e n s (polls net ∷ turns) h = elim (Bool-cases (is_server_dead e n s net)) [
  | inl t ↦ (none, rw t refl, tt)
  | inr f ↦ later f (wait_reply-Ends e n s turns (Ends-tail e n s net turns f h))
]
  where
    later :
        is_server_dead e n s net ≡ false
        → ((r : Option (List ℕ)) × (wait_reply e n s turns ≡ some r) × IsEnd turns r)
        → ((r : Option (List ℕ)) × (wait_reply e n s (polls net ∷ turns) ≡ some r)
            × IsEnd (polls net ∷ turns) r)
    later f (none, q, m) = (none, rw f q, tt)
    later f (some r, q, m) = (some r, rw f q, inr m)

reply_at-IsAnswer :
    (info : EndnameInfo) (rolls : Rolls) (dead : Bool) (turns : List Turn) (r : Option (List ℕ))
    → IsEnd turns r
    → IsAnswer turns (reply_at info rolls dead r)
unfolding reply_at
reply_at-IsAnswer info rolls dead turns none m = inl refl
reply_at-IsAnswer info rolls true turns (some r) m = inl refl
reply_at-IsAnswer info rolls false turns (some r) m =
    elim (Bool-cases (is_dropped info.is_reliable rolls.drop_reply)) [
      | inl t ↦ inl (rw t refl)
      | inr f ↦ rw f (inr (refl, m))
    ]

dispatch_at-IsAnswer :
    (b : Bool) (p : Processed) (turns : List Turn)
    → IsAnswer turns p
    → ((p' : Processed) × (dispatch_at b (some p) ≡ some p') × IsAnswer turns p')
unfolding dispatch_at
dispatch_at-IsAnswer true p turns m =
    (record { answer = failure; has_run = false; is_delayed = false }, refl, inl refl)
dispatch_at-IsAnswer false p turns m = (p, refl, m)

process_at-Ends :
    (endname : ℕ) (info : EndnameInfo) (rolls : Rolls) (turns : List Turn) (last : Network)
    (b : Bool) (n s : Option ℕ)
    → ((servername server : ℕ)
        → n ≡ some servername
        → s ≡ some server
        → Ends endname servername server turns)
    → ((p : Processed) × (process_at endname info rolls turns last b n s ≡ some p)
        × IsAnswer turns p)
unfolding process_at reply_after
process_at-Ends endname info rolls turns last true (some servername) (some server) h =
    let (r, e, m) =
      wait_reply-Ends endname servername server turns (h servername server refl refl) in
    let dead = is_server_dead endname servername server last in
    let kept = is_dropped info.is_reliable rolls.drop_request in
    let (p, q, a) =
      dispatch_at-IsAnswer kept (reply_at info rolls dead r) turns
        (reply_at-IsAnswer info rolls dead turns r m) in
    (p, ap (λ z. dispatch_at kept (reply_after info rolls dead z)) e ∙ q, a)
process_at-Ends endname info rolls turns last true (some servername) none h =
    (record { answer = failure; has_run = false; is_delayed = true }, refl, inl refl)
process_at-Ends endname info rolls turns last true none s h =
    (record { answer = failure; has_run = false; is_delayed = true }, refl, inl refl)
process_at-Ends endname info rolls turns last false n s h =
    (record { answer = failure; has_run = false; is_delayed = true }, refl, inl refl)

-- A request is answered, whatever the network and the random values are, when, should its end be connected to a server, that
-- server's handler replies or some look at the network is one in which the end is disabled or the name no longer has that
-- server. The answer is the failure, or a reply of the handler.
pub process_req_returns :
    (endname : ℕ) (rolls : Rolls) (net : Network) (turns : List Turn) (last : Network)
    → ((servername server : ℕ)
        → net.connections endname ≡ some servername
        → server_of (net.connections endname) net.servers ≡ some server
        → Ends endname servername server turns)
    → ((p : Processed) × (process_req endname rolls net turns last ≡ some p) × IsAnswer turns p)
unfolding process_req read_endname_info
process_req_returns endname rolls net turns last h =
    process_at-Ends endname (read_endname_info endname net) rolls turns last (net.enabled endname)
      (net.connections endname) (server_of (net.connections endname) net.servers) h

-- A disabled end's request fails, and starts no handler.
pub process_req_disabled :
    (endname : ℕ) (rolls : Rolls) (net : Network) (turns : List Turn) (last : Network)
    → net.enabled endname ≡ false
    → process_req endname rolls net turns last
      ≡ some (record { answer = failure; has_run = false; is_delayed = true })
unfolding process_req process_at read_endname_info
process_req_disabled endname rolls net turns last h = rw h refl
