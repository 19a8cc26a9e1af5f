-- ===== src/Rpc/Request/Alive.antt =====
-- When `processReq` of lab3/labrpc/labrpc.go answers, and when it answers with a reply.
use cs.Base.{
  ℕ, ◌≡◌, refl, sym, ap, ◌∙◌, inl, inr, Bool, true, false, not, Option, none, some, List, [], ◌∷◌,
}
use cs.Base.Tests.{if◌then◌else◌, ◌==◌, ==_iff, Bool-cases, of_some}
use cs.Rpc.Network.{Network, is_server_dead, is_other}
use cs.Rpc.Request.{Turn, replies, polls, wait_reply}

-- The server has the name, and the end may send.
abbrev pub IsAlive : ℕ → ℕ → ℕ → Network → Type 0
IsAlive endname servername server rn =
    (rn.enabled endname ≡ true) × (rn.servers servername ≡ some server)

pub is_server_dead-IsAlive :
    (endname servername server : ℕ) (rn : Network)
    → is_server_dead endname servername server rn ≡ false
    → IsAlive endname servername server rn
unfolding is_server_dead
is_server_dead-IsAlive endname servername server rn h =
    found (rn.enabled endname) (rn.servers servername) refl refl h
  where
    found :
        (b : Bool) (o : Option ℕ)
        → rn.enabled endname ≡ b
        → rn.servers servername ≡ o
        → (if not b then true else is_other o server) ≡ false
        → IsAlive endname servername server rn
    found false o e q k = cc
    found true none e q k = cc
    found true (some current) e q k =
        (e, q ∙ ap some ((==_iff current server).0 (of_not (current == server) k)))
      where
        of_not : (b : Bool) → not b ≡ false → b ≡ true
        of_not true h = refl
        of_not false h = cc

-- What the turns hold when the loop ends with a reply.
abbrev pub Replies : ℕ → ℕ → ℕ → List ℕ → List Turn → Type 0
Replies endname servername server reply [] = ⊥
Replies endname servername server reply (replies r ∷ turns) = r ≡ reply
Replies endname servername server reply (polls net ∷ turns) =
    IsAlive endname servername server net × Replies endname servername server reply turns

pub wait_reply-Replies :
    (endname servername server : ℕ) (reply : List ℕ) (turns : List Turn)
    → wait_reply endname servername server turns ≡ some (some reply)
    → Replies endname servername server reply turns
unfolding wait_reply
wait_reply-Replies e n s reply [] h = cc
wait_reply-Replies e n s reply (replies r ∷ turns) h = of_some (of_some h)
wait_reply-Replies e n s reply (polls net ∷ turns) h =
    elim (Bool-cases (is_server_dead e n s net)) [
      | inl t ↦ absurd (let h' : some none ≡ some (some reply) = sym (rw t refl) ∙ h in cc)
      | inr f ↦ (
        is_server_dead-IsAlive e n s net f,
        wait_reply-Replies e n s reply turns (sym (rw f refl) ∙ h),
      )
    ]
