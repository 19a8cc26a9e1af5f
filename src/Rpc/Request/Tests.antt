-- ===== src/Rpc/Request/Tests.antt =====
-- Requests on one end of a network with one server.
use cs.Base.{◌≡◌, refl, inl, inr, true, false, some, List, [], ◌∷◌}
use cs.Rpc.Network.{
  Network, make_network, set_reliable, read_endname_info, server_of, is_server_dead,
}
use cs.Rpc.Request.{
  Rolls, Turn, replies, polls, Processed, failure, wait_reply, is_dropped, reply_at, reply_after,
  dispatch_at, process_at, process_req,
}
use cs.Rpc.Request.Delivered.{Delivered, process_req-Delivered}
use cs.Rpc.Request.Returns.{IsAnswer, process_req_returns}

-- End 8 leads to server 1, whose pointer is 50.
abbrev one_end : Network
one_end = record make_network {
  ends = λ x. true;
  enabled = λ x. true;
  connections = λ x. some 1;
  servers = λ x. some 50;
}

abbrev replaced : Network
replaced = record one_end { servers = λ x. some 51 }

abbrev lucky : Rolls
lucky = record { drop_request = 500; drop_reply = 500; delay_reply = 10 }

abbrev slow : List Turn
slow = polls one_end ∷ polls one_end ∷ replies (7 ∷ 8 ∷ []) ∷ []

abbrev delivered : Processed
delivered = record {
  answer = record { ok = true; reply = 7 ∷ 8 ∷ [] };
  has_run = true;
  is_delayed = false;
}

answered : process_req 8 lucky one_end slow one_end ≡ some delivered
unfolding process_req process_at dispatch_at reply_after reply_at wait_reply is_dropped
    read_endname_info server_of is_server_dead make_network
answered = refl

-- The server was replaced before the last look.
too_late :
    process_req 8 lucky one_end slow replaced
    ≡ some (record { answer = failure; has_run = true; is_delayed = false })
unfolding process_req process_at dispatch_at reply_after reply_at wait_reply is_dropped
    read_endname_info server_of is_server_dead make_network
too_late = refl

-- An unreliable network drops the request.
dropped :
    process_req 8 (record lucky { drop_request = 2099 }) (set_reliable false one_end) slow one_end
    ≡ some (record { answer = failure; has_run = false; is_delayed = false })
unfolding process_req process_at dispatch_at reply_after reply_at wait_reply is_dropped
    read_endname_info server_of is_server_dead make_network set_reliable
dropped = refl

process_req-Delivered_example : Delivered 8 lucky one_end slow one_end (7 ∷ 8 ∷ [])
process_req-Delivered_example =
    process_req-Delivered 8 lucky one_end slow one_end delivered answered refl

-- The looks find that the end was disabled meanwhile.
abbrev disabled : Network
disabled = record one_end { enabled = λ x. false }

process_req_returns_example :
    (p : Processed) × (process_req 8 lucky one_end (polls one_end ∷ polls disabled ∷ []) one_end
      ≡ some p)
    × IsAnswer (polls one_end ∷ polls disabled ∷ []) p
process_req_returns_example =
    process_req_returns 8 lucky one_end (polls one_end ∷ polls disabled ∷ []) one_end
      (λ n s e f. inr (disabled, inr (inl refl), inl refl))
