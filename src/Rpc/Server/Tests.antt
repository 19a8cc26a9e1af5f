-- ===== src/Rpc/Server/Tests.antt =====
-- A service with one method.
use cs.Base.{ℕ, suc, ◌≡◌, refl, Option, none, some, List, [], ◌∷◌, arith}
use cs.Base.Tests.{if◌then◌else◌, ◌==◌}
use cs.Rpc.Server.{
  Service, make_server, add_service, put_service, get_service, same_name, cons_fst, split_name,
  dispatch_service, dispatch_split, dispatch,
}
use cs.Rpc.Server.Names.{dispatch-add_service}

-- The method "V" of the service "R" counts its calls.
abbrev vote : List ℕ → ℕ → List ℕ × ℕ
vote args s = (args, suc s)

abbrev find_vote : List ℕ → Option (List ℕ → ℕ → List ℕ × ℕ)
find_vote [] = none
find_vote (c ∷ rest) = if c == 86 then some vote else none

abbrev voter : Service ℕ
voter = record { name = 82 ∷ []; methods = find_vote }

-- The last dot divides the name.
two_dots : split_name (82 ∷ 46 ∷ 83 ∷ 46 ∷ 86 ∷ []) ≡ some (82 ∷ 46 ∷ 83 ∷ [], 86 ∷ [])
unfolding split_name cons_fst
two_dots = refl

no_service : (dispatch (83 ∷ 46 ∷ 86 ∷ []) [] 5 (add_service voter make_server)).0 ≡ none
unfolding dispatch dispatch_split dispatch_service split_name cons_fst get_service add_service
    put_service same_name
no_service = refl

dispatch-add_service_example :
    dispatch {S = ℕ} (82 ∷ 46 ∷ 86 ∷ []) (1 ∷ []) 5 (add_service voter make_server)
    ≡ (some (1 ∷ [], 6), record (add_service voter make_server) { count = 1 })
dispatch-add_service_example =
    dispatch-add_service voter make_server (86 ∷ []) vote (1 ∷ []) 5 (omega arith, tt) refl
