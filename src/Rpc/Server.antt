-- ===== src/Rpc/Server.antt =====
-- `Server` and `Service.dispatch` of lab3/labrpc/labrpc.go. A name is the list of its bytes. `S` is what a service's methods
-- change; what `reflect` and `labgob` make of a method is a function of the encoded arguments.
pub mod Names
mod Tests
use cs.Base.{
  ℕ, zero, suc, ◌+◌, ◌%◌, ◌^◌, Bool, true, false, ◌&&◌, Option, none, some, List, [], ◌∷◌,
}
use cs.Base.Tests.{if◌then◌else◌, ◌==◌}

pub record Service (S : Type 0) : Type 0 where
  pub name : List ℕ
  pub methods : List ℕ → Option (List ℕ → S → List ℕ × S)

-- `services` is a map; `count` is the bits of an int.
pub record Server (S : Type 0) : Type 0 where
  pub services : List (List ℕ × Service S)
  pub count : ℕ

abbrev pub make_server : {S : Type 0} → Server S
make_server = record { services = []; count = 0 }

pub same_name : List ℕ → List ℕ → Bool
same_name [] [] = true
same_name [] (b ∷ bytes') = false
same_name (a ∷ bytes) [] = false
same_name (a ∷ bytes) (b ∷ bytes') = (a == b) && same_name bytes bytes'

-- The map with a value at a key, and the value of a key.
pub put_service :
    {S : Type 0} → List ℕ → Service S → List (List ℕ × Service S) → List (List ℕ × Service S)
put_service name svc [] = (name, svc) ∷ []
put_service name svc ((key, old) ∷ rest) =
    let rest' = put_service name svc rest in
    if same_name key name then (key, svc) ∷ rest else (key, old) ∷ rest'

pub get_service : {S : Type 0} → List ℕ → List (List ℕ × Service S) → Option (Service S)
get_service name [] = none
get_service name ((key, svc) ∷ rest) =
    let found = get_service name rest in if same_name key name then some svc else found

pub add_service : {S : Type 0} → Service S → Server S → Server S
unfolding put_service
add_service svc rs = record rs { services = put_service svc.name svc rs.services }

-- `strings.LastIndex(svcMeth, ".")` and both slices: a name with no dot ends in a panic.
pub cons_fst : ℕ → List ℕ → Option (List ℕ × List ℕ) → Option (List ℕ × List ℕ)
cons_fst c rest (some (service_name, method_name)) = some (c ∷ service_name, method_name)
cons_fst c rest none = if c == 46 then some ([], rest) else none

pub split_name : List ℕ → Option (List ℕ × List ℕ)
unfolding cons_fst
split_name [] = none
split_name (c ∷ rest) = cons_fst c rest (split_name rest)

-- `Service.dispatch`: none is the end of the program.
pub call_method : {S : Type 0} → Option (List ℕ → S → List ℕ × S) → List ℕ → S → Option (List ℕ × S)
call_method none args s = none
call_method (some method) args s = some (method args s)

pub dispatch_service : {S : Type 0} → Option (Service S) → List ℕ → List ℕ → S → Option (List ℕ × S)
unfolding call_method
dispatch_service none method_name args s = none
dispatch_service (some svc) method_name args s = call_method (svc.methods method_name) args s

pub dispatch_split :
    {S : Type 0} → Server S → Option (List ℕ × List ℕ) → List ℕ → S → Option (List ℕ × S)
unfolding get_service dispatch_service
dispatch_split rs none args s = none
dispatch_split rs (some (service_name, method_name)) args s =
    dispatch_service (get_service service_name rs.services) method_name args s

-- `Server.dispatch`: the reply, if the program goes on, and the server.
pub dispatch : {S : Type 0} → List ℕ → List ℕ → S → Server S → Option (List ℕ × S) × Server S
unfolding split_name dispatch_split
dispatch svc_meth args s rs =
    (dispatch_split rs (split_name svc_meth) args s, record rs { count = (rs.count + 1) % 2 ^ 64 })
