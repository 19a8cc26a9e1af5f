-- ===== src/Rpc/Server/Names.antt =====
-- How lab3/labrpc/labrpc.go finds the method that a request names.
use cs.Base.{
  ℕ, ◌+◌, ◌%◌, ◌^◌, ◌≡◌, ◌≢◌, refl, inl, inr, true, false, none, some, List, [], ◌∷◌, ◌++◌, arith,
}
use cs.Base.Tests.{◌==◌, ==_iff, Bool-cases}
use cs.Base.All.{All}
use cs.Rpc.Server.{
  Service, Server, same_name, put_service, get_service, add_service, cons_fst, split_name,
  call_method, dispatch_service, dispatch_split, dispatch,
}

same_name_self : (a : List ℕ) → same_name a a ≡ true
unfolding same_name
same_name_self [] = refl
same_name_self (x ∷ xs) = rw ((==_iff x x).1 refl, same_name_self xs) refl

-- The last dot is the one before a name that has none.
split_name-none : (m : List ℕ) → All (λ c. c ≢ 46) m → split_name m ≡ none
unfolding split_name cons_fst
split_name-none [] h = refl
split_name-none (c ∷ m) (n, h) =
    let f : (c == 46) ≡ false = ground (arith, n) in rw (split_name-none m h, f) refl

pub split_name-append :
    (service_name method_name : List ℕ)
    → All (λ c. c ≢ 46) method_name
    → split_name (service_name ++ 46 ∷ method_name) ≡ some (service_name, method_name)
unfolding split_name cons_fst
split_name-append [] m h = rw (split_name-none m h) refl
split_name-append (c ∷ name) m h = rw (split_name-append name m h) refl

module _ {S : Type 0} where
  get_service-put_self :
      (name : List ℕ) (svc : Service S) (services : List (List ℕ × Service S))
      → get_service name (put_service name svc services) ≡ some svc
  unfolding get_service put_service
  get_service-put_self name svc [] = rw (same_name_self name) refl
  get_service-put_self name svc ((key, old) ∷ rest) = elim (Bool-cases (same_name key name)) [
    | inl t ↦ rw (t, t) refl
    | inr f ↦ rw (f, f) (get_service-put_self name svc rest)
  ]

  -- A request that names a service that was added to the server, a dot and a method of it without a dot runs that method on the
  -- arguments, and is counted.
  pub dispatch-add_service :
      (svc : Service S) (rs : Server S) (method_name : List ℕ) (method : List ℕ → S → List ℕ × S)
      (args : List ℕ) (s : S)
      → All (λ c. c ≢ 46) method_name
      → svc.methods method_name ≡ some method
      → dispatch (svc.name ++ 46 ∷ method_name) args s (add_service svc rs)
        ≡ (some (method args s), record (add_service svc rs) { count = (rs.count + 1) % 2 ^ 64 })
  unfolding dispatch dispatch_split dispatch_service call_method add_service
  dispatch-add_service svc rs m method args s h e =
      rw (split_name-append svc.name m h, get_service-put_self svc.name svc rs.services, e) refl
