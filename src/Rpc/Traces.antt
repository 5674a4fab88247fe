-- ===== src/Rpc/Traces.antt =====
-- What the RPC filter (ebpf/plugins/rpc/main.c) writes of a request and its response.
use erda_agent.Base.{
  ℕ, zero, suc, ◌+◌, drop, ◌++◌, nat_eq, ◌≡◌, refl, ap, ◌∙◌, List, [], ◌∷◌, length, u32, sub64,
  take, splice, arith,
}
use erda_agent.Packet.{ConnTuple, sock_key_eq}
use erda_agent.Packet.Tuple.{flip_tuple}
use erda_agent.Rpc.Types.{RpcPackage}
use erda_agent.Rpc.Program.{request_key, answered_key, answer}
use erda_agent.Rpc.Others.{tuple_key, PackageOf}

take-all : (n : ℕ) (xs : List ℕ) → length xs ≡ n → take n xs ≡ xs
take-all zero [] e = refl
take-all zero (x ∷ xs) e = absurd (omega arith)
take-all (suc n) [] e = absurd (omega arith)
take-all (suc n) (x ∷ xs) e = ap (λ l. x ∷ l) (take-all n xs (omega arith))

drop-all : (n : ℕ) (xs : List ℕ) → length xs ≡ n → drop n xs ≡ []
drop-all zero [] e = refl
drop-all zero (x ∷ xs) e = absurd (omega arith)
drop-all (suc n) [] e = absurd (omega arith)
drop-all (suc n) (x ∷ xs) e = drop-all n xs (omega arith)

append-nil : (xs : List ℕ) → xs ++ [] ≡ xs
append-nil [] = refl
append-nil (x ∷ xs) = ap (λ l. x ∷ l) (append-nil xs)

splice-whole :
    (n : ℕ) (xs ys : List ℕ) → length xs ≡ n → length ys ≡ n → splice 0 (take n xs) ys ≡ xs
splice-whole n xs ys e f =
    let g : drop (0 + length xs) ys ≡ [] = drop-all (0 + length xs) ys (omega (arith, e, f)) in
    rw (take-all n xs e) (ap (λ l. xs ++ l) g ∙ append-nil xs)

-- The trace of a request p1 at a time and its response p2 at another.
pub record IsTrace (t : ConnTuple) (t1 t2 : ℕ) (p1 p2 trace : RpcPackage) : Type 0 where
  pub of_request : request_key trace ≡ tuple_key t
  pub time_between : trace.duration ≡ u32 (sub64 t2 (u32 t1))
  pub same_path : trace.path ≡ p1.path
  pub same_path_len : trace.path_len ≡ p1.path_len
  pub same_status : trace.status ≡ p2.status
  pub same_dubbo_status : trace.dubbo_status ≡ p2.dubbo_status
  pub same_mysql_status : trace.mysql_status ≡ p2.mysql_status

pub answer-IsTrace :
    (t : ConnTuple) (t1 t2 : ℕ) (p1 p2 q1 q2 : RpcPackage)
    → PackageOf t p1 q1
    → PackageOf (flip_tuple t) p2 q2
    → length p1.path ≡ 100
    → length p2.path ≡ 100
    → IsTrace t t1 t2 p1 p2 (answer t2 (record q1 { duration = u32 t1 }) q2)
unfolding answer request_key answered_key PackageOf flip_tuple
answer-IsTrace t t1 t2 p1 p2 q1 q2 c1 c2 size1 size2 = record {
  of_request = c2.1;
  time_between = refl;
  same_path =
      splice-whole 100 q1.path q2.path (ap length (c1.3) ∙ size1) (ap length (c2.3) ∙ size2) ∙ c1.3;
  same_path_len = c1.4;
  same_status = c2.5;
  same_dubbo_status = c2.6;
  same_mysql_status = c2.7;
}
