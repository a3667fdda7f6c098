-- ===== src/Broker/Dispatch/Registered.antt =====
-- The connections of the broker, each tidy, under the operations of `ConnectionManager` and the response
-- queue.
use fell.Base.{
  ℕ, refl, inl, inr, true, not, Bool-cases, Option-cases, List, [], ◌∷◌, ◌++◌, Option, none, some,
  All, subst, ◌==◌, length-append, arith,
}
use fell.Broker.Requests.{ConnectionState}
use fell.Broker.Outbound.{
  Interest, Connections, get_conn, remove_conn, put_conn, deliver, drain_response_queue,
}
use fell.Broker.Sending.{Tidy}
use fell.Broker.Dispatch.{keep}

-- Every connection is tidy.
abbrev pub TidyConn : ℕ × (ConnectionState × Interest) → Type 0
TidyConn (fd, (conn, interest)) = Tidy conn interest

abbrev pub TidyOption : Option (ConnectionState × Interest) → Type 0
TidyOption none = Unit {0}
TidyOption (some (conn, interest)) = Tidy conn interest

abbrev pub AllTidy : Connections → Type 0
AllTidy cs = All TidyConn cs

pub get_conn-Tidy : (fd : ℕ) (cs : Connections) → AllTidy cs → TidyOption (get_conn fd cs)
get_conn-Tidy fd [] h = tt
get_conn-Tidy fd ((f, c) ∷ cs) h = elim (Bool-cases (f == fd)) [
  | inl here ↦ rw here h.0
  | inr there ↦ rw there (get_conn-Tidy fd cs h.1)
]

pub remove_conn-Tidy : (fd : ℕ) (cs : Connections) → AllTidy cs → AllTidy (remove_conn fd cs)
remove_conn-Tidy fd [] h = tt
remove_conn-Tidy fd ((f, c) ∷ cs) h = elim (Bool-cases (f == fd)) [
  | inl here ↦ rw here h.1
  | inr there ↦ rw there (h.0, remove_conn-Tidy fd cs h.1)
]

pub put_conn-Tidy :
    (fd : ℕ) (conn : ConnectionState) (interest : Interest) (cs : Connections)
    → Tidy conn interest
    → AllTidy cs
    → AllTidy (put_conn fd (conn, interest) cs)
put_conn-Tidy fd conn interest [] t h = tt
put_conn-Tidy fd conn interest ((f, c) ∷ cs) t h = elim (Bool-cases (f == fd)) [
  | inl here ↦ rw here (t, h.1)
  | inr there ↦ rw there (h.0, put_conn-Tidy fd conn interest cs t h.1)
]

pub keep-Tidy :
    (fd : ℕ) (c : Option (ConnectionState × Interest)) (cs : Connections)
    → TidyOption c
    → AllTidy cs
    → AllTidy (keep fd c cs)
keep-Tidy fd none cs t h = remove_conn-Tidy fd cs h
keep-Tidy fd (some (conn, interest)) cs t h = put_conn-Tidy fd conn interest cs t h

pub deliver-Tidy :
    (fd : ℕ) (resp : List ℕ) (cs : Connections) → AllTidy cs → AllTidy (deliver fd resp cs)
deliver-Tidy fd resp cs h = elim (Option-cases (get_conn fd cs)) [
  | inl gone ↦ rw (deliver, gone) h
  | inr ((conn, interest), there) ↦
      let t : Tidy conn interest = subst TidyOption there (get_conn-Tidy fd cs h) in
      rw (deliver, there)
        (put_conn-Tidy fd (record conn { outbound = conn.outbound ++ resp })
          (record { read = not conn.read_disabled; write = true }) cs
          (record {
            inside = omega (arith, t.inside, length-append conn.outbound resp);
            watched = λ more. refl;
            reads = refl;
          })
          h)
]

pub drain-Tidy :
    (queue : List (ℕ × List ℕ)) (cs : Connections)
    → AllTidy cs
    → AllTidy (drain_response_queue queue cs)
unfolding drain_response_queue
drain-Tidy [] cs h = h
drain-Tidy ((fd, resp) ∷ queue) cs h =
    drain-Tidy queue (deliver fd resp cs) (deliver-Tidy fd resp cs h)
