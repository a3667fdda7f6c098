-- ===== src/Broker/Outbound.antt =====
-- Outgoing bytes of a connection: the enqueueing of `Broker::on_readable` and `drain_response_queue`,
-- and `Broker::on_writable`, in broker/broker.cpp, with the registry of broker/connection_manager.cpp.
-- What the socket does is an argument. `interest` is what the poller is told to watch.
use fell.Base.{
  ℕ, ◌+◌, ◌-◌, ◌*◌, Bool, true, false, not, ◌&&◌, List, [], ◌∷◌, ◌++◌, Option, none, some, length,
  ltb, ◌==◌, if◌then◌else◌,
}
use fell.Broker.Requests.{ConnectionState}

pub record Interest : Type 0 where
  pub read : Bool
  pub write : Bool

abbrev pub high_water : ℕ
high_water = 16 * 1024 * 1024

-- Responses are put behind those that wait, and the poller is told, where there are any.
unfoldable pub enqueue : List ℕ → ConnectionState → Interest → ConnectionState × Interest
enqueue bytes conn interest = if length bytes == 0 then (conn, interest) else (
  record conn { outbound = conn.outbound ++ bytes },
  record { read = not conn.read_disabled; write = true },
)

-- Reading stops where more than 16 MiB wait.
unfoldable pub throttle : ConnectionState → Interest → ConnectionState × Interest
throttle conn interest =
    if ltb high_water (length conn.outbound - conn.write_offset) && not conn.read_disabled
    then (record conn { read_disabled = true }, record { read = false; write = true })
    else (conn, interest)

-- The end of a round of `on_readable`.
unfoldable pub after_requests : List ℕ → ConnectionState → Interest → ConnectionState × Interest
unfolding enqueue throttle
after_requests bytes conn interest = let (c, i) = enqueue bytes conn interest in throttle c i

-- What `send` returns: a count of bytes, of those offered or fewer, or an error.
pub data Sent : Type 0 where
  wrote : ℕ → Sent
  blocked : Sent
  broken : Sent

-- The lines after the send: an outbound buffer that is sent out is cleared, and reading goes on.
unfoldable pub refill : ConnectionState → Interest → ConnectionState × Interest
refill conn interest =
    if conn.write_offset == length conn.outbound
    then (
      record conn { outbound = []; write_offset = 0; read_disabled = false },
      record { read = true; write = false },
    )
    else (conn, interest)

-- `on_writable`: `none` where the connection is removed.
unfoldable pub on_writable : Sent → ConnectionState → Interest → Option (ConnectionState × Interest)
unfolding refill
on_writable (wrote n) conn interest =
    if ltb conn.write_offset (length conn.outbound)
    then some (refill (record conn { write_offset = conn.write_offset + n }) interest)
    else some (refill conn interest)
on_writable blocked conn interest = some (refill conn interest)
on_writable broken conn interest =
    if ltb conn.write_offset (length conn.outbound) then none else some (refill conn interest)

-- The connections by socket, each with what the poller watches for it, as `ConnectionManager` and the
-- poller hold them.
abbrev pub Connections : Type 0
Connections = List (ℕ × (ConnectionState × Interest))

abbrev pub get_conn : ℕ → Connections → Option (ConnectionState × Interest)
get_conn fd [] = none
get_conn fd ((f, c) ∷ cs) = if f == fd then some c else get_conn fd cs

abbrev pub remove_conn : ℕ → Connections → Connections
remove_conn fd [] = []
remove_conn fd ((f, c) ∷ cs) = if f == fd then cs else (f, c) ∷ remove_conn fd cs

-- The connection behind the pointer that `get` returned, after it has changed.
abbrev pub put_conn : ℕ → ConnectionState × Interest → Connections → Connections
put_conn fd conn [] = []
put_conn fd conn ((f, c) ∷ cs) = if f == fd then (f, conn) ∷ cs else (f, c) ∷ put_conn fd conn cs

-- One response of the queue: it is dropped where its socket is gone.
abbrev pub deliver : ℕ → List ℕ → Connections → Connections
deliver fd resp cs = elim (get_conn fd cs) [
  | none ↦ cs
  | some (conn, interest) ↦
      put_conn fd
        (
          record conn { outbound = conn.outbound ++ resp },
          record { read = not conn.read_disabled; write = true },
        )
        cs
]

-- `drain_response_queue`
unfoldable pub drain_response_queue : List (ℕ × List ℕ) → Connections → Connections
drain_response_queue [] cs = cs
drain_response_queue ((fd, resp) ∷ queue) cs = drain_response_queue queue (deliver fd resp cs)
