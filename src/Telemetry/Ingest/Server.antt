-- ===== src/Telemetry/Ingest/Server.antt =====
-- apps/telemetry-ingest/src/server.ts, `createIngestServer`: the server with all its connections. A
-- socket is known by a number of its own. The handling of a chunk is one step: the socket is paused
-- meanwhile.
use express_monorepo_bank_te.Base.{
  ℕ, Bool, true, false, not, Option, none, some, List, [], ◌∷◌, ◌++◌, map, length, select, ◌==◌,
  is_some, any_of, if◌then◌else◌,
}
use express_monorepo_bank_te.Base.Table.{find_by, update_by}
use express_monorepo_bank_te.Telemetry.Events.{TelemetryEvent}
use express_monorepo_bank_te.Telemetry.Ingest.{
  Connection, Effect, threw, connect, drop, idle_timeout, handle_chunk,
}
pub mod Isolation

-- A member of the set `connections`; `hung_up` after `socket.end()`.
pub record Device : Type 0 where
  pub socket : ℕ
  pub connection : Connection
  pub hung_up : Bool

-- `alive` until an unhandled rejection ends the process.
pub record Server : Type 0 where
  pub alive : Bool
  pub listening : Bool
  pub connections : List Device

-- What happens to a server: a device connects, sends bytes, with the times at which what they hold is handled, stays silent for the idle
-- timeout, its socket fails or is closed; and the service calls `close()`.
pub data Arrival : Type 0 where
  connected : ℕ → Arrival
  data_from : ℕ → (ℕ → ℕ) → List ℕ → Arrival
  timed_out socket_error closed : ℕ → Arrival
  close_called : Arrival

abbrev pub new_device : ℕ → Device
new_device socket = record { socket = socket; connection = connect; hung_up = false }

-- The handler of a new connection; a server that has stopped listening gets none.
abbrev pub accept : ℕ → Server → Server
accept socket s =
    if is_some (find_by Device.socket socket s.connections)
    then s
    else if s.listening
    then record s { connections = s.connections ++ new_device socket ∷ [] }
    else s

abbrev pub at_socket : ℕ → (Connection → Connection) → Server → Server
at_socket socket f s = record s {
  connections =
      update_by Device.socket socket (λ d. record d { connection = f d.connection }) s.connections;
}

-- `socket.end()`
abbrev pub hang_up : Device → Device
hang_up d = record d { hung_up = true }

abbrev is_threw : Effect → Bool
is_threw threw = true
is_threw _ = false

-- Whether the handling of some connection's bytes has thrown.
abbrev pub has_thrown : List Device → Bool
has_thrown devices = any_of (λ d. any_of is_threw (Connection.effects d.connection)) devices

module _ (publish : List TelemetryEvent → Bool) where
  abbrev pub receive : ℕ → (ℕ → ℕ) → List ℕ → Server → Server
  receive socket now chunk s =
      let s' = at_socket socket (handle_chunk publish now chunk) s in
      record s' { alive = not (has_thrown s'.connections) }

  -- What a living process does.
  abbrev pub react : Arrival → Server → Server
  react (connected socket) s = accept socket s
  react (data_from socket now chunk) s = receive socket now chunk s
  react (timed_out socket) s = at_socket socket (drop idle_timeout) s
  -- `socket.on('error')` only logs
  react (socket_error socket) s = s
  react (closed socket) s = record s {
    connections = select (λ d. not (d.socket == socket)) s.connections;
  }
  react close_called s = record s { listening = false; connections = map hang_up s.connections }

  unfoldable pub serve : Arrival → Server → Server
  unfolding handle_chunk
  serve a s = if s.alive then react a s else s

  unfoldable pub serve_all : List Arrival → Server → Server
  unfolding serve
  serve_all [] s = s
  serve_all (a ∷ rest) s = serve_all rest (serve a s)

-- `connectionCount()`
abbrev pub connection_count : Server → ℕ
connection_count s = length s.connections
