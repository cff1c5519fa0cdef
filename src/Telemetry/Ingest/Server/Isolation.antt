-- ===== src/Telemetry/Ingest/Server/Isolation.antt =====
-- A device's connection depends on what happens to it alone.
use express_monorepo_bank_te.Base.{
  true, inl, inr, Bool-cases, ℕ, Bool, false, not, Option, none, some, List, [], ◌∷◌, ◌++◌, ◌≡◌,
  refl, map, select, ◌==◌, is_some, if◌then◌else◌, arith,
}
use express_monorepo_bank_te.Base.Table.{find_by, update_by}
use express_monorepo_bank_te.Telemetry.Events.{TelemetryEvent}
use express_monorepo_bank_te.Telemetry.Ingest.{Connection, drop, idle_timeout, handle_chunk}
use express_monorepo_bank_te.Telemetry.Ingest.Server.{
  Device, Server, Arrival, connected, data_from, timed_out, socket_error, closed, close_called,
  new_device, hang_up, react, serve, serve_all,
}

-- One socket's share of the server: whether the server listens, and the socket's connection.
pub record View : Type 0 where
  pub listening : Bool
  pub device : Option Device

abbrev pub view : ℕ → Server → View
view socket s = record {
  listening = s.listening;
  device = find_by Device.socket socket s.connections;
}

abbrev map_device : (Device → Device) → Option Device → Option Device
map_device f none = none
map_device f (some d) = some (f d)

-- What an arrival does to a socket with no other beside it; what happens to another socket does nothing.
module _ (publish : List TelemetryEvent → Bool) where
  abbrev pub serve_one : ℕ → Arrival → View → View
  serve_one socket (connected other) v =
      if other == socket
      then if is_some v.device
        then v
        else if v.listening
        then record v { device = some (new_device socket) }
        else v
      else v
  serve_one socket (data_from other now chunk) v =
      if other == socket
      then record v {
        device =
            map_device (λ d. record d { connection = handle_chunk publish now chunk d.connection })
              v.device;
      }
      else v
  serve_one socket (timed_out other) v =
      if other == socket
      then record v {
        device =
            map_device (λ d. record d { connection = drop idle_timeout d.connection }) v.device;
      }
      else v
  serve_one socket (socket_error other) v = v
  serve_one socket (closed other) v = if other == socket then record v { device = none } else v
  serve_one socket close_called v = record {
    listening = false;
    device = map_device hang_up v.device;
  }

  pub serve_alone : ℕ → List Arrival → View → View
  serve_alone socket [] v = v
  serve_alone socket (a ∷ rest) v = serve_alone socket rest (serve_one socket a v)

find_by-update :
    (k j : ℕ) (f : Connection → Connection) (rows : List Device)
    → find_by Device.socket k
        (update_by Device.socket j (λ d. record d { connection = f d.connection }) rows)
      ≡ (if j == k
          then map_device
              (λ d. record d { connection = f d.connection })
              (find_by Device.socket k rows)
          else find_by Device.socket k rows)
find_by-update k j f [] = ground arith
find_by-update k j f (d ∷ rows) = ground (arith, find_by-update k j f rows)

find_by-closed :
    (k j : ℕ) (rows : List Device)
    → find_by Device.socket k (select (λ d. not (d.socket == j)) rows)
      ≡ (if j == k then none else find_by Device.socket k rows)
find_by-closed k j [] = ground arith
find_by-closed k j (d ∷ rows) = ground (arith, find_by-closed k j rows)

find_by-hang_up :
    (k : ℕ) (rows : List Device)
    → find_by Device.socket k (map hang_up rows) ≡ map_device hang_up (find_by Device.socket k rows)
find_by-hang_up k [] = refl
find_by-hang_up k (d ∷ rows) = ground (arith, find_by-hang_up k rows)

find_by-connected :
    (k j : ℕ) (rows : List Device)
    → find_by Device.socket j rows ≡ none
    → find_by Device.socket k (rows ++ new_device j ∷ [])
      ≡ (if j == k then some (new_device k) else find_by Device.socket k rows)
find_by-connected k j [] h = ground arith
find_by-connected k j (d ∷ rows) h = ground (arith, find_by-connected k j rows)

module _ (publish : List TelemetryEvent → Bool) where
  react-view :
      (socket : ℕ) (a : Arrival) (s : Server)
      → view socket (react publish a s) ≡ serve_one publish socket a (view socket s)
  react-view socket (connected other) s =
      ground (arith, find_by-connected socket other s.connections)
  react-view socket (data_from other now chunk) s =
      ground (arith, find_by-update socket other (handle_chunk publish now chunk) s.connections)
  react-view socket (timed_out other) s =
      ground (arith, find_by-update socket other (drop idle_timeout) s.connections)
  react-view socket (socket_error other) s = refl
  react-view socket (closed other) s = ground (arith, find_by-closed socket other s.connections)
  react-view socket close_called s = ground (arith, find_by-hang_up socket s.connections)

  -- A process that has ended stays so.
  ended : (a : Arrival) (s : Server) → s.alive ≡ false → serve publish a s ≡ s
  unfolding serve
  ended a s h = rw (h, serve)

  alive_before :
      (arrivals : List Arrival) (s : Server)
      → Server.alive (serve_all publish arrivals s) ≡ true
      → s.alive ≡ true
  unfolding serve_all
  alive_before [] s h = h
  alive_before (a ∷ rest) s h = elim (Bool-cases s.alive) [
    | inl lives ↦ lives
    | inr over ↦ alive_before rest s (rw (ended a s over) at h)
  ]

  -- If the process has not ended after a sequence of arrivals, of any devices in any order, then each
  -- socket's connection, whether it is in the registry, and whether the server listens are what the
  -- arrivals make of them for that socket alone, without any other connection.
  pub serve_all_isolates :
      (socket : ℕ) (arrivals : List Arrival) (s : Server)
      → Server.alive (serve_all publish arrivals s) ≡ true
      → view socket (serve_all publish arrivals s)
        ≡ serve_alone publish socket arrivals (view socket s)
  unfolding serve_all serve_alone serve
  serve_all_isolates socket [] s h = refl
  serve_all_isolates socket (a ∷ rest) s h =
      let lives = alive_before (a ∷ rest) s h in
      let step : serve publish a s ≡ react publish a s = rw (lives, serve) in
      rw (← react-view socket a s, ← step) (serve_all_isolates socket rest (serve publish a s) h)
