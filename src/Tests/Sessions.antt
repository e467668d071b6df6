-- ===== src/Tests/Sessions.antt =====
-- A client pool from its start to its first connects; and what closes a connection of it, and the other slots.
use yaoi.Base.{ℕ, ◌≡◌, ◌≢◌, refl, arith, pos, negsuc, true, false, none, some, List, [], ◌∷◌, ◌++◌}
use mathlib.Core.Option.{some-injective}
use yaoi.Crates.{Trace, v4, Entry, Completion, recv_multi, forget, handle_completions}
use yaoi.Outcome.{ok, Panic, panic}
use yaoi.Cmaps.{ClientMapMixed, ServerMapMixed}
use yaoi.Batch.{Handled}
use yaoi.Listener
use yaoi.Tests.Pools.{some_clients}
use yaoi.ClientPool.{
  TcpClientPool, pool_with_capacity, set_hugetlb, connect_slot, connect_slots, connect_with_cb,
}
use yaoi.ClientPool.Check.{Work, check, work}
use yaoi.ClientPool.Check.Closed.{client_check-closed}
use yaoi.ClientPool.Check.Frame.{client_slot_of, work-client_slot_of}
use yaoi.ClientPool.Check.Valid.{IsValid}
use yaoi.ClientPool.Check.Counts.{total}
use yaoi.ClientPool.Session.{sets, connects, ClientSteps, idle, and_then, ClientSteps-total}
use yaoi.Tests.World.{world, some_types}
use yaoi.Tests.Clients.{made, counting, counting-IsFair}

abbrev new_pool : TcpClientPool (world made) ℕ
new_pool = record {
  pool = (world made).map_new;
  c_fn = none;
  s_fn = none;
  pool_count = 2;
  state_connecting = 0;
  state_error = 0;
  state_connected = 0;
  state_shutdown = 0;
  cfg_hugetlb = none;
}

abbrev with_pages : TcpClientPool (world made) ℕ
with_pages = record new_pool { cfg_hugetlb = some 0 }

abbrev connecting_two : TcpClientPool (world made) ℕ
connecting_two = (connect_with_cb (world made) (v4 1 443) counting with_pages []).1

abbrev calls : Trace some_types
calls = (connect_with_cb (world made) (v4 1 443) counting with_pages []).2

abbrev owned : TcpClientPool (world made) ℕ → Work (world made) ℕ
owned p = record { clients = p; user = 0 }

abbrev first_call : Trace some_types
first_call = (pool_with_capacity (world made) {U = ℕ} {S = Unit {0}} 2 tt []).2

is_new :
    pool_with_capacity (world made) {U = ℕ} {S = Unit {0}} 2 tt [] ≡ (ok new_pool, tt, first_call)
unfolding pool_with_capacity
is_new = refl

two_connects : ClientSteps (world made) (owned new_pool) 2 (owned connecting_two)
unfolding set_hugetlb connect_with_cb connect_slots connect_slot
two_connects =
    and_then (sets [] [] 0 refl)
      (and_then (connects [] calls (v4 1 443) counting 2 counting-IsFair refl) idle)

ClientSteps-total_example :
    IsValid {c = world made} (owned connecting_two)
    × (total (world made) (owned connecting_two) ≡ 2)
ClientSteps-total_example =
    ClientSteps-total (world made) 2 tt tt [] first_call new_pool 0 2 (owned connecting_two) is_new
      two_connects

-- The peer closes.
abbrev end_of_input : Entry
end_of_input = record { result = pos 0; more = false; buffer_select = none }

abbrev closing : List (Entry × Completion)
closing = made ++ (end_of_input, recv_multi 0 0) ∷ []

client_check-closed_example :
    ((p : Panic) × (check (world closing) 8 (some_clients closing) []
        ≡ (panic p, some_clients closing, handle_completions 8 ∷ [])))
    × (Listener.Complete.handle end_of_input (recv_multi 0 0)
        ≡ Handled.good
            (some (
              ServerMapMixed.recv_multi (record {
                fixed_fd = 0;
                buf_id = none;
                buf_len = 0;
                buf_grp = 0;
                shutdown = true;
              })))
            forget)
client_check-closed_example =
    client_check-closed (world closing) 8 0 0 0 (some_clients closing) [] made [] end_of_input refl
      refl refl refl

abbrev refused : ClientMapMixed
refused = ClientMapMixed.connected (record { fixed_fd = 5; result = negsuc 0 })

unequal : ◌≢◌ {A = ℕ} 5 0
unequal same = omega arith

not_first : client_slot_of refused ≢ some 0
not_first e = unequal (some-injective 5 0 e)

work-client_slot_of_example :
    let c = world made in
    let w = some_clients made in
    c.get (work c refused w []).1.clients.pool 0 ≡ c.get w.clients.pool 0
work-client_slot_of_example =
    work-client_slot_of (world made) (some_clients made) [] refused 0 not_first
