-- ===== src/Tests/Pools.antt =====
-- The theorems on runs, strategies and pools, at one run and one pool each.
use yaoi.Base.{as_u32, ℕ, ◌+◌, ◌≡◌, refl, arith, pos, true, false, none, some, List, [], ◌∷◌}
use yaoi.Crates.{v4, Entry, Completion, accept, connect, handle_completions}
use yaoi.Outcome.{pure, ◌>>◌, Outcome, ok, panic, slot_missing}
use yaoi.Outcome.Rules.{Post}
use yaoi.Cmaps.{ClientMapMixed, ServerMapMixed, MapRecvMulti, MapSentZc}
use yaoi.Blueprints.{Blueprints}
use yaoi.HugeTlb.Left
use yaoi.Intermed
use yaoi.Run.{Orbit, run_blueprints}
use yaoi.Run.Laws.{with_rest, with_bp, map_run, run_blueprints-with_rest}
use yaoi.HugeTlb.{EntHugeTlb, default_cursor}
use yaoi.Intermed.{IntermedBuf, default_intermed}
use yaoi.Strategy.{StrategyListener, fixed}
use yaoi.Stream.{streaming_huge_tlb}
use yaoi.Serve.{Served}
use yaoi.Listener.{TcpListener, ListenerSlotCtx, Work}
use yaoi.Listener.Complete.{handle}
use yaoi.Listener.Check.{
  serve, serve_fuel, work_recv_multi, work_sent_zc, work_accepted, work, check,
}
use yaoi.Listener.Check.Loop.{Ends, serve-Ends}
use yaoi.Listener.Check.Accept.{IsAccepted, work_accepted-IsAccepted}
use yaoi.ClientPool.Connect.{AllConnecting, connect_with_cb-AllConnecting}
use yaoi.Listener.Listen.{listen_with_strategy}
use yaoi.Listener.Listen.Calls.{Calls, listen_calls, listen_with_strategy-Calls}
use yaoi.Listener.Listen.Laws.{IsFresh, listen_with_strategy-IsFresh}
use yaoi.Listener.Check.Slots.{IsFree, late_sent_zc}
use yaoi.Batch.Laws.{after, all_handled, work_all}
use yaoi.Listener.Check.Drain.{check-work_all}
use yaoi.ClientPool.{ClientSlotCtx, TcpClientPool, connecting, connect_with_cb}
use yaoi.ClientPool
use yaoi.ClientPool.Check.Drain.{client_check-work_all}
use yaoi.ClientPool.Check.Counts.{total, check-total}
use yaoi.Tests.World.{world, some_types}
use yaoi.Tests.Buffers.{ent_at, cursor_at-OutValid}

-- A layer that makes the stream ready, and an app that takes all that it is given.
abbrev some_orbit : Orbit some_types ℕ
some_orbit = record {
  advance_alone = λ o ent. ok (o + 1, ent);
  advance_layer = λ o ent im. ok (o + 1, record ent { is_ready = true }, im);
  advance_app = λ o im. ok (o + 1, record im { buf_right_in_len = 0; buf_right_out_len = 0 });
}

abbrev some_bp : Blueprints ℕ
some_bp = record { layers = 10 ∷ []; app = 20 }

run_blueprints-with_rest_example :
    run_blueprints some_orbit 3 (with_bp (30 ∷ []) some_bp) (ent_at 1)
    ≡ map_run (with_rest (30 ∷ [])) (run_blueprints some_orbit 3 some_bp (ent_at 1))
run_blueprints-with_rest_example =
    run_blueprints-with_rest some_orbit (30 ∷ []) 3 some_bp (ent_at 1)

-- A stream with nothing in and nothing out, and the bytes between layer and app.
abbrev new_ent : EntHugeTlb some_types
new_ent = record (ent_at 1) { cursor = default_cursor }

abbrev between : EntHugeTlb some_types → Blueprints ℕ → IntermedBuf → ℕ
between e bp im = im.buf_right_in_len + im.buf_right_out_len

abbrev im_of_layer : Outcome some_types (ℕ × EntHugeTlb some_types × IntermedBuf) → IntermedBuf
im_of_layer (ok (o, e, im)) = im
im_of_layer _ = default_intermed

abbrev ent_of_layer :
    Outcome some_types (ℕ × EntHugeTlb some_types × IntermedBuf) → EntHugeTlb some_types
ent_of_layer (ok (o, e, im)) = e
ent_of_layer _ = new_ent

abbrev im_of_app : Outcome some_types (ℕ × IntermedBuf) → IntermedBuf
im_of_app (ok (o, im)) = im
im_of_app _ = default_intermed

abbrev some_strategy : StrategyListener
some_strategy = StrategyListener.replenish 4 (fixed 16) 16

abbrev some_served : Served (world []) ℕ
some_served = record { user = 0; stream = streaming_huge_tlb (ent_at 1) }

serve-Ends_example : Ends {c = world []} (serve (world []) serve_fuel none false (some_served) [])
serve-Ends_example = serve-Ends (world []) none false (some_served) [] tt cursor_at-OutValid

abbrev pub some_listener : (batch : List (Entry × Completion)) → Work (world batch) ℕ
some_listener batch = record {
  listener = record {
    local_addr = v4 0 443;
    listen_fd = 4;
    reg_mapped_acceptfd = 0;
    strategy = some_strategy;
    pool =
        (world batch).insert ((world batch).map_new) 3
          (ListenerSlotCtx.accepted (streaming_huge_tlb (ent_at 1)));
    pool_count = 16;
    a_fn = none;
    cfg_hugetlb = none;
  };
  user = 0;
}

-- The same, with huge pages for its connections.
abbrev with_pages : (batch : List (Entry × Completion)) → Work (world batch) ℕ
with_pages batch =
    let w = some_listener batch in
    record w { listener = record w.listener { cfg_hugetlb = some 0 } }

abbrev closing : MapRecvMulti
closing = record { fixed_fd = 3; buf_id = none; buf_len = 0; buf_grp = 3; shutdown = true }

abbrev late : MapSentZc
late = record { fixed_fd = 3; sent_out = 8192; buf_ref = 0; more = false }

late_sent_zc_example :
    Post
      (λ _ w'.
        IsFree (world []) 3 w' × work_sent_zc (world []) late w' [] ≡ (panic slot_missing, w', []))
      (work_recv_multi (world []) closing (some_listener []) [])
late_sent_zc_example = late_sent_zc (world []) closing late (some_listener []) [] [] refl refl

abbrev accepted_at : ℕ → Entry × Completion
accepted_at slot = (record { result = pos slot; more = false; buffer_select = none }, accept none)

abbrev accepted_one : ServerMapMixed
accepted_one = ServerMapMixed.accepted (record { result = pos 5; s_addr = none })

all_handled_one : all_handled handle (accepted_at 5 ∷ []) ≡ some (accepted_one ∷ [])
unfolding all_handled after handle
all_handled_one = refl

check-work_all_example :
    let c = world (accepted_at 5 ∷ []) in
    let w = with_pages (accepted_at 5 ∷ []) in
    check c 8 w [] ≡ work_all c (work c) (accepted_one ∷ []) w (handle_completions 8 ∷ [])
check-work_all_example =
    check-work_all (world (accepted_at 5 ∷ [])) 8 (accepted_one ∷ [])
      (with_pages (accepted_at 5 ∷ [])) [] (omega arith) refl all_handled_one

abbrev connected_at : ℕ → Entry × Completion
connected_at slot = (record { result = pos 0; more = false; buffer_select = none }, connect slot)

abbrev pub some_clients :
    (batch : List (Entry × Completion)) → ClientPool.Check.Work (world batch) ℕ
some_clients batch = record {
  clients = record {
    pool = (world batch).insert ((world batch).map_new) 0 (connecting 9);
    c_fn = none;
    s_fn = none;
    pool_count = 1;
    state_connecting = 1;
    state_error = 0;
    state_connected = 0;
    state_shutdown = 0;
    cfg_hugetlb = some 0;
  };
  user = 0;
}

check-total_example :
    let c = world (connected_at 0 ∷ []) in
    let w = some_clients (connected_at 0 ∷ []) in
    total c (ClientPool.Check.check c 8 w []).1 ≡ total c w
check-total_example =
    check-total (world (connected_at 0 ∷ [])) 8 (some_clients (connected_at 0 ∷ [])) []

work_accepted-IsAccepted_example :
    Post
      (λ _ w'. IsAccepted (world []) 5 w')
      (work_accepted (world []) (record { result = pos 5; s_addr = none }) (with_pages []) [])
work_accepted-IsAccepted_example =
    work_accepted-IsAccepted (world []) (record { result = pos 5; s_addr = none }) 5 (with_pages [])
      [] refl

connect_with_cb-AllConnecting_example :
    let p = (some_clients []).clients in
    AllConnecting (world []) p 0 (connect_with_cb (world []) (v4 0 443) (λ u s. some (u, s)) p [])
connect_with_cb-AllConnecting_example =
    connect_with_cb-AllConnecting (world []) (v4 0 443) (λ u s. some (u, s))
      (some_clients []).clients [] 0 (omega arith)

abbrev connected_one : ClientMapMixed
connected_one = ClientMapMixed.connected (record { fixed_fd = 0; result = pos 0 })

all_connected_one :
    all_handled ClientPool.Complete.handle (connected_at 0 ∷ []) ≡ some (connected_one ∷ [])
unfolding all_handled after ClientPool.Complete.handle
all_connected_one = refl

client_check-work_all_example :
    let c = world (connected_at 0 ∷ []) in
    let w = some_clients (connected_at 0 ∷ []) in
    ClientPool.Check.check c 8 w []
    ≡ (work_all c (ClientPool.Check.work c) (connected_one ∷ [])
          >> pure (as_u32 (ClientPool.Complete.connects (connected_at 0 ∷ []))))
        w
        (handle_completions 8 ∷ [])
client_check-work_all_example =
    client_check-work_all (world (connected_at 0 ∷ [])) 8 (connected_one ∷ [])
      (some_clients (connected_at 0 ∷ [])) [] (omega arith) refl all_connected_one

listen_with_strategy-IsFresh_example :
    Post
      (λ (l : TcpListener (world []) ℕ) (_ : ℕ).
        IsFresh {c = world []} {U = ℕ} (v4 0 443) some_strategy l)
      (listen_with_strategy (world []) {U = ℕ} (v4 0 443) 32 some_strategy 0 [])
listen_with_strategy-IsFresh_example =
    listen_with_strategy-IsFresh (world []) ℕ (v4 0 443) 32 some_strategy 0 []

listen_with_strategy-Calls_example :
    Calls {S = ℕ} []
      (listen_calls (world []) {U = ℕ} (v4 0 443) 32 some_strategy)
      (listen_with_strategy (world []) {U = ℕ} (v4 0 443) 32 some_strategy 0 [])
listen_with_strategy-Calls_example =
    listen_with_strategy-Calls (world []) ℕ (v4 0 443) 32 some_strategy 0 []
