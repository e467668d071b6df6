-- ===== src/Tests/Clients.antt =====
-- The theorems on the client pool's invariant and on the two closures.
use yaoi.Base.{
  ℕ, ◌+◌, ◌≡◌, ◌==◌, refl, ap, sym, Bool-cases, inl, inr, pos, true, false, none, some, List, [],
  ◌∷◌,
}
use mathlib.Core.Option.{some-injective}
use yaoi.Crates.{Entry, Completion, connect, recv_multi, send_zc, forget, retain}
use yaoi.Outcome.Keeps.{Sound}
use yaoi.Stream.{TcpStream}
use yaoi.ClientPool.{Callback}
use yaoi.ClientPool
use yaoi.ClientPool.Check.{Work, check}
use yaoi.ClientPool.Check.Valid.{IsFair, IsValid}
use yaoi.ClientPool.Check.Keep.{client_check-IsValid}
use yaoi.ClientPool.Complete.Agree.{push_of, status_of, by_server, by_client, handle_alike}
use yaoi.Listener
use yaoi.Tests.World.{world, some_types}
use yaoi.Tests.Pools.{some_clients}

-- A connection is made, and receives.
abbrev pub made : List (Entry × Completion)
made =
    (record { result = pos 0; more = false; buffer_select = none }, connect 0)
    ∷ (record { result = pos 100; more = true; buffer_select = some 0 }, recv_multi 0 0)
    ∷ []

abbrev pub counting : Callback some_types ℕ
counting u s = some (u + 1, s)

abbrev counting_clients : Work (world made) ℕ
counting_clients =
    let w = some_clients made in record w { clients = record w.clients { c_fn = some counting } }

pub counting-IsFair : IsFair (some counting)
counting-IsFair u u' s s' v e =
    let same : s ≡ s' = ap (λ (x : ℕ × TcpStream some_types). x.1) (some-injective _ _ e) in
    rw (sym same) (v, refl)

counting_clients-IsValid : IsValid {c = world made} counting_clients
counting_clients-IsValid = record {
  fair = counting-IsFair;
  fits = λ slot. elim (Bool-cases (0 == slot)) [ inl same ↦ rw same tt | inr other ↦ rw other tt ];
}

client_check-IsValid_example :
    Sound (λ _ w'. IsValid {c = world made} w') (check (world made) 8 counting_clients [])
client_check-IsValid_example =
    client_check-IsValid (world made) 8 counting_clients [] counting_clients-IsValid

abbrev more_follow : Entry
more_follow = record { result = pos 100; more = true; buffer_select = some 7 }

handle_alike_example :
    (push_of by_server (Listener.Complete.handle more_follow (send_zc 3 (some 1)))
      ≡ push_of by_client (ClientPool.Complete.handle more_follow (send_zc 3 (some 1))))
    × (push_of by_server (Listener.Complete.handle more_follow (recv_multi 3 3))
        ≡ push_of by_client (ClientPool.Complete.handle more_follow (recv_multi 3 3)))
    × (status_of (Listener.Complete.handle more_follow (send_zc 3 (some 2))) ≡ retain)
    × (status_of (ClientPool.Complete.handle more_follow (send_zc 3 (some 2))) ≡ forget)
handle_alike_example =
    handle_alike more_follow more_follow more_follow 3 3 7 100 2 (some 1) refl refl refl refl
