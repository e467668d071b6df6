-- ===== src/Tests/Valid.antt =====
-- The theorems on the listener's invariant and its slots, at one listener and one batch.
use yaoi.Base.{
  ◌≢◌, ℕ, ◌+◌, ◌≡◌, ◌==◌, refl, arith, ap, sym, Bool-cases, inl, inr, pos, true, false, none, some,
  List, [], ◌∷◌,
}
use mathlib.Core.Option.{some-injective}
use native.Mathlib.Nat.{le_refl}
use yaoi.Crates.{Entry, Completion, accept, recv_multi, send_zc}
use yaoi.Outcome.Keeps.{Sound}
use yaoi.Stream.{TcpStream, streaming_huge_tlb}
use yaoi.Listener.{ListenerSlotCtx, Callback, Work}
use yaoi.Cmaps.{ServerMapMixed}
use yaoi.Listener.Check.{check, work}
use yaoi.Listener.Check.Frame.{slot_of, work-slot_of}
use yaoi.Listener.Check.Fit.{IsFair}
use yaoi.Listener.Check.Valid.{IsValid, FitsAt}
use yaoi.Listener.Check.Keep.{check-IsValid}
use yaoi.Tests.World.{world, some_types}
use yaoi.Tests.Pools.{some_listener}
use yaoi.Tests.Buffers.{ent_at, cursor_at-OutValid}

-- A callback that counts its calls.
abbrev counting : Callback some_types ℕ
counting u s flag = some (u + 1, s)

-- A connection is accepted, one receives, and one of its buffers has been sent.
abbrev pub three : List (Entry × Completion)
three =
    (record { result = pos 5; more = false; buffer_select = none }, accept none)
    ∷ (record { result = pos 100; more = true; buffer_select = some 0 }, recv_multi 3 3)
    ∷ (record { result = pos 8192; more = false; buffer_select = none }, send_zc 3 (some 0))
    ∷ []

abbrev counting_listener : Work (world three) ℕ
counting_listener =
    let w = some_listener three in
    record w { listener = record w.listener { a_fn = some counting; cfg_hugetlb = some 0 } }

counting-IsFair : IsFair (some counting)
counting-IsFair = record {
  safe = λ u u' s s' flag v e.
      let same : s ≡ s' = ap (λ (x : ℕ × TcpStream some_types). x.1) (some-injective _ _ e) in
      rw (sym same) (v, le_refl _);
  same_fd = λ u u' s s' flag v e.
      let same : s ≡ s' = ap (λ (x : ℕ × TcpStream some_types). x.1) (some-injective _ _ e) in
      rw same refl;
}

own-FitsAt :
    (slot : ℕ)
    → 3 ≡ slot
    → FitsAt slot (some (ListenerSlotCtx.accepted (streaming_huge_tlb (ent_at 1))))
own-FitsAt slot e = record { valid = cursor_at-OutValid; fd = ap some e }

counting_listener-IsValid : IsValid {c = world three} counting_listener
counting_listener-IsValid = record {
  fair = counting-IsFair;
  fits = λ slot. elim (Bool-cases (3 == slot)) [
    | inl same ↦ let e : 3 ≡ slot = ground arith in rw same (own-FitsAt slot e)
    | inr other ↦ rw other tt
  ];
}

check-IsValid_example :
    Sound (λ _ w'. IsValid {c = world three} w') (check (world three) 8 counting_listener [])
check-IsValid_example = check-IsValid (world three) 8 counting_listener [] counting_listener-IsValid

abbrev receiving : ServerMapMixed
receiving =
    ServerMapMixed.recv_multi
      (record { fixed_fd = 5; buf_id = none; buf_len = 0; buf_grp = 5; shutdown = true })

unequal : ◌≢◌ {A = ℕ} 5 3
unequal same = omega arith

not_three : slot_of receiving ≢ some 3
not_three e = unequal (some-injective 5 3 e)

work-slot_of_example :
    let c = world three in
    let w = counting_listener in
    c.get (work c receiving w []).1.listener.pool 3 ≡ c.get w.listener.pool 3
work-slot_of_example = work-slot_of (world three) counting_listener [] receiving 3 not_three
