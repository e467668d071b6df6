-- ===== src/Tests/Serving.antt =====
-- The theorems on the steps of an orbit and on the example, with one orbit and one batch.
use yaoi.Base.{ℕ, ◌+◌, arith, refl, ap, subst, true, false, pos, none, some, List, [], ◌∷◌}
use yaoi.Crates.{Entry, Completion, accept, recv_multi}
use yaoi.Outcome.{Outcome, ok}
use yaoi.Outcome.Keeps.{Sound}
use yaoi.Intermed.{IntermedBuf}
use yaoi.HugeTlb.{EntHugeTlb}
use yaoi.HugeTlb.Send.{on_cursor}
use yaoi.HugeTlb.Left.{
  single, set_lens_cursor, left_set_lens, left_bufs_mut, in_buffer, out_buffer, set_ready,
}
use yaoi.HugeTlb.Left.Steps.{readies, sets_lens, borrows, LeftSteps, none_left, and_then}
use yaoi.HugeTlb.Left.Steps.Keep.{Outward, LeftSteps-Outward}
use yaoi.Blueprints.{Blueprints}
use yaoi.Run.{Orbit}
use yaoi.Run.Steps.{ByLeft}
use yaoi.Stream.{streaming_huge_tlb, fixed_fd}
use yaoi.Listener.Check.Valid.{IsValid}
use yaoi.Example.{Makers, main, serve_blueprints}
use yaoi.Example.Main.{main-IsValid}
use yaoi.Example.Slots.{Alone, serve_blueprints-Alone}
use yaoi.Tests.World.{world, some_types}
use yaoi.Tests.Buffers.{ent_at, cursor_at-OutValid}

-- A connection is accepted into slot 2, and receives.
abbrev on_two : List (Entry × Completion)
on_two =
    (record { result = pos 2; more = false; buffer_select = none }, accept none)
    ∷ (record { result = pos 100; more = true; buffer_select = some 0 }, recv_multi 2 2)
    ∷ []

-- A layer that makes the stream ready.
abbrev readying : Orbit some_types ℕ
readying = record {
  advance_alone = λ o ent. ok (o + 1, set_ready true ent);
  advance_layer = λ o ent im. ok (o + 1, set_ready true ent, im);
  advance_app = λ o im. ok (o + 1, im);
}

abbrev ent_of : Outcome some_types (ℕ × EntHugeTlb some_types × IntermedBuf) → EntHugeTlb some_types
ent_of (ok (o, e, im)) = e
ent_of _ = ent_at 1

abbrev ent_alone : Outcome some_types (ℕ × EntHugeTlb some_types) → EntHugeTlb some_types
ent_alone (ok (o, e)) = e
ent_alone _ = ent_at 1

readying-ByLeft : ByLeft (world on_two) readying
readying-ByLeft = record {
  alone = λ o o' e e' h.
      subst (λ x. LeftSteps (world on_two) e x) (ap ent_alone h)
        (and_then (readies true) none_left);
  layer = λ o o' e e' im im' h.
      subst (λ x. LeftSteps (world on_two) e x) (ap ent_of h) (and_then (readies true) none_left);
}

abbrev makers : Makers ℕ
makers = record { ytls_server = 10; h11_server = 20 }

main-IsValid_example :
    Sound (λ w _. IsValid {c = world on_two} w) (main (world on_two) readying makers 3 0 2 tt [])
main-IsValid_example =
    main-IsValid (world on_two) readying makers 3 0 2 [] readying-ByLeft (λ p. refl)

-- An orbit looks at the buffers, sets shorter input and longer output, and makes the stream ready.
abbrev ent_set : EntHugeTlb some_types
ent_set = on_cursor (set_lens_cursor 100 20500) (ent_at 1)

looks_and_writes : LeftSteps (world on_two) (ent_at 1) (set_ready true ent_set)
unfolding left_set_lens left_bufs_mut in_buffer out_buffer
looks_and_writes =
    and_then
      (borrows {t = []}
        (single (record { start = 16484; len = 3516 }), record { start = 16384; len = 2_080_768 })
        refl)
      (and_then (sets_lens {t = []} 100 20500 (omega arith) (omega arith) refl)
        (and_then (readies true) none_left))

LeftSteps-Outward_example : Outward (world on_two) (ent_at 1) (set_ready true ent_set)
LeftSteps-Outward_example =
    LeftSteps-Outward (world on_two) looks_and_writes refl cursor_at-OutValid

abbrev two_bps : List (Blueprints ℕ)
two_bps =
    record { layers = 1 ∷ []; app = 2 }
    ∷ record { layers = 3 ∷ []; app = 4 }
    ∷ record { layers = 5 ∷ []; app = 6 }
    ∷ []

serve_blueprints-Alone_example :
    Alone
      (world on_two)
      readying
      makers
      2
      true
      two_bps
      (serve_blueprints readying makers 3 two_bps (streaming_huge_tlb (ent_at 1)) true)
unfolding fixed_fd
serve_blueprints-Alone_example =
    serve_blueprints-Alone (world on_two) readying makers 3 2 two_bps
      (streaming_huge_tlb (ent_at 1)) true refl
