-- ===== src/HugeTlb/Bytes/Fifo.antt =====
-- The input of a stream as a queue of bytes, through every step that it can make.
use yaoi.Base.{
  ℕ, ◌-◌, ◌≤◌, ◌≡◌, refl, sym, ap, subst, ◌∙◌, arith, List, [], ◌∷◌, ◌++◌, length, length-append,
  append_assoc, append-nil,
}
use yaoi.Crates.{Crates, Trace}
use yaoi.Outcome.{ok}
use yaoi.Outcome.Rules.{Post}
use yaoi.Connected.{EntConnected}
use yaoi.HugeTlb.{EntHugeTlb, page_size}
use yaoi.HugeTlb.Create.{IsNew}
use yaoi.HugeTlb.Send.{on_cursor}
use yaoi.HugeTlb.Left.{Slice, InBuffer, revolve, left_bufs_mut}
use yaoi.HugeTlb.Left.Laws.{InPage, left_bufs_mut-InPage}
use yaoi.HugeTlb.Left.Steps.{IsUsable}
use yaoi.HugeTlb.Bytes.{
  Page, put, window, bytes_of, drop, length-window, length-drop, drop-append, drop-drop,
}
use yaoi.HugeTlb.Bytes.Incoming.{
  unread, Event, arrived, taken, other, arrivals, taken_of, InStep, receives, reads, looks, frees,
  sends, settles, InSteps, quiet, and_then, held, queue_after,
}
use yaoi.HugeTlb.Bytes.Same.{
  SameInput, Queues, same-Queues, frees-Same, sends-Same, settles-Same, receives-Queues,
  reads-Queues,
}
use yaoi.HugeTlb.Bytes.Look.{bytes-left_bufs_mut, looks-Queues}

module _ (c : Crates) where
  step-Queues :
      {s s' : EntHugeTlb c.types} {page page' : Page} {e : Event}
      → InStep c s page e s' page'
      → IsUsable c s
      → Queues c s page e s' page'
  step-Queues {s} {s'} {page} (receives t t' r b bs id len room h) u =
      subst (Post (λ _ x. Queues c s page (arrived bs) x (put page s.cursor.pos_in_end bs))) h
        (receives-Queues c s u page t r b bs id len room)
  step-Queues {s} {s'} {page} (reads t t' i o less small h) u =
      subst (Post (λ _ x. Queues c s page (taken (unread s.cursor - i)) x page)) h
        (reads-Queues c s u page t i o less small)
  step-Queues {s} {s'} {page} (looks t t' b h) u = looks-Queues c s s' page t t' b u h
  step-Queues {s} {s'} {page} (frees t t' h) u =
      same-Queues c s u s' page (subst (Post (λ _ x. SameInput c s x)) h (frees-Same c s u t))
  step-Queues {s} {s'} {page} (sends t t' fd n h) u =
      same-Queues c s u s' page (subst (Post (λ _ x. SameInput c s x)) h (sends-Same c s u t fd))
  step-Queues {s} {s'} {page} (settles t t' z h) u =
      same-Queues c s u s' page (subst (Post (λ _ x. SameInput c s x)) h (settles-Same c s u t z))

  -- No more is read than is there.
  step-taken :
      {s s' : EntHugeTlb c.types} {page page' : Page} {e : Event}
      → InStep c s page e s' page'
      → taken_of (e ∷ []) ≤ unread s.cursor
  step-taken (receives t t' r b bs id len room h) = omega arith
  step-taken (reads t t' i o less small h) = omega arith
  step-taken (looks t t' b h) = omega arith
  step-taken (frees t t' h) = omega arith
  step-taken (sends t t' fd n h) = omega arith
  step-taken (settles t t' z h) = omega arith

-- An event, then others: on the queue, and on all that arrived.
queue_after-drop :
    (e : Event) (es : List Event) (q : List ℕ)
    → taken_of (e ∷ []) ≤ length q
    → drop (taken_of es) (queue_after e q ++ arrivals es)
      ≡ drop (taken_of (e ∷ es)) (q ++ arrivals (e ∷ es))
queue_after-drop (arrived bs) es q h = ap (drop (taken_of es)) (append_assoc q bs (arrivals es))
queue_after-drop (taken n) es q h =
    ap (drop (taken_of es)) (sym (drop-append n q (arrivals es) (omega arith)))
    ∙ drop-drop (taken_of es) n (q ++ arrivals es)
queue_after-drop other es q h = refl

length-queue_after :
    (e : Event) (es : List Event) (q : List ℕ)
    → taken_of (e ∷ []) ≤ length q
    → taken_of es ≤ length (queue_after e q ++ arrivals es)
    → taken_of (e ∷ es) ≤ length (q ++ arrivals (e ∷ es))
length-queue_after (arrived bs) es q h g =
    subst (λ xs. taken_of es ≤ length xs) (append_assoc q bs (arrivals es)) g
length-queue_after (taken n) es q h g =
    let l = length-append (drop n q) (arrivals es) in
    let l' = length-append q (arrivals es) in let d = length-drop n q in omega arith
length-queue_after other es q h g = g

module _ (c : Crates) where
  InSteps-held :
      {s s' : EntHugeTlb c.types} {page page' : Page} {es : List Event}
      → InSteps c s page es s' page'
      → IsUsable c s
      → IsUsable c s'
        × (held s' page' ≡ drop (taken_of es) (held s page ++ arrivals es))
        × (taken_of es ≤ length (held s page ++ arrivals es))
  InSteps-held {s} {s'} {page} quiet u = (u, sym (append-nil (held s page)), omega arith)
  InSteps-held {s} {s'} {page} {page'} (and_then {e} {es} step rest) u =
      let q = held s page in
      let (u', after) = step-Queues c step u in
      let (u'', rest_held, rest_taken) = InSteps-held rest u' in
      let few : taken_of (e ∷ []) ≤ length q =
        omega
          (arith, step-taken c step, length-window page s.cursor.pos_in_start (unread s.cursor)) in
      (
        u'',
        rest_held
            ∙ ap (λ x. drop (taken_of es) (x ++ arrivals es)) after
            ∙ queue_after-drop e es q few,
        length-queue_after e es q few
            (subst (λ x. taken_of es ≤ length (x ++ arrivals es)) after rest_taken),
      )

  -- From a new stream on pages of 2 MiB, whatever arrives, is read, is sent, is completed and is given back after
  -- that, in any order, as long as the kernel fills the buffers one behind the other and none that is yet to be
  -- read: a look at the buffers gives a value, inside the page, and its bytes are those that arrived, in order,
  -- without the ones that were read, of which there are no more than arrived.
  pub left_bufs_mut-arrivals :
      {connection : EntConnected} {s s' : EntHugeTlb c.types} {page page' : Page} {es : List Event}
      → IsNew connection s
      → c.capacity s.hugetbl_in ≡ page_size
      → c.capacity s.hugetbl_out ≡ page_size
      → InSteps c s page es s' page'
      → (t : Trace c.types)
      → (b : InBuffer) × (o : Slice) × (left_bufs_mut c s' t ≡ (ok (b, o), on_cursor revolve s', t))
        × InPage b
        × (bytes_of page' b ≡ drop (taken_of es) (arrivals es))
        × (taken_of es ≤ length (arrivals es))
  unfolding window
  left_bufs_mut-arrivals {connection} {s} {s'} {page} {page'} {es} new cap_in cap_out steps t =
      let start : IsUsable c s = rw new.cursor (record {
        in_valid = omega arith;
        out_valid = omega arith;
        cap_in = cap_in;
        cap_out = cap_out;
      }) in
      let none_held : held s page ≡ [] = rw new.cursor refl in
      let (u, bytes, few) = rw none_held at (InSteps-held steps start) in
      let (b, o, e, inside, _, _, _, _, _, _) =
        left_bufs_mut-InPage c s' t u.in_valid u.out_valid u.cap_in u.cap_out in
      (
        b,
        o,
        e,
        inside,
        subst (Post (λ x _. bytes_of page' x.0 ≡ held s' page')) e
              (bytes-left_bufs_mut c s' u page' t)
            ∙ bytes,
        few,
      )
