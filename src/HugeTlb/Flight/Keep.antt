-- ===== src/HugeTlb/Flight/Keep.antt =====
-- The steps of a stream with sends under way, and what it counts as pending.
use yaoi.Base.{
  ℕ, zero, suc, ◌+◌, ◌-◌, ◌≤◌, ◌≡◌, refl, ap, ◌∙◌, subst, arith, inl, inr, true, false, List, [],
  ◌∷◌, ◌++◌, length, length-append, append-nil,
}
use yaoi.Crates.{Crates, Trace}
use yaoi.Outcome.{Outcome, ok, err, panic}
use yaoi.Cmaps.{MapSentZc}
use yaoi.Connected.{EntConnected}
use yaoi.HugeTlb.Create.{IsNew}
use yaoi.HugeTlb.{EntHugeTlb, page_size}
use yaoi.HugeTlb.Send.{on_cursor, send_all_out}
use yaoi.HugeTlb.Send.Chunks.{Chunk, chunks_from, Covers}
use yaoi.HugeTlb.Send.Laws.{out_len, out_chunks, cursor_sent, IsOpen, send_all_out-cases}
use yaoi.HugeTlb.Recv.{sent_zc}
use yaoi.HugeTlb.Left.Steps.{LeftStep}
use yaoi.HugeTlb.Left.Steps.Keep.{step-Outward}
use yaoi.HugeTlb.Flight.{
  total, Sending, chunk_lens, new_sends, told, FlightStep, sends, completes, reports, fails, orbits,
  FlightSteps, landed, and_then, Balanced,
}

total-append : (xs ys : List ℕ) → total (xs ++ ys) ≡ total xs + total ys
total-append [] ys = omega arith
total-append (x ∷ xs) ys = omega (arith, total-append xs ys)

length-chunks_from : (n rem b : ℕ) → length (chunk_lens (chunks_from n rem b)) ≡ n
unfolding chunks_from
length-chunks_from zero rem b = refl
length-chunks_from (suc n) rem b = ap suc (length-chunks_from n _ (b + 1))

total-Covers : (a e : ℕ) (ks : List Chunk) → Covers a e ks → a + total (chunk_lens ks) ≡ e
total-Covers a e [] h = omega arith
total-Covers a e (k ∷ ks) (_, _, _, _, rest) = omega (arith, total-Covers (a + k.len) e ks rest)

module _ (c : Crates) (fd : ℕ) where
  -- What a call that sends comes to.
  abbrev pub SendsTo :
      Sending c.types → Outcome c.types ℕ × EntHugeTlb c.types × Trace c.types → Type 0
  SendsTo q (ok n, e, t) =
      Balanced c (record q { ent = e; flight = q.flight ++ new_sends n q.ent.cursor })
  SendsTo q (err x, e, t) = Unit {0}
  SendsTo q (panic p, e, t) = Unit {0}

  held-Balanced :
      (q : Sending c.types)
      → Balanced c q
      → Balanced c (record q { flight = q.flight ++ new_sends 0 q.ent.cursor })
  unfolding chunks_from
  held-Balanced q v = rw (append-nil) v

  sent-Balanced :
      (q : Sending c.types)
      → Balanced c q
      → IsOpen q.ent.cursor
      → Covers q.ent.cursor.pos_out_start q.ent.cursor.pos_out_end
          (chunks_from (out_chunks q.ent.cursor) (out_len q.ent.cursor) q.ent.cursor.idx_out_cur)
      → Balanced c (record q {
        ent = on_cursor cursor_sent q.ent;
        flight = q.flight ++ new_sends (out_chunks q.ent.cursor) q.ent.cursor;
      })
  sent-Balanced q v o covers =
      let cur = q.ent.cursor in
      let new = new_sends (out_chunks cur) cur in
      let l : length new ≡ out_chunks cur =
        length-chunks_from (out_chunks cur) (out_len cur) cur.idx_out_cur in
      let s : cur.pos_out_start + total new ≡ cur.pos_out_end =
        total-Covers cur.pos_out_start cur.pos_out_end _ covers in
      let l' : length (q.flight ++ new) ≡ length q.flight + length new =
        length-append q.flight new in
      let s' : total (q.flight ++ new) ≡ total q.flight + total new = total-append q.flight new in
      let w = v.valid in
      let bytes = v.sends in
      let count = v.bufs in
      record {
        size = v.size;
        valid = ground arith;
        bufs = omega arith;
        sends = omega arith;
        bufs_few = omega (arith, o.bufs_few);
        sends_few = omega (arith, o.sends_few);
      }

  sends-Balanced :
      (q : Sending c.types) (t : Trace c.types)
      → Balanced c q
      → SendsTo q (send_all_out c fd q.ent t)
  sends-Balanced q t v = elim (send_all_out-cases c fd q.ent t v.valid) [
    | inl (_, held) ↦ rw held (held-Balanced q v)
    | inr (inl (o, some_left, sent, covers)) ↦ rw sent (sent-Balanced q v o covers)
    | inr (inr (o, (k, x, _, refused))) ↦ rw refused tt
  ]

  completes-Balanced :
      (q : Sending c.types) (z : MapSentZc) (before after : List ℕ) (len : ℕ)
      → q.flight ≡ before ++ len ∷ after
      → z.sent_out ≤ len
      → z.more ≡ false
      → Balanced c q
      → Balanced c (record q {
        ent = told z q.ent;
        flight = before ++ after;
        lost_bytes = q.lost_bytes + (len - z.sent_out);
      })
  unfolding sent_zc
  completes-Balanced q z before after len h le e v =
      let l : length q.flight ≡ length before + suc (length after) =
        ap length h ∙ length-append before (len ∷ after) in
      let s : total q.flight ≡ total before + (len + total after) =
        ap total h ∙ total-append before (len ∷ after) in
      let l' = length-append before after in
      let s' = total-append before after in
      rw e (record {
        size = v.size;
        valid = ground arith;
        bufs = omega arith;
        sends = omega arith;
        bufs_few = omega arith;
        sends_few = omega arith;
      })

  reports-Balanced :
      (q : Sending c.types) (z : MapSentZc) (before after : List ℕ) (len : ℕ)
      → q.flight ≡ before ++ len ∷ after
      → z.sent_out ≤ len
      → z.more ≡ true
      → Balanced c q
      → Balanced c (record q {
        ent = told z q.ent;
        flight = before ++ 0 ∷ after;
        lost_bytes = q.lost_bytes + (len - z.sent_out);
      })
  unfolding sent_zc
  reports-Balanced q z before after len h le e v =
      let l : length q.flight ≡ length before + suc (length after) =
        ap length h ∙ length-append before (len ∷ after) in
      let s : total q.flight ≡ total before + (len + total after) =
        ap total h ∙ total-append before (len ∷ after) in
      let l' : length (before ++ 0 ∷ after) ≡ length before + suc (length after) =
        length-append before (0 ∷ after) in
      let s' : total (before ++ 0 ∷ after) ≡ total before + (0 + total after) =
        total-append before (0 ∷ after) in
      rw e (record {
        size = v.size;
        valid = ground arith;
        bufs = omega arith;
        sends = omega arith;
        bufs_few = omega arith;
        sends_few = omega arith;
      })

  fails-Balanced :
      (q : Sending c.types) (before after : List ℕ) (len : ℕ)
      → q.flight ≡ before ++ len ∷ after
      → Balanced c q
      → Balanced c (record q {
        flight = before ++ after;
        lost_bufs = q.lost_bufs + 1;
        lost_bytes = q.lost_bytes + len;
      })
  fails-Balanced q before after len h v =
      let l : length q.flight ≡ length before + suc (length after) =
        ap length h ∙ length-append before (len ∷ after) in
      let s : total q.flight ≡ total before + (len + total after) =
        ap total h ∙ total-append before (len ∷ after) in
      let l' = length-append before after in
      let s' = total-append before after in
      record {
        size = v.size;
        valid = v.valid;
        bufs = omega arith;
        sends = omega arith;
        bufs_few = v.bufs_few;
        sends_few = v.sends_few;
      }

  orbits-Balanced :
      (q : Sending c.types) (e : EntHugeTlb c.types)
      → LeftStep c q.ent e
      → Balanced c q
      → Balanced c (record q { ent = e })
  orbits-Balanced q e step v =
      let (u, valid) = step-Outward c step v.size v.valid in
      record {
        size = ap c.capacity u.page_in ∙ v.size;
        valid = valid;
        bufs = u.bufs ∙ v.bufs;
        sends = u.sends ∙ v.sends;
        bufs_few = omega (arith, u.bufs);
        sends_few = omega (arith, u.sends);
      }

  pub step-Balanced : {q q' : Sending c.types} → FlightStep c fd q q' → Balanced c q → Balanced c q'
  step-Balanced {q} (sends t t' n h) v = subst (SendsTo q) h (sends-Balanced q t v)
  step-Balanced {q} (completes z before after len h le e) v =
      completes-Balanced q z before after len h le e v
  step-Balanced {q} (reports z before after len h le e) v =
      reports-Balanced q z before after len h le e v
  step-Balanced {q} (fails before after len h) v = fails-Balanced q before after len h v
  step-Balanced {q} (orbits {e} step) v = orbits-Balanced q e step v

  pub FlightSteps-Balanced :
      {q q' : Sending c.types} → FlightSteps c fd q q' → Balanced c q → Balanced c q'
  FlightSteps-Balanced landed v = v
  FlightSteps-Balanced (and_then step rest) v = FlightSteps-Balanced rest (step-Balanced step v)

  -- A stream with nothing under way.
  abbrev pub at_rest : EntHugeTlb c.types → Sending c.types
  at_rest e = record { ent = e; flight = []; lost_bufs = 0; lost_bytes = 0 }

  new-Balanced :
      (connection : EntConnected) (e : EntHugeTlb c.types)
      → IsNew connection e
      → c.capacity e.hugetbl_in ≡ page_size
      → Balanced c (at_rest e)
  new-Balanced connection e new size = rw (new.cursor) (record {
    size = size;
    valid = omega arith;
    bufs = refl;
    sends = refl;
    bufs_few = omega arith;
    sends_few = omega arith;
  })

  -- From a new stream on an incoming page of 2 MiB, however sends that the bearer takes, their completions and the
  -- operations of orbits (`LeftStep`, which set no length above a page of 2 MiB) follow one another: the buffers and bytes that the stream counts as pending are those of
  -- the sends under way and those that were lost, they stay within their bounds, and the outgoing cursor stays
  -- valid. A send that fails, and the part that a short one leaves, is lost: it is counted as pending for ever.
  pub reached-Balanced :
      (connection : EntConnected) (e : EntHugeTlb c.types) (q : Sending c.types)
      → IsNew connection e
      → c.capacity e.hugetbl_in ≡ page_size
      → FlightSteps c fd (at_rest e) q
      → Balanced c q
  reached-Balanced connection e q new size steps =
      FlightSteps-Balanced steps (new-Balanced connection e new size)
