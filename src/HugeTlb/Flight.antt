-- ===== src/HugeTlb/Flight.antt =====
-- A stream and its sends that are under way: what the stream counts as pending, against what the
-- kernel still has.
pub mod Keep
pub mod Live
use yaoi.Base.{
  ℕ, zero, suc, ◌+◌, ◌-◌, ◌*◌, ◌≤◌, ◌<◌, ◌≡◌, refl, sym, ap, ◌∙◌, subst, arith, inl, inr, Bool,
  true, false, List, [], ◌∷◌, ◌++◌, map, length, length-append, append-nil,
}
use yaoi.Crates.{Crates, CrateTypes, Trace}
use yaoi.Outcome.{Outcome, ok, err, panic}
use yaoi.Cmaps.{MapSentZc}
use yaoi.Connected.{EntConnected}
use yaoi.HugeTlb.Create.{IsNew}
use yaoi.HugeTlb.{CursorLeft, EntHugeTlb, page_size, buf_size}
use yaoi.HugeTlb.Send.{on_cursor, div_ceil, send_all_out}
use yaoi.HugeTlb.Send.Chunks.{Chunk, chunks_from, Covers}
use yaoi.HugeTlb.Send.Laws.{
  OutValid, Held, Sent, Refused, out_len, out_chunks, cursor_sent, IsOpen, send_all_out-cases,
}
use yaoi.HugeTlb.Recv.{settle, sent_zc}
use yaoi.HugeTlb.Left.Steps.{LeftStep}
use yaoi.HugeTlb.Left.Steps.Keep.{Outward, step-Outward}

abbrev pub total : List ℕ → ℕ
total [] = 0
total (n ∷ ns) = n + total ns

-- A stream; for each of its sends under way the bytes that no completion has told it of; and the
-- buffers and bytes that none will: those of failed sends, and what a short send leaves.
pub record Sending (ty : CrateTypes) : Type 0 where
  pub ent : EntHugeTlb ty
  pub flight : List ℕ
  pub lost_bufs : ℕ
  pub lost_bytes : ℕ

abbrev pub chunk_lens : List Chunk → List ℕ
chunk_lens [] = []
chunk_lens (k ∷ ks) = k.len ∷ chunk_lens ks

-- The sends of a call that returned `n`.
abbrev pub new_sends : ℕ → CursorLeft → List ℕ
new_sends n cur = chunk_lens (chunks_from n (out_len cur) cur.idx_out_cur)

-- A completion of a send is told to the stream.
abbrev pub told : {ty : CrateTypes} → MapSentZc → EntHugeTlb ty → EntHugeTlb ty
told z e = (sent_zc z e []).1

-- One step: a call that sends, a completion of one send, or an orbit's operation, with lengths of at most a
-- page. A zero-copy send has one completion, or two: the bytes, and later that its buffer is free. A failed send is not told.
pub data FlightStep (c : Crates) (fd : ℕ) : Sending c.types → Sending c.types → Type 0 where
  sends :
      {q : Sending c.types} {e : EntHugeTlb c.types} (t t' : Trace c.types) (n : ℕ)
      → send_all_out c fd q.ent t ≡ (ok n, e, t')
      → FlightStep c fd q (record q { ent = e; flight = q.flight ++ new_sends n q.ent.cursor })
  completes :
      {q : Sending c.types} (z : MapSentZc) (before after : List ℕ) (len : ℕ)
      → q.flight ≡ before ++ len ∷ after
      → z.sent_out ≤ len
      → z.more ≡ false
      → FlightStep c fd q (record q {
        ent = told z q.ent;
        flight = before ++ after;
        lost_bytes = q.lost_bytes + (len - z.sent_out);
      })
  reports :
      {q : Sending c.types} (z : MapSentZc) (before after : List ℕ) (len : ℕ)
      → q.flight ≡ before ++ len ∷ after
      → z.sent_out ≤ len
      → z.more ≡ true
      → FlightStep c fd q (record q {
        ent = told z q.ent;
        flight = before ++ 0 ∷ after;
        lost_bytes = q.lost_bytes + (len - z.sent_out);
      })
  fails :
      {q : Sending c.types} (before after : List ℕ) (len : ℕ)
      → q.flight ≡ before ++ len ∷ after
      → FlightStep c fd q (record q {
        flight = before ++ after;
        lost_bufs = q.lost_bufs + 1;
        lost_bytes = q.lost_bytes + len;
      })
  orbits :
      {q : Sending c.types} {e : EntHugeTlb c.types}
      → LeftStep c q.ent e
      → FlightStep c fd q (record q { ent = e })

pub data FlightSteps (c : Crates) (fd : ℕ) : Sending c.types → Sending c.types → Type 0 where
  landed : {q : Sending c.types} → FlightSteps c fd q q
  and_then :
      {q q' q'' : Sending c.types}
      → FlightStep c fd q q'
      → FlightSteps c fd q' q''
      → FlightSteps c fd q q''

-- What is pending is what is under way and what is lost, and neither count comes near a usize's end.
pub record Balanced (c : Crates) (q : Sending c.types) : Type 0 where
  pub size : c.capacity q.ent.hugetbl_in ≡ page_size
  pub valid : OutValid q.ent.cursor
  pub bufs : q.ent.cursor.pending_bufs ≡ length q.flight + q.lost_bufs
  pub sends : q.ent.cursor.pending_sends ≡ total q.flight + q.lost_bytes
  pub bufs_few : q.ent.cursor.pending_bufs ≤ 261
  pub sends_few : q.ent.cursor.pending_sends ≤ 8192 + page_size
