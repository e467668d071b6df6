-- ===== src/HugeTlb/Bytes/Incoming.antt =====
-- The input of a stream as bytes: what the kernel writes into the incoming page, and what an orbit
-- reads of it through `left_bufs_mut` and gives up through `left_set_lens`.
use yaoi.Base.{ℕ, ◌+◌, ◌-◌, ◌≤◌, ◌≡◌, List, [], ◌∷◌, ◌++◌, length, some}
use yaoi.Crates.{Crates, CrateTypes, Trace}
use yaoi.Outcome.{ok}
use yaoi.Cmaps.{MapSentZc, MapRecvMulti}
use yaoi.HugeTlb.{CursorLeft, EntHugeTlb, page_size}
use yaoi.HugeTlb.Send.{send_all_out}
use yaoi.HugeTlb.Recv.{cb_recv_multi, sent_zc}
use yaoi.HugeTlb.Free.{try_free_buffers}
use yaoi.HugeTlb.Left.{Slice, InBuffer, left_set_lens, left_bufs_mut}
use yaoi.HugeTlb.Bytes.{Page, put, window, drop}

abbrev pub unread : CursorLeft → ℕ
unread cur = cur.pos_in_end - cur.pos_in_start

-- What happens to the input: bytes arrive, an orbit has read some, or neither.
pub data Event : Type 0 where
  arrived : List ℕ → Event
  taken : ℕ → Event
  other : Event

abbrev pub arrivals : List Event → List ℕ
arrivals [] = []
arrivals (arrived bs ∷ es) = bs ++ arrivals es
arrivals (taken n ∷ es) = arrivals es
arrivals (other ∷ es) = arrivals es

abbrev pub taken_of : List Event → ℕ
taken_of [] = 0
taken_of (arrived bs ∷ es) = taken_of es
taken_of (taken n ∷ es) = n + taken_of es
taken_of (other ∷ es) = taken_of es

-- One step of a stream and its incoming page. The kernel fills the buffers of the ring one behind
-- the other, and none that holds bytes yet to be read.
pub data InStep (c : Crates)
    : EntHugeTlb c.types → Page → Event → EntHugeTlb c.types → Page → Type 0 where
  receives :
      {s s' : EntHugeTlb c.types} {page : Page} (t t' : Trace c.types) (r : MapRecvMulti) (b : ℕ)
      (bs : List ℕ)
      → r.buf_id ≡ some b
      → r.buf_len ≡ length bs
      → unread s.cursor + length bs ≤ page_size
      → cb_recv_multi r s t ≡ (ok tt, s', t')
      → InStep c s page (arrived bs) s' (put page s.cursor.pos_in_end bs)
  reads :
      {s s' : EntHugeTlb c.types} {page : Page} (t t' : Trace c.types) (new_in new_out : ℕ)
      → new_in ≤ unread s.cursor
      → new_out ≤ page_size
      → left_set_lens c new_in new_out s t ≡ (ok tt, s', t')
      → InStep c s page (taken (unread s.cursor - new_in)) s' page
  looks :
      {s s' : EntHugeTlb c.types} {page : Page} (t t' : Trace c.types) (b : InBuffer × Slice)
      → left_bufs_mut c s t ≡ (ok b, s', t')
      → InStep c s page other s' page
  frees :
      {s s' : EntHugeTlb c.types} {page : Page} (t t' : Trace c.types)
      → try_free_buffers s t ≡ (ok tt, s', t')
      → InStep c s page other s' page
  sends :
      {s s' : EntHugeTlb c.types} {page : Page} (t t' : Trace c.types) (fd n : ℕ)
      → send_all_out c fd s t ≡ (ok n, s', t')
      → InStep c s page other s' page
  settles :
      {s s' : EntHugeTlb c.types} {page : Page} (t t' : Trace c.types) (z : MapSentZc)
      → sent_zc z s t ≡ (ok tt, s', t')
      → InStep c s page other s' page

pub data InSteps (c : Crates)
    : EntHugeTlb c.types → Page → List Event → EntHugeTlb c.types → Page → Type 0 where
  quiet : {s : EntHugeTlb c.types} {page : Page} → InSteps c s page [] s page
  and_then :
      {s s' s'' : EntHugeTlb c.types} {page page' page'' : Page} {e : Event} {es : List Event}
      → InStep c s page e s' page'
      → InSteps c s' page' es s'' page''
      → InSteps c s page (e ∷ es) s'' page''

-- The bytes on the page that an orbit has not read.
abbrev pub held : {ty : CrateTypes} → EntHugeTlb ty → Page → List ℕ
held s page = window page s.cursor.pos_in_start (unread s.cursor)

-- One event on a queue of bytes.
abbrev pub queue_after : Event → List ℕ → List ℕ
queue_after (arrived bs) q = q ++ bs
queue_after (taken n) q = drop n q
queue_after other q = q
