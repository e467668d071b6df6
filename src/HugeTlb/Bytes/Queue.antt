-- ===== src/HugeTlb/Bytes/Queue.antt =====
-- The output of a stream as a queue of bytes: what orbits write behind what still waits, and what
-- EntHugeTlb::send_all_out sends.
use yaoi.Base.{
  ℕ, ◌+◌, ◌≤◌, ◌≡◌, refl, sym, ap, subst, ◌∙◌, arith, List, [], ◌++◌, length, append_assoc,
  append-nil,
}
use yaoi.Crates.{Crates, Trace}
use yaoi.Outcome.{ok}
use yaoi.Outcome.Rules.{Post}
use yaoi.Outcome.Keeps.{Sound-Post}
use yaoi.Cmaps.{MapSentZc, MapRecvMulti}
use yaoi.Connected.{EntConnected}
use yaoi.HugeTlb.{EntHugeTlb, page_size}
use yaoi.HugeTlb.Create.{IsNew}
use yaoi.HugeTlb.Send.{on_cursor, send_all_out}
use yaoi.HugeTlb.Send.Laws.{OutValid, out_len}
use yaoi.HugeTlb.Recv.{cb_recv_multi, sent_zc}
use yaoi.HugeTlb.Free.{try_free_buffers}
use yaoi.HugeTlb.Kept
use yaoi.HugeTlb.Left.{Slice, InBuffer, left_set_lens, revolve, left_bufs_mut}
use yaoi.HugeTlb.Left.Steps.{borrows}
use yaoi.HugeTlb.Left.Steps.Keep.{left_bufs_mut-state, step-Outward}
use yaoi.HugeTlb.Bytes.{Page, put, bytes_at}
use yaoi.HugeTlb.Bytes.Payload.{payload}
use yaoi.HugeTlb.Bytes.Moves.{
  waiting, SameOutput, SameOutput-refl, SameOutput-IsOutward, Moves, writes-Moves, same-Moves,
  sends-Moves,
}

-- One step of a stream and its outgoing page that returns without an error, the bytes that it writes and those that
-- it sends, as the page is at the call. An orbit writes behind what waits.
pub data OutStep (c : Crates) (fd : ℕ)
    : EntHugeTlb c.types → Page → List ℕ → List ℕ → EntHugeTlb c.types → Page → Type 0 where
  writes :
      {s s' : EntHugeTlb c.types} {page : Page} (t : Trace c.types) (bs : List ℕ) (new_in : ℕ)
      → s.cursor.pos_out_end + length bs ≤ page_size
      → new_in ≤ page_size
      → left_set_lens c new_in (out_len s.cursor + length bs) s t ≡ (ok tt, s', t)
      → OutStep c fd s page bs [] s' (put page s.cursor.pos_out_end bs)
  sends :
      {s s' : EntHugeTlb c.types} {page : Page} (t ks : Trace c.types) (n : ℕ)
      → send_all_out c fd s t ≡ (ok n, s', t ++ ks)
      → OutStep c fd s page [] (payload page fd ks) s' page
  looks :
      {s s' : EntHugeTlb c.types} {page : Page} (t : Trace c.types) (b : InBuffer × Slice)
      → left_bufs_mut c s t ≡ (ok b, s', t)
      → OutStep c fd s page [] [] s' page
  receives :
      {s s' : EntHugeTlb c.types} {page : Page} (t t' : Trace c.types) (r : MapRecvMulti)
      → cb_recv_multi r s t ≡ (ok tt, s', t')
      → OutStep c fd s page [] [] s' page
  settles :
      {s s' : EntHugeTlb c.types} {page : Page} (t t' : Trace c.types) (z : MapSentZc)
      → sent_zc z s t ≡ (ok tt, s', t')
      → OutStep c fd s page [] [] s' page
  frees :
      {s s' : EntHugeTlb c.types} {page : Page} (t t' : Trace c.types)
      → try_free_buffers s t ≡ (ok tt, s', t')
      → OutStep c fd s page [] [] s' page

pub data OutSteps (c : Crates) (fd : ℕ)
    : EntHugeTlb c.types → Page → List ℕ → List ℕ → EntHugeTlb c.types → Page → Type 0 where
  still : {s : EntHugeTlb c.types} {page : Page} → OutSteps c fd s page [] [] s page
  and_then :
      {s s' s'' : EntHugeTlb c.types} {page page' page'' : Page} {bs bs' out out' : List ℕ}
      → OutStep c fd s page bs out s' page'
      → OutSteps c fd s' page' bs' out' s'' page''
      → OutSteps c fd s page (bs ++ bs') (out ++ out') s'' page''

module _ (c : Crates) (fd : ℕ) where
  step-Moves :
      {s s' : EntHugeTlb c.types} {page : Page} {bs out : List ℕ} {page' : Page}
      → OutStep c fd s page bs out s' page'
      → OutValid s.cursor
      → c.capacity s.hugetbl_in ≡ page_size
      → Moves c s page bs out s' page'
  step-Moves {s} {s'} {page} (writes t bs new_in fits small h) v size =
      writes-Moves c fd s page v size s' t bs new_in fits small h
  step-Moves {s} {s'} {page} (sends t ks n h) v size = sends-Moves c fd s page v size s' t ks n h
  step-Moves {s} {s'} {page} (looks t b h) v size =
      let (same, _) = step-Outward c (borrows {t = t} b h) size v in
      let at : s' ≡ on_cursor revolve s = sym (ap (λ x. x.1) h) ∙ left_bufs_mut-state c s t in
      same-Moves c fd s page v size s' (record {
        start = same.out_start;
        end = ap (λ x. x.cursor.pos_out_end) at ∙ ground arith;
        idx = same.out_idx;
        page_in = same.page_in;
      })
  step-Moves {s} {s'} {page} (receives t t' r h) v size = same-Moves c fd s page v size s' (
      subst (Post (λ _ x. SameOutput c s x)) h (
        Sound-Post (λ _ x. SameOutput c s x) (cb_recv_multi r s t)
          (Kept.cb_recv_multi-Keeps (SameOutput c s) (SameOutput-IsOutward c s) r s t
            (SameOutput-refl c s))))
  step-Moves {s} {s'} {page} (settles t t' z h) v size = same-Moves c fd s page v size s' (
      subst (Post (λ _ x. SameOutput c s x)) h (
        Sound-Post (λ _ x. SameOutput c s x) (sent_zc z s t)
          (Kept.sent_zc-Keeps (SameOutput c s) (SameOutput-IsOutward c s) z s t
            (SameOutput-refl c s))))
  step-Moves {s} {s'} {page} (frees t t' h) v size = same-Moves c fd s page v size s' (
      subst (Post (λ _ x. SameOutput c s x)) h (
        Sound-Post (λ _ x. SameOutput c s x) (try_free_buffers s t)
          (Kept.try_free_buffers-Keeps (SameOutput c s) (SameOutput-IsOutward c s).by_reuse s t
            (SameOutput-refl c s))))

  steps-Moves :
      {s s' : EntHugeTlb c.types} {page page' : Page} {bs out : List ℕ}
      → OutSteps c fd s page bs out s' page'
      → OutValid s.cursor
      → c.capacity s.hugetbl_in ≡ page_size
      → waiting s page ++ bs ≡ out ++ waiting s' page'
  steps-Moves {s} {s'} {page} still v size = append-nil (waiting s page)
  steps-Moves {s} {s'} {page} {page'}
        (and_then {s' = mid} {page' = page_mid} {bs} {bs'} {out} {out'} step rest) v size =
      let (v', size', moved) = step-Moves step v size in
      sym (append_assoc (waiting s page) bs bs')
      ∙ ap (λ xs. xs ++ bs') moved
      ∙ append_assoc out (waiting mid page_mid) bs'
      ∙ ap (λ xs. out ++ xs) (steps-Moves rest v' size')
      ∙ sym (append_assoc out out' (waiting s' page'))

  -- From a new stream on an incoming page of 2 MiB, whatever orbits write behind what waits, and whatever is sent on
  -- one descriptor without a refusal, received, completed and given back, in any order: the bytes that the sends
  -- carry as the page is at their call, and behind them those that still wait, are the bytes that were written, in order.
  pub OutSteps-waiting :
      {connection : EntConnected} {s s' : EntHugeTlb c.types} {page page' : Page} {bs out : List ℕ}
      → IsNew connection s
      → c.capacity s.hugetbl_in ≡ page_size
      → OutSteps c fd s page bs out s' page'
      → bs ≡ out ++ waiting s' page'
  unfolding bytes_at
  OutSteps-waiting {connection} {s} {s'} {page} {page'} {bs} {out} new size steps =
      let v : OutValid s.cursor = rw new.cursor (record {
        aligned = refl;
        idx_in = omega arith;
        ordered = omega arith;
        fits = omega arith;
      }) in
      let none_waits : waiting s page ≡ [] = rw new.cursor refl in
      rw none_waits at (steps-Moves steps v size)
