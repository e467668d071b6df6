-- ===== src/HugeTlb/Recv.antt =====
-- The completions that a stream is told of: EntHugeTlb::cb_recv_multi and EntHugeTlb::sent_zc.
use yaoi.Base.{
  ℕ, ◌+◌, ◌^◌, ◌<◌, ◌≡◌, ◌⊎◌, inl, inr, arith, Option-cases, dec_lt, Bool, ◌&&◌, Option, none, some,
  ltb, ◌==◌, if◌then◌else◌, not, add_usize, sub_usize,
}
use yaoi.Crates.{CrateTypes, Trace}
use yaoi.Outcome.{M, ok, panic, end_not_updated, revolution, pure, panics, modify}
use yaoi.Cmaps.{MapSentZc, MapRecvMulti}
use yaoi.HugeTlb.{CursorLeft, EntHugeTlb}
use yaoi.HugeTlb.Send.{on_cursor}

-- 2088960..2097152, the last buffer of the page
abbrev pub in_last_buf : ℕ → Bool
in_last_buf pos = not (ltb pos 2_088_960) && ltb pos 2_097_152

abbrev pub end_to : ℕ → CursorLeft → CursorLeft
end_to pos cur = record cur { pos_in_end = pos }

unfoldable pub recv_in : {ty : CrateTypes} → ℕ → MapRecvMulti → M ty (EntHugeTlb ty) (Unit {0})
recv_in buf_id r s =
    let new_end = add_usize r.buf_len s.cursor.pos_in_end in
    if ltb s.cursor.pos_in_end new_end
    then modify (on_cursor (end_to new_end)) s
    else if in_last_buf s.cursor.pos_in_end && (buf_id == 0)
    then panics revolution s
    else panics end_not_updated s

unfoldable pub recv_buf :
    {ty : CrateTypes} → Option ℕ → MapRecvMulti → M ty (EntHugeTlb ty) (Unit {0})
unfolding recv_in
recv_buf none r = pure tt
recv_buf (some buf_id) r = recv_in buf_id r

unfoldable pub cb_recv_multi : {ty : CrateTypes} → MapRecvMulti → M ty (EntHugeTlb ty) (Unit {0})
unfolding recv_buf
cb_recv_multi r = recv_buf r.buf_id r

-- A buffer stays pending until the kernel says that no more completions come for it.
abbrev pub settle : MapSentZc → CursorLeft → CursorLeft
settle z cur = record cur {
  pending_sends = sub_usize cur.pending_sends z.sent_out;
  pending_bufs = if z.more then cur.pending_bufs else sub_usize cur.pending_bufs 1;
}

unfoldable pub sent_zc : {ty : CrateTypes} → MapSentZc → M ty (EntHugeTlb ty) (Unit {0})
sent_zc z = modify (on_cursor (settle z))

-- Where the end of the input and the bytes received do not overflow a usize: a receive moves the end of the input by the bytes received. Without a buffer it changes nothing.
-- With a buffer and no byte it panics: on the wrap into the first buffer, or else for an end that
-- did not move.
pub cb_recv_multi_lem :
    {ty : CrateTypes} (r : MapRecvMulti) (s : EntHugeTlb ty) (t : Trace ty)
    → r.buf_len + s.cursor.pos_in_end < 2 ^ 64
    → let o = cb_recv_multi r s t in
      ((r.buf_id ≡ none) × (o ≡ (ok tt, s, t)))
      ⊎ ((b : ℕ) × (r.buf_id ≡ some b)
          × (0 < r.buf_len)
          × (o ≡ (ok tt, on_cursor (end_to (s.cursor.pos_in_end + r.buf_len)) s, t)))
      ⊎ ((b : ℕ) × (r.buf_id ≡ some b)
          × (r.buf_len ≡ 0)
          × (o ≡ (
            panic (
                if in_last_buf s.cursor.pos_in_end && (b == 0)
                then revolution
                else end_not_updated),
            s,
            t,
          )))
unfolding cb_recv_multi
cb_recv_multi_lem r s t h = elim (Option-cases r.buf_id) [
  | inl e ↦ inl (e, rw (e, recv_buf))
  | inr (b, e) ↦ elim (dec_lt 0 r.buf_len) [
    | yes some_bytes ↦ inr (inl (b, e, some_bytes, rw (e, recv_buf) (ground arith)))
    | no none_left ↦
        let e_len : r.buf_len ≡ 0 = omega arith in
        inr (inr (b, e, e_len, rw (e, recv_buf) (ground arith)))
  ]
]
