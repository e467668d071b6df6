-- ===== src/Listener/Check/Accept.antt =====
-- What an accepted connection leaves in the pool.
use yaoi.Base.{
  ℕ, ◌≡◌, refl, ◌==◌, if◌then◌else◌, ◌&&◌, Bool, true, false, arith, pos, Option, none, some,
}
use yaoi.Crates.{Crates, CrateTypes, Trace, SocketAddr, submit, auto_registered}
use yaoi.Outcome.{ask_bearer, pure, ◌>>◌}
use yaoi.Outcome.Rules.{Post, chain-Post, chain-Post_any, state-Post}
use yaoi.Cmaps.{MapAccepted}
use yaoi.Stream.{TcpStream, left_wants_read, left_wants_write}
use yaoi.Serve.{upgrade}
use yaoi.Serve.Laws.{IsIdle, upgrade-IsIdle}
use yaoi.Listener.{ListenerSlotCtx, Work}
use yaoi.Listener.Listen.{accept_call}
use yaoi.Listener.Check.{
  fresh_stream, slot_for, set_pool, on_local, first_served, accept_at, work_accepted,
}

fresh_stream-IsIdle :
    (ty : CrateTypes) (addr : Option SocketAddr) (slot : ℕ)
    → IsIdle (fresh_stream {ty = ty} addr slot)
unfolding fresh_stream left_wants_write left_wants_read
fresh_stream-IsIdle ty none slot = (refl, refl)
fresh_stream-IsIdle ty (some addr) slot = (refl, refl)

module _ (c : Crates) {U : Type 0} where
  abbrev pub IsAccepted : ℕ → Work c U → Type 0
  IsAccepted slot w =
      (stream : TcpStream c.types) × (c.get w.listener.pool slot
        ≡ some (ListenerSlotCtx.accepted stream))

  submits_if-IsAccepted :
      (b : Bool) (slot : ℕ) (w : Work c U) (t : Trace c.types)
      → IsAccepted slot w
      → Post
          (λ _ w'. IsAccepted slot w')
          ((if b then pure tt else (ask_bearer c submit >> pure tt)) w t)
  submits_if-IsAccepted true slot w t h = h
  submits_if-IsAccepted false slot w t h =
      chain-Post (λ _ w'. IsAccepted slot w') _ (ask_bearer c submit w t) _
        (state-Post (IsAccepted slot) (ask_bearer c submit w t) h) (λ _ _ _ p. p)

  put-IsAccepted :
      (slot : ℕ) (wants_write wants_read : Bool) (stream : TcpStream c.types) (w : Work c U)
      → wants_write ≡ false
      → wants_read ≡ false
      → IsAccepted slot
          (set_pool c (c.insert w.listener.pool slot (slot_for wants_write wants_read stream)) w)
  unfolding slot_for
  put-IsAccepted slot wants_write wants_read stream w h g =
      let same : (slot == slot) ≡ true = ground arith in
      (stream, rw (h, g, c.get-insert, same) refl)

  accept_at-IsAccepted :
      (slot : ℕ) (addr : Option SocketAddr) (w : Work c U) (t : Trace c.types)
      → Post (λ _ w'. IsAccepted slot w') (accept_at c slot addr w t)
  unfolding accept_at
  accept_at-IsAccepted slot addr w t =
      chain-Post_any _
        (ask_bearer c
          (accept_call c w.listener.local_addr w.listener.reg_mapped_acceptfd auto_registered) w t)
        _
        λ _ w1 t1. chain-Post_any _ (ask_bearer c submit w1 t1) _ λ _ w2 t2.
          chain-Post (λ stream _. IsIdle stream) _
            (upgrade c w.listener.cfg_hugetlb (fresh_stream addr slot) w2 t2) _
            (upgrade-IsIdle c w.listener.cfg_hugetlb (fresh_stream addr slot) w2 t2
              (fresh_stream-IsIdle c.types addr slot))
            λ stream w3 t3 idle.
              chain-Post_any _ (on_local c stream (first_served c w.listener.a_fn) w3 t3) _
                λ r w4 t4.
                  submits_if-IsAccepted ((r.0.0 == 0) && (r.0.1 == 0)) slot _ t4
                    (put-IsAccepted slot _ _ r.1 w4 idle.0 idle.1)

  -- The work on an accepted connection that returns has put the connection into its slot as `accepted`:
  -- neither reading nor writing, whatever the callback asked for.
  pub work_accepted-IsAccepted :
      (a : MapAccepted) (slot : ℕ) (w : Work c U) (t : Trace c.types)
      → a.result ≡ pos slot
      → Post (λ _ w'. IsAccepted slot w') (work_accepted c a w t)
  unfolding work_accepted
  work_accepted-IsAccepted a slot w t h =
      rw (work_accepted, h) (accept_at-IsAccepted slot a.s_addr w t)
