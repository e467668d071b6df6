-- ===== src/ClientPool/Complete/Agree.antt =====
-- Where the closures of TcpClientPool::check and TcpListener::check treat a completion alike.
use yaoi.Base.{ℕ, ◌≡◌, refl, ℤ, pos, negsuc, true, Option, none, some}
use yaoi.Crates.{Entry, send_zc, recv_multi, Status, forget, retain}
use yaoi.Outcome.{Panic}
use yaoi.Batch.{Handled, bad, good}
use yaoi.Cmaps.{ClientMapMixed, ServerMapMixed, MapSentZc, MapRecvMulti}
use yaoi.Listener
use yaoi.Listener.Complete.{keep_if}
use yaoi.ClientPool.Complete.{handle, received_in, sent_from}

-- What a stream is told of a completion.
pub data Told : Type 0 where
  sent : MapSentZc → Told
  received : MapRecvMulti → Told
  -- no matter of a stream
  other : Told

abbrev pub by_server : ServerMapMixed → Told
by_server (ServerMapMixed.sent_zc z) = sent z
by_server (ServerMapMixed.recv_multi r) = received r
by_server (ServerMapMixed.accepted a) = other
by_server ServerMapMixed.nothing = other

abbrev pub by_client : ClientMapMixed → Told
by_client (ClientMapMixed.sent_zc z) = sent z
by_client (ClientMapMixed.recv_multi r) = received r
by_client (ClientMapMixed.connected a) = other
by_client ClientMapMixed.nothing = other

-- A panic, or what is pushed, if anything; without what becomes of the record.
pub data Pushed : Type 0 where
  panicked : Panic → Pushed
  pushed : Option Told → Pushed

abbrev pub push_of : {A : Type 0} → (A → Told) → Handled A → Pushed
push_of f (bad p) = panicked p
push_of f (good none s) = pushed none
push_of f (good (some m) s) = pushed (some (f m))

abbrev pub status_of : {A : Type 0} → Handled A → Status
status_of (bad p) = retain
status_of (good m s) = s

sent_alike :
    (e : Entry) (r : ℤ) (fd : ℕ) (buf : Option ℕ)
    → e.result ≡ r
    → push_of by_server (Listener.Complete.handle e (send_zc fd buf))
      ≡ push_of by_client (handle e (send_zc fd buf))
unfolding handle sent_from Listener.Complete.handle Listener.Complete.sent
sent_alike e (negsuc n) fd buf h = rw h refl
sent_alike e (pos n) fd none h = rw h refl
sent_alike e (pos n) fd (some b) h = rw h refl

received_alike :
    (e : Entry) (r : ℤ) (fd grp b : ℕ)
    → e.result ≡ r
    → e.buffer_select ≡ some b
    → e.more ≡ true
    → push_of by_server (Listener.Complete.handle e (recv_multi fd grp))
      ≡ push_of by_client (handle e (recv_multi fd grp))
unfolding handle received_in Listener.Complete.handle Listener.Complete.received
received_alike e (negsuc n) fd grp b h g m = rw h refl
received_alike e (pos n) fd grp b h g m = rw (h, g, m) refl

status_differs :
    (e : Entry) (r : ℤ) (fd : ℕ) (buf : Option ℕ)
    → e.result ≡ r
    → e.more ≡ true
    → status_of (Listener.Complete.handle e (send_zc fd buf)) ≡ retain
unfolding Listener.Complete.handle Listener.Complete.sent keep_if
status_differs e (negsuc n) fd buf h m = rw (h, m) refl
status_differs e (pos n) fd none h m = rw h refl
status_differs e (pos n) fd (some b) h m = rw (h, m) refl

client_forgets :
    (e : Entry) (n fd b : ℕ)
    → e.result ≡ pos n
    → status_of (handle e (send_zc fd (some b))) ≡ forget
unfolding handle sent_from
client_forgets e n fd b h = rw h refl

-- The client's closure and the listener's push the same for every completion of a send, a failed one included, and for
-- every completion of a receive that has a buffer and after which more follow, or panic alike. With more completions
-- to follow a send that was taken, the listener keeps its record and the client forgets it.
pub handle_alike :
    (e f g : Entry) (fd grp b n k : ℕ) (buf : Option ℕ)
    → f.buffer_select ≡ some b
    → f.more ≡ true
    → g.result ≡ pos n
    → g.more ≡ true
    → (push_of by_server (Listener.Complete.handle e (send_zc fd buf))
        ≡ push_of by_client (handle e (send_zc fd buf)))
      × (push_of by_server (Listener.Complete.handle f (recv_multi fd grp))
          ≡ push_of by_client (handle f (recv_multi fd grp)))
      × (status_of (Listener.Complete.handle g (send_zc fd (some k))) ≡ retain)
      × (status_of (handle g (send_zc fd (some k))) ≡ forget)
handle_alike e f g fd grp b n k buf with_buf more taken more_sent = (
  sent_alike e e.result fd buf refl,
  received_alike f f.result fd grp b refl with_buf more,
  status_differs g (pos n) fd (some k) taken more_sent,
  client_forgets g n fd k taken,
)
