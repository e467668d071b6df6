-- ===== src/Listener.antt =====
-- src/tcp_listener.rs: the state of a listener and its slots, and its simple operations. The
-- children have the construction, the handling of completions and `check`.
pub mod Listen
pub mod Complete
pub mod Check
use yaoi.Base.{ℕ, Bool, Option, none, some}
use yaoi.Crates.{Crates, CrateTypes, SocketAddr}
use yaoi.Outcome.{M, Outcome, ok, err, huge_tlb_already_set, pure, raise, modify, gets, ◌>>=◌, ◌>>◌}
use yaoi.Strategy.{StrategyListener}
use yaoi.Stream.{TcpStream}

pub data ListenerSlotCtx (ty : CrateTypes) : Type 0 where
  created : ListenerSlotCtx ty
  accepted : TcpStream ty → ListenerSlotCtx ty
  reading : TcpStream ty → ListenerSlotCtx ty
  writing : TcpStream ty → ListenerSlotCtx ty
  reading_and_writing : TcpStream ty → ListenerSlotCtx ty
  shutdown_ok : ListenerSlotCtx ty

module _ {ty : CrateTypes} where
  unfoldable pub tcp_stream_mut : ListenerSlotCtx ty → Option (TcpStream ty)
  tcp_stream_mut (accepted s) = some s
  tcp_stream_mut (reading s) = some s
  tcp_stream_mut (writing s) = some s
  tcp_stream_mut (reading_and_writing s) = some s
  tcp_stream_mut created = none
  tcp_stream_mut shutdown_ok = none

  -- A write through the reference of `tcp_stream_mut`.
  unfoldable pub put_stream : TcpStream ty → ListenerSlotCtx ty → ListenerSlotCtx ty
  put_stream s (accepted _) = accepted s
  put_stream s (reading _) = reading s
  put_stream s (writing _) = writing s
  put_stream s (reading_and_writing _) = reading_and_writing s
  put_stream s created = created
  put_stream s shutdown_ok = shutdown_ok

  unfoldable pub move_tcpstream_out : ListenerSlotCtx ty → Option (TcpStream ty)
  unfolding tcp_stream_mut
  move_tcpstream_out slot = tcp_stream_mut slot

-- A callback of type Fn(&mut Cdata, &mut TcpStream, bool); `none` is a panic in it.
abbrev pub Callback : CrateTypes → Type 0 → Type 0
Callback ty U = U → TcpStream ty → Bool → Option (U × TcpStream ty)

pub record TcpListener (c : Crates) (U : Type 0) : Type 0 where
  pub local_addr : SocketAddr
  pub listen_fd : ℕ
  pub reg_mapped_acceptfd : ℕ
  pub strategy : StrategyListener
  pub pool : c.Map (ListenerSlotCtx c.types)
  pub pool_count : ℕ
  pub a_fn : Option (Callback c.types U)
  pub cfg_hugetlb : Option c.HugePageChoice

-- A listener with the user data of its callback.
pub record Work (c : Crates) (U : Type 0) : Type 0 where
  pub listener : TcpListener c U
  pub user : U

module _ (c : Crates) {U : Type 0} where
  unfoldable pub accept_with_cb : Callback c.types U → M c.types (TcpListener c U) (Unit {0})
  accept_with_cb func = modify (λ (l : TcpListener c U). record l { a_fn = some func })

  unfoldable pub set_hugetlb : c.HugePageChoice → M c.types (TcpListener c U) (Unit {0})
  set_hugetlb choice l = elim l.cfg_hugetlb [
    | none ↦ pure tt (record l { cfg_hugetlb = some choice })
    | some _ ↦ raise huge_tlb_already_set l
  ]
