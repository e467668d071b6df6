-- ===== src/Crates.antt =====
-- What the program takes from other crates and from the kernel, as one parameter. Nothing here is
-- defined under src/: a call is recorded in the trace, and its outcome is a function of the calls
-- before it, so that a theorem over every `Crates` covers every behaviour of the environment.
use yaoi.Base.{
  ℕ, ◌≤◌, ◌<◌, ◌≡◌, [], ◌∷◌, ◌++◌, length, Bool, Option, none, some, List, ℤ, ◌==◌, if◌then◌else◌,
}

-- core::net::SocketAddr: the address bits and the port
pub data SocketAddr : Type 0 where
  v4 v6 : ℕ → ℕ → SocketAddr

-- io_uring_bearer::TargetFd, of an accepted socket
pub data TargetFd : Type 0 where
  auto_registered unregistered : TargetFd

-- libc::AF_INET and libc::AF_INET6
pub data Family : Type 0 where
  af_inet af_inet6 : Family

-- io_uring_bearer::BearerCapacityKind
pub data BearerCapacityKind : Type 0 where
  core_queue registered_fd pending_completions buffers futexes : BearerCapacityKind

-- The opaque types of the crates hugepage, io_uring_bufring and io_uring_bearer.
pub record CrateTypes : Type 1 where
  pub BearerError : Type 0
  pub HugePageError : Type 0
  pub RingBufError : Type 0
  pub HugePageChoice : Type 0
  pub HugePage : Type 0
  pub RingBuf : Type 0

-- The calls that leave the program, with their arguments. An address in a huge page is its offset
-- from the page's start.
pub data Call (t : CrateTypes) : Type 0 where
  socket : Family → Call t
  setsockopt_reuseaddr : ℕ → Call t
  bind : ℕ → SocketAddr → Call t
  listen : ℕ → ℤ → Call t
  with_capacity : (BearerCapacityKind → ℕ) → Call t
  register_acceptor : ℕ → Call t
  commit_registered_init : Call t
  register_files : List ℤ → Call t
  register_buffers : List (ℕ × ℕ) → Call t
  register_files_update : ℕ → List ℤ → Call t
  add_accept_ipv4 add_accept_ipv6 : ℕ → TargetFd → Call t
  add_recv_multi : ℕ → ℕ → Call t
  add_send_zc_rawbuf : ℕ → ℕ → ℕ → ℕ → Call t
  push_socket : ℕ → Family → Bool → Call t
  push_connect : ℕ → SocketAddr → Call t
  submit : Call t
  handle_completions : ℕ → Call t
  huge_page_new : t.HugePageChoice → Call t
  huge_page_drop : t.HugePage → Call t
  ring_choice : ℕ → ℕ → Call t
  ring_unregistered : t.HugePage → Call t
  ring_register : ℕ → Call t
  ring_unregister : t.RingBuf → Call t
  dropping_bid : t.RingBuf → ℕ → Call t

-- io_uring::cqueue::Entry: the result, whether more completions follow, and the selected buffer
pub record Entry : Type 0 where
  pub result : ℤ
  pub more : Bool
  pub buffer_select : Option ℕ

-- io_uring_bearer::Completion: the submission that an entry completes. `other` stands for the rest.
pub data Completion : Type 0 where
  accept : Option SocketAddr → Completion
  send_zc : ℕ → Option ℕ → Completion
  recv_multi : ℕ → ℕ → Completion
  socket_made : Completion
  connect : ℕ → Completion
  other : Completion

-- io_uring_bearer::completion::SubmissionRecordStatus
pub data Status : Type 0 where
  forget retain : Status

pub data Reply (E A : Type 0) : Type 0 where
  done : A → Reply E A
  failed : E → Reply E A

pub record Crates : Type 1 where
  pub types : CrateTypes
  pub open types use *
  -- the size in bytes of a huge page
  pub capacity : HugePage → ℕ
  -- Results of the bearer's calls; a call that returns no number ignores it.
  pub bearer : List (Call types) → Call types → Reply BearerError ℕ
  -- Results of system calls and of the io_uring submitter; an error is its errno.
  pub os : List (Call types) → Call types → Reply ℕ ℕ
  pub new_page : List (Call types) → Call types → Reply HugePageError HugePage
  pub drops_page : List (Call types) → Call types → Reply (Unit {0}) (Unit {0})
  pub ring_step : List (Call types) → Call types → Reply RingBufError (Unit {0})
  pub registers : List (Call types) → Call types → Reply RingBufError RingBuf
  -- The completions that are handled by a call, and how it ends after them.
  pub completions : List (Call types) → ℕ → List (Entry × Completion) × Reply BearerError (Unit {0})
  -- thingbuf::StaticThingBuf, a queue of at most `n` values; `items` is what it holds, oldest first.
  pub Buf : ℕ → Type 0 → Type 0
  pub buf_new : (n : ℕ) (A : Type 0) → Buf n A
  pub push : {n : ℕ} {A : Type 0} → Buf n A → A → Option (Buf n A)
  pub pop : {n : ℕ} {A : Type 0} → Buf n A → Option (A × Buf n A)
  pub items : {n : ℕ} {A : Type 0} → Buf n A → List A
  pub items-new : (n : ℕ) (A : Type 0) → items (buf_new n A) ≡ []
  pub items-push :
      {n : ℕ} {A : Type 0} (b : Buf n A) (a : A)
      → length (items b) < n
      → (b' : Buf n A) × (push b a ≡ some b') × (items b' ≡ items b ++ a ∷ [])
  pub push-full :
      {n : ℕ} {A : Type 0} (b : Buf n A) (a : A) → n ≤ length (items b) → push b a ≡ none
  pub pop-nil : {n : ℕ} {A : Type 0} (b : Buf n A) → items b ≡ [] → pop b ≡ none
  pub pop-cons :
      {n : ℕ} {A : Type 0} (b : Buf n A) (a : A) (l : List A)
      → items b ≡ a ∷ l
      → (b' : Buf n A) × (pop b ≡ some (a, b')) × (items b' ≡ l)
  -- hashbrown::HashMap with keys u32
  pub Map : Type 0 → Type 0
  pub map_new : {V : Type 0} → Map V
  pub get : {V : Type 0} → Map V → ℕ → Option V
  pub insert : {V : Type 0} → Map V → ℕ → V → Map V
  pub remove : {V : Type 0} → Map V → ℕ → Map V
  pub get-new : {V : Type 0} (k : ℕ) → get (map_new {V = V}) k ≡ none
  pub get-insert :
      {V : Type 0} (m : Map V) (k : ℕ) (v : V) (j : ℕ)
      → get (insert m k v) j ≡ (if k == j then some v else get m j)
  pub get-remove :
      {V : Type 0} (m : Map V) (k j : ℕ) → get (remove m k) j ≡ (if k == j then none else get m j)

abbrev pub Trace : CrateTypes → Type 0
Trace t = List (Call t)
