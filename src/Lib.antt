-- ===== src/Lib.antt =====
-- A model of yaoi: TCP listeners and client pools on io_uring, whose streams keep their bytes in
-- huge pages and hand them to a stack of orbits.
--
-- The parts, and the files that model them:
--   Base, Base/*           numbers of machine width, Boolean tests, lists
--   Crates                 the crates and the kernel that the program calls, as one parameter
--   Outcome, Outcome/*     src/error.rs; operations that end with a value, an error or a panic. Display has
--                          the text of errors, Rules and Keeps what a chain of operations keeps
--   Cmaps                  src/cmaps.rs: what a completion is turned into
--   Connected              src/tcp_stream/ent_connected.rs
--   HugeTlb                EntHugeTlb of src/tcp_stream/ent_streaming_hugetlb.rs: CursorLeft, from_connected,
--                          destroy, recv_multi. Send has send_all_out, Recv has cb_recv_multi and sent_zc,
--                          Free has try_free_buffers, Left has `impl Left for &mut EntHugeTlb`, Iovecs has
--                          register_out_bufs. Left/Steps has what an orbit can do as a step relation,
--                          Left/Overlong what a length near 2^64 does, Flight
--                          the sends under way and their completions, Wrap the end of the input page,
--                          Reuse the outgoing buffers that are handed out after a send. Bytes has the bytes
--                          in the pages: Incoming and Fifo the input as a queue, Payload, Moves, Outgoing and
--                          Queue the output
--   Intermed               IntermedBuf of the same file, with its Left and Right. Consume has what an orbit
--                          does with it from the left
--   Run                    run_blueprints of the same file. Steps has what a run does to its stream, Ends when it
--                          returns
--   Blueprints             src/blueprints.rs
--   Strategy, Capacity     src/strategy.rs, src/capacity
--   Stream                 src/tcp_stream.rs: the operations of EntHugeTlb, refused where there are no buffers
--   Batch                  the queue of completions that both `check` fill and work off
--   Serve                  what both `check` do to a new stream
--   Listener               src/tcp_listener.rs. Listen has listen_with_strategy, Complete the closure given to
--                          handle_completions, Check the loop over the bundle
--   ClientPool             src/tcp_pool/tcp_client_pool.rs, divided in the same way
--                          In both, Check/Valid has the invariant of the pool, Check/Keep its part in `check`,
--                          Check/Frame the slots that a piece of work leaves alone. Session has a client pool
--                          through the calls of its owner, Check/Closed the end of a client's connection
--   Example                examples/blueprint-tls-http/src/main.rs: Slots has its callback, Main the whole,
--                          and Tls the configuration of src/ytls.rs beside it
--   Tests                  the theorems at concrete inputs
--
-- How they interact: `check` takes completions in, pushes a message for each into a queue and then works
-- on the messages. The work finds the connection's slot in the pool, tells its stream of the completion,
-- calls the user's callback with the stream, sends what the callback left in the outgoing page and gives
-- read buffers back. A callback usually runs the blueprints, which read and write by the Left of a stream.
--
-- An operation takes a state and the trace of the calls made so far, and returns an Outcome with the
-- state and the trace after it. What was written before an error or a panic stays written. A call that
-- leaves the program goes to Crates, whose replies may depend on all calls before. A slice of
-- a page is its offset and length, since no code here reads the bytes; HugeTlb/Bytes adds what a page holds
-- beside a stream, written by the kernel and the orbits and read by the orbits and the sends. There the
-- kernel is taken to fill the buffers of a ring one behind the other, the last one in part, and to write
-- over no byte that is yet to be read, as it does for buffers that are consumed in increments. The release profile is modelled, where an
-- overflow wraps around: usize has 64 bits. A callback is a function, and `none` is a panic in it.
--
-- Loops: send_chunks recurs on the number of chunks, free_range on the number of buffers. The loop of
-- callback and send is given seven rounds (serve_fuel): a send goes out only while at most five buffers
-- are pending and adds one at least. The loop over the queue is given one round more than the queue has
-- places. run_blueprints depends on the orbits and takes its fuel as an argument.
--
-- A send under way (Flight) has one completion, or two: the bytes, and later that its buffer is free. A send
-- that fails is not told to its stream, as in the closures given to handle_completions. An orbit is a
-- parameter; where a theorem depends on what it does, it works by the operations of Left, and sets no length
-- above a page of 2 MiB. left_set_lens does not ask for that: its test wraps around for lengths near 2^64.
--
-- Not modelled: src/lib.rs and src/dummy.rs (re-exports, and a stub whose methods are todo), and printed
-- lines. The macro of src/macros.rs is Outcome.ask_syscall. The orbits of the example are taken to be made without
-- a panic (Makers); where the configuration of the first one panics is in Example/Tls. The callback of the example has a bound on the turns of a run, and counts more turns as a
-- panic.
pub mod Base
pub mod Crates
pub mod Outcome
pub mod Cmaps
pub mod Connected
pub mod HugeTlb
pub mod Batch
pub mod Intermed
pub mod Blueprints
pub mod Strategy
pub mod Capacity
pub mod Run
pub mod Stream
pub mod Serve
pub mod Listener
pub mod ClientPool
pub mod Tests
pub mod Example
