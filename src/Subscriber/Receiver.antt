-- ===== src/Subscriber/Receiver.antt =====
-- `SubscriberPlugin` and `SharedmemSubscriber`.
use message_transport.Common.{
  ℕ, Bool, true, false, not, ◌&&◌, Option, none, some, List, [], if◌then◌else◌,
}
use message_transport.Serialization.Serializer.{Serializer}
use message_transport.Sharedmem.Segment.{Segment}
use message_transport.Sharedmem.Block.State.{
  ShmHandle, no_handle, is_valid, Outcome, ok, bad_alloc, overrun, aborted, out_of_bounds, thrown,
  Shared, Client, Others,
}
use message_transport.Sharedmem.Block.Operations.{find_handle}
use message_transport.Sharedmem.Block.Transfer.{wait_data}
use message_transport.Publisher.Sender.{c_str, Opening, opened, no_memory, refused, Environment}

-- `rec_thread_` says whether the thread was started, `user_cb_` whether a callback is known.
pub record SharedmemSubscriber : Type 0 where
  pub is_running : Bool
  pub base_topic_ : List ℕ
  pub user_cb_ : Bool
  pub rec_thread_ : Bool
  pub connected : Bool
  pub shm_handle_ : ShmHandle

unfoldable pub new_sharedmem_subscriber : SharedmemSubscriber
new_sharedmem_subscriber = record {
  is_running = false;
  base_topic_ = [];
  user_cb_ = false;
  rec_thread_ = false;
  connected = false;
  shm_handle_ = no_handle;
}

unfoldable pub plugin_num_publishers : SharedmemSubscriber → ℕ
plugin_num_publishers p = 1

-- `SubscriberPlugin::shutdown`
unfoldable pub plugin_shutdown : SharedmemSubscriber → SharedmemSubscriber
plugin_shutdown p = record p { is_running = false }

module _ (G : Segment) (others : Others G) (env : Environment) where
  abbrev pub Receiving : Type 0
  Receiving = SharedmemSubscriber × Shared G

  -- The end of `startReceiving`, on what `findHandle` gave.
  unfoldable pub start_thread :
      SharedmemSubscriber → Outcome (Shared G) ShmHandle → Outcome Receiving (Unit {0})
  start_thread p (ok shm s) =
      if is_valid shm
      then ok tt (record p { connected = true; shm_handle_ = shm; rec_thread_ = true }, s)
      else ok tt (record p { connected = false; shm_handle_ = shm }, s)
  start_thread p (bad_alloc s) = bad_alloc (record p { connected = true }, s)
  start_thread p (overrun s) = overrun (record p { connected = true }, s)
  start_thread p aborted = aborted
  start_thread p out_of_bounds = out_of_bounds
  start_thread p (thrown s) = thrown (record p { connected = true }, s)

  -- `startReceiving` from the opening of the segment on.
  unfoldable pub open_segment :
      Opening → Bool → SharedmemSubscriber → Shared G → Outcome Receiving (Unit {0})
  open_segment no_memory manager p s = ok tt (record p { connected = false }, s)
  open_segment refused manager p s = thrown (p, s)
  open_segment opened false p s = ok tt (record p { connected = false }, s)
  open_segment opened true p s =
      start_thread p (find_handle G others (c_str env.beyond p.base_topic_) s)

  unfoldable pub start_receiving : Receiving → Outcome Receiving (Unit {0})
  start_receiving (p, s) =
      let p' = record p { user_cb_ = true } in
      if not p.connected then open_segment env.opening env.manager p' s else ok tt (p', s)

  unfoldable pub subscribe_impl : List ℕ → Receiving → Outcome Receiving (Unit {0})
  subscribe_impl topic (p, s) =
      if not p.is_running
      then start_receiving (record p { base_topic_ = topic; is_running = true }, s)
      else thrown (p, s)

-- What the thread does with the result of `wait_data`: the message that the callback gets.
unfoldable pub hand_over :
    {G : Segment} {T : Type 0}
    → SharedmemSubscriber
    → Outcome (Client G) (Bool × T)
    → Outcome (SharedmemSubscriber × Shared G) (Option T)
hand_over p (ok (arrived, v) c) =
    ok (if arrived && p.user_cb_ then some v else none) (record p { shm_handle_ = c.shm }, c.shared)
hand_over p (bad_alloc c) = bad_alloc (record p { shm_handle_ = c.shm }, c.shared)
hand_over p (overrun c) = overrun (record p { shm_handle_ = c.shm }, c.shared)
hand_over p aborted = aborted
hand_over p out_of_bounds = out_of_bounds
hand_over p (thrown c) = thrown (record p { shm_handle_ = c.shm }, c.shared)

-- One pass of the loop of `receiveThread`; `fresh` is a new message.
unfoldable pub receive :
    (G : Segment) (others : Others G) {T : Type 0} (S : Serializer T)
    → T
    → SharedmemSubscriber × Shared G
    → Outcome (SharedmemSubscriber × Shared G) (Option T)
receive G others S fresh (p, s) =
    if p.is_running
    then hand_over p (wait_data G others S fresh (record { shm = p.shm_handle_; shared = s }))
    else ok none (p, s)
