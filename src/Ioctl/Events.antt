-- ===== src/Ioctl/Events.antt =====
-- lwis_ioctl.c and lwis_poll of lwis_device.c: the events that a client waits for and takes, and those
-- that it enables.
pub mod Kept
use google_lwis.Prelude.{
  ℕ, ◌&&◌, Bool, true, false, not, Option, none, some, List, [], ◌∷◌, neg, nonzero, ltb, ◌==◌,
  if◌then◌else◌,
}
use google_lwis.Kernel.{
  Kernel, World, kmalloc, lwis_get_time, einval, efault, enoent, eagain, enomem,
}
use google_lwis.Io.{Vops}
use google_lwis.Event.{EventInfo}
use google_lwis.Event.Queue.{Queue, event_queue_get_front, pop_front, peek_front}
use google_lwis.Event.States.{EventControl}
use google_lwis.Subscription.Control.{
  Core, lwis_client_event_control_get, lwis_client_event_control_set,
}

-- The two queues of a client.
pub record Inbox : Type 0 where
  pub event_queue : Queue
  pub error_event_queue : Queue

-- What the user gives, and which of the copies succeed: of the information in, of the payload out, and
-- of the information out. An absent buffer is NULL.
pub record DequeueRequest : Type 0 where
  pub copied : Bool
  pub payload_buffer_size : ℕ
  pub has_buffer : Bool
  pub payload_copied : Bool
  pub returned : Bool

-- What the information for the user is when it is copied out: nothing yet, the size that is needed, or
-- an event.
pub data Told : Type 0 where
  nothing : Told
  needs : ℕ → Told
  event : EventInfo → Told

-- POLLIN and POLLERR.
abbrev pub pollin : ℕ
pollin = 1

abbrev pub pollerr : ℕ
pollerr = 8

unfoldable pub lwis_poll : Inbox → ℕ
unfolding event_queue_get_front
lwis_poll i =
    if (peek_front i.error_event_queue).0 == 0
    then pollerr
    else if (peek_front i.event_queue).0 == 0
    then pollin
    else 0

-- The end of the call for an event at the front of a queue, where `popped` says what popping returns
-- and which queues it leaves.
unfoldable pub dequeue_event : DequeueRequest → Inbox → ℕ × Inbox → EventInfo → ℕ × Told × Inbox
dequeue_event r i popped e =
    if ltb r.payload_buffer_size e.payload_size
    then (if r.returned then (neg eagain, needs e.payload_size, i) else (neg efault, nothing, i))
    else if ltb 0 e.payload_size && r.has_buffer && not r.payload_copied
    then (neg efault, nothing, i)
    else if nonzero popped.0
    then (popped.0, nothing, popped.1)
    else if r.returned
    then (0, event e, popped.1)
    else (neg efault, nothing, popped.1)

abbrev pub pop_error_event : Inbox → ℕ × Inbox
pop_error_event i =
    let (ret, e, q) = pop_front i.error_event_queue in (ret, record i { error_event_queue = q })

abbrev pub pop_event : Inbox → ℕ × Inbox
pop_event i = let (ret, e, q) = pop_front i.event_queue in (ret, record i { event_queue = q })

-- Looking at the normal queue, once the error queue was found empty; a peek has no error but -ENOENT.
unfoldable pub dequeue_normal :
    DequeueRequest → Inbox → ℕ × Option EventInfo × Queue → ℕ × Told × Inbox
unfolding dequeue_event event_queue_get_front
dequeue_normal r i (ret, none, q) = (ret, nothing, i)
dequeue_normal r i (ret, some e, q) = dequeue_event r i (pop_event i) e

unfoldable pub dequeue_error :
    DequeueRequest → Inbox → ℕ × Option EventInfo × Queue → ℕ × Told × Inbox
unfolding dequeue_normal dequeue_event event_queue_get_front
dequeue_error r i (ret, none, q) = dequeue_normal r i (peek_front i.event_queue)
dequeue_error r i (ret, some e, q) = dequeue_event r i (pop_error_event i) e

unfoldable pub ioctl_event_dequeue : DequeueRequest → Inbox → ℕ × Told × Inbox
unfolding dequeue_error event_queue_get_front
ioctl_event_dequeue r i =
    if not r.copied
    then (neg efault, nothing, i)
    else dequeue_error r i (peek_front i.error_event_queue)

module _ (k : Kernel) {Hw : Type 0} where
  -- The time that the user gets, where copying it succeeds.
  unfoldable pub ioctl_time_query : Bool → World Hw → ℕ × Option ℕ × World Hw
  ioctl_time_query returned w =
      let (now, w') = lwis_get_time k w in
      if returned then (0, some now, w') else (neg efault, none, w')

module _ (k : Kernel) (bucket : ℕ → ℕ) {Hw : Type 0} (v : Vops Hw) where
  -- The flags that the user gets.
  unfoldable pub ioctl_event_control_get : Bool → Bool → Core Hw → ℕ → ℕ × Option ℕ × Core Hw
  unfolding lwis_client_event_control_get
  ioctl_event_control_get copied returned c event_id =
      let (ret, flags, c') = lwis_client_event_control_get k bucket v c event_id in
      if not copied
      then (neg efault, none, c)
      else if nonzero ret
      then (neg einval, none, c')
      else if returned
      then (0, flags, c')
      else (neg efault, none, c')

  -- The loop over the settings, which ends at the first error. `none` is a call that C leaves undefined.
  unfoldable pub set_controls : Core Hw → List EventControl → Option (ℕ × Core Hw)
  set_controls c [] = some (0, c)
  set_controls c (e ∷ es) = elim (lwis_client_event_control_set k bucket v c e) [
    | none ↦ none
    | some (ret, c') ↦
        (let rest = set_controls c' es in if nonzero ret then some (ret, c') else rest)
  ]

  -- Without settings the result is a variable that nothing has set: `none`.
  unfoldable pub ioctl_event_control_set :
      Bool → Bool → Core Hw → List EventControl → Option (ℕ × Core Hw)
  unfolding set_controls
  ioctl_event_control_set copied controls_copied c [] =
      let (done, w) = kmalloc k c.world in
      let c' = record c { world = w } in
      if not copied
      then some (neg efault, c)
      else if not done
      then some (neg enomem, c')
      else if not controls_copied
      then some (neg efault, c')
      else none
  ioctl_event_control_set copied controls_copied c (e ∷ es) =
      let (done, w) = kmalloc k c.world in
      let c' = record c { world = w } in
      let applied = set_controls c' (e ∷ es) in
      if not copied
      then some (neg efault, c)
      else if not done
      then some (neg enomem, c')
      else if not controls_copied
      then some (neg efault, c')
      else applied
