-- ===== src/Client/Race.antt =====
-- src/client/pool.rs: several calls to one origin at a time, each a task that runs from one await to
-- the next, in any order. They share the origin's two slots, of HTTP/3 and of HTTP/2, each under a
-- lock: the loop of `execute_with_redirects` that takes a connection, the fallback that dials for
-- HTTP/2 while it holds the lock of HTTP/3, and the fallback after HTTP/3 lost a request, which sends
-- it again before it gives the lock of HTTP/2 back. A call may be dropped by its caller at any await,
-- and its guards with it; so do the early returns with a poisoned pool or a request that cannot be made
-- end a task here.
pub mod Guarded
pub mod Moves
pub mod Serial
pub mod Endings
pub mod Progress
pub mod Shown
pub mod Alone
pub mod Dials
pub mod Peeking
pub mod Acquiring
pub mod Reacquiring
pub mod Serving
pub mod Hop
pub mod Exchange
pub mod Tests
use quik.Base.{
  ℕ, suc, ◌==◌, Bool, true, false, Option, none, some, List, [], ◌∷◌, is_some, if◌then◌else◌,
}

pub data Protocol : Type 0 where
  h3 h2 : Protocol

-- Connections are numbered as they are dialled into their slot.
pub data Task : Type 0 where
  -- about to look at the slot
  peeking : Protocol → Task
  -- awaits `ready` of a copy of the connection of HTTP/2, without the lock
  checking : ℕ → Task
  -- about to empty the slot of HTTP/2
  clearing : Task
  -- found the slot empty and wants its lock
  entering : Protocol → Task
  -- dials with the lock
  dialing : Protocol → Task
  -- could not dial for HTTP/3, has its lock still and wants that of HTTP/2
  crossing : Task
  -- dials for HTTP/2 with both locks
  dialing_under_both : Task
  -- has sent its request over HTTP/3
  sending : ℕ → Task
  -- lost it and wants the lock of HTTP/2
  retrying : Task
  -- awaits `ready` with the lock
  rechecking : ℕ → Task
  -- dials with the lock, for the lost request
  redialing : Task
  -- sends it again, with the lock still
  resending : ℕ → Task
  -- out of the locks for good: it has a connection of HTTP/2 to send over, or its answer
  done : Protocol → ℕ → Task
  failed : Task

-- `dials` counts the dials that succeeded, and `withdrawn` how often a task whose `ready` had failed
-- emptied the slot or went on to dial in place of its connection. The source keeps neither.
pub record Slot : Type 0 where
  pub held : Option ℕ
  pub lock : Option ℕ
  pub dials : ℕ
  pub withdrawn : ℕ

pub record Origin : Type 0 where
  pub slot_3 : Slot
  pub slot_2 : Slot
  pub tasks : ℕ → Task

abbrev pub slot_of : Protocol → Origin → Slot
slot_of h3 o = o.slot_3
slot_of h2 o = o.slot_2

abbrev pub set_task : ℕ → Task → (ℕ → Task) → ℕ → Task
set_task i t tasks j = if i == j then t else tasks j

abbrev pub goes : ℕ → Task → Origin → Origin
goes i t o = record o { tasks = set_task i t o.tasks }

abbrev pub with_slot : Protocol → Slot → Origin → Origin
with_slot h3 s o = record o { slot_3 = s }
with_slot h2 s o = record o { slot_2 = s }

abbrev pub lock_for : ℕ → Slot → Slot
lock_for i s = record s { lock = some i }

abbrev pub release : Slot → Slot
release s = record s { lock = none }

-- A connection was dialled: it is kept, and the lock given back.
abbrev pub fill : Slot → Slot
fill s = record s { held = some s.dials; lock = none; dials = suc s.dials }

-- The same with the lock held on.
abbrev pub keep : Slot → Slot
keep s = record s { held = some s.dials; dials = suc s.dials }

abbrev pub withdraw : Slot → Slot
withdraw s = record s { withdrawn = suc s.withdrawn }

-- `guard.as_ref().cloned()`.
unfoldable pub peek : Protocol → ℕ → Option ℕ → Origin → Origin
peek p i none o = goes i (entering p) o
peek h3 i (some c) o = goes i (sending c) o
peek h2 i (some c) o = goes i (checking c) o

unfoldable pub enter : Protocol → ℕ → Option ℕ → Origin → Origin
enter p i none o = goes i (dialing p) (with_slot p (lock_for i (slot_of p o)) o)
enter p i (some c) o = goes i (peeking p) o

-- What follows a dial with one lock.
unfoldable pub dialled : Protocol → ℕ → Bool → Origin → Origin
dialled h3 i true o = goes i (sending o.slot_3.dials) (with_slot h3 (fill o.slot_3) o)
dialled h3 i false o = goes i crossing o
dialled h2 i true o = goes i (done h2 o.slot_2.dials) (with_slot h2 (fill o.slot_2) o)
dialled h2 i false o = goes i failed (with_slot h2 (release o.slot_2) o)

-- With both locks: a connection that HTTP/2 has is taken.
unfoldable pub cross : ℕ → Option ℕ → Origin → Origin
cross i none o = goes i dialing_under_both (with_slot h2 (lock_for i o.slot_2) o)
cross i (some c) o = goes i (done h2 c) (with_slot h3 (release o.slot_3) o)

unfoldable pub dialled_under_both : ℕ → Bool → Origin → Origin
dialled_under_both i true o =
    goes i (done h2 o.slot_2.dials)
      (with_slot h3 (release o.slot_3) (with_slot h2 (fill o.slot_2) o))
dialled_under_both i false o =
    goes i failed (with_slot h3 (release o.slot_3) (with_slot h2 (release o.slot_2) o))

unfoldable pub retry : ℕ → Option ℕ → Origin → Origin
retry i none o = goes i redialing (with_slot h2 (lock_for i o.slot_2) o)
retry i (some c) o = goes i (rechecking c) (with_slot h2 (lock_for i o.slot_2) o)

-- `*guard = None`.
unfoldable pub clear : ℕ → Origin → Origin
clear i o = goes i (peeking h2) (with_slot h2 (record (withdraw o.slot_2) { held = none }) o)

unfoldable pub rechecked : ℕ → ℕ → Bool → Origin → Origin
rechecked i c true o = goes i (resending c) (with_slot h2 (record o.slot_2 { held = some c }) o)
rechecked i c false o = goes i redialing (with_slot h2 (withdraw o.slot_2) o)

unfoldable pub redialled : ℕ → Bool → Origin → Origin
redialled i true o = goes i (resending o.slot_2.dials) (with_slot h2 (keep o.slot_2) o)
redialled i false o = goes i failed (with_slot h2 (release o.slot_2) o)

-- The guard lives until the answer.
unfoldable pub resent : ℕ → ℕ → Bool → Origin → Origin
resent i c verdict o =
    goes i (if verdict then done h2 c else failed) (with_slot h2 (release o.slot_2) o)

abbrev pub unless_locked : Protocol → (Origin → Origin) → Origin → Origin
unless_locked p f o = if is_some (slot_of p o).lock then o else f o

-- The step of a task. `verdict` is what the network says, where it is asked: that the connection is
-- ready, that the dial succeeded, or that an answer came.
unfoldable pub step : Task → ℕ → Bool → Origin → Origin
unfolding peek enter dialled cross dialled_under_both retry clear rechecked redialled resent
step (peeking p) i verdict o = unless_locked p (λ o. peek p i (slot_of p o).held o) o
step (checking c) i verdict o = goes i (if verdict then done h2 c else clearing) o
step clearing i verdict o = unless_locked h2 (clear i) o
step (entering p) i verdict o = unless_locked p (λ o. enter p i (slot_of p o).held o) o
step (dialing p) i verdict o = dialled p i verdict o
step crossing i verdict o = unless_locked h2 (λ o. cross i o.slot_2.held o) o
step dialing_under_both i verdict o = dialled_under_both i verdict o
step (sending c) i verdict o = goes i (if verdict then done h3 c else retrying) o
step retrying i verdict o = unless_locked h2 (λ o. retry i o.slot_2.held o) o
step (rechecking c) i verdict o = rechecked i c verdict o
step redialing i verdict o = redialled i verdict o
step (resending c) i verdict o = resent i c verdict o
step (done p c) i verdict o = o
step failed i verdict o = o

abbrev pub is_holding : Protocol → Task → Bool
is_holding h3 (dialing h3) = true
is_holding h3 crossing = true
is_holding h3 dialing_under_both = true
is_holding h2 (dialing h2) = true
is_holding h2 dialing_under_both = true
is_holding h2 (rechecking c) = true
is_holding h2 redialing = true
is_holding h2 (resending c) = true
is_holding p t = false

abbrev pub is_ended : Task → Bool
is_ended (done p c) = true
is_ended failed = true
is_ended t = false

abbrev pub release_if : Bool → Slot → Slot
release_if true s = release s
release_if false s = s

-- The call is dropped: so are its guards.
unfoldable pub cancel : Task → ℕ → Origin → Origin
cancel t i o = if is_ended t then o else record {
  slot_3 = release_if (is_holding h3 t) o.slot_3;
  slot_2 = release_if (is_holding h2 t) o.slot_2;
  tasks = set_task i failed o.tasks;
}

-- Whose turn it is, and the verdict; none if the call is dropped.
abbrev pub Turn : Type 0
Turn = ℕ × Option Bool

unfoldable pub turn : Turn → Origin → Origin
unfolding step cancel
turn (i, none) o = cancel (o.tasks i) i o
turn (i, some verdict) o = step (o.tasks i) i verdict o

unfoldable pub run : List Turn → Origin → Origin
unfolding turn
run [] o = o
run (t ∷ turns) o = run turns (turn t o)

abbrev pub empty_slot : Slot
empty_slot = record { held = none; lock = none; dials = 0; withdrawn = 0 }

-- Nothing was dialled yet, and each call goes over the protocol that the Alt-Svc cache told it.
abbrev pub unconnected : (ℕ → Protocol) → Origin
unconnected over = record {
  slot_3 = empty_slot;
  slot_2 = empty_slot;
  tasks = λ i. peeking (over i);
}
