-- ===== src/StickApp/Tasks.antt =====
-- The event task of main.c and the callbacks that feed it, however their moves interleave.
use voicestick.Prelude.{ℕ, ◌≤◌, List, [], ◌∷◌, Option, none, some, arith, length, length-append}
use voicestick.Prelude.Texts.{Text}
use voicestick.StickApp.State.{AppEvent, World, InteractionMode, boot}
use voicestick.StickApp.Recording.{apply_interaction_mode}
use voicestick.StickApp.Events.{handle}
use voicestick.StickApp.Queue.{
  Task, Item, Move, queue_depth, queue_app_event, queue_ui_state_event, on_app, set_mode,
  set_transport, control, ble_control_cb, take_event, move, moves,
}
use voicestick.StickApp.Locks.{IsValid, mode-IsQuiet, acquired, released}
use voicestick.StickApp.Safety.{handle-IsValid}
use voicestick.StickApp.Keeping.{IsQuiet-Keeps}

-- The application is well-formed, and no more events wait than the queue takes.
pub record IsSound (t : Task) : Type 0 where
  pub valid : IsValid t.app
  pub bounded : length t.queue ≤ queue_depth

queue-IsSound : (event : AppEvent) (t : Task) → IsSound t → IsSound (queue_app_event event t)
unfolding queue_app_event
queue-IsSound event t s = ground (arith, length-append t.queue (event ∷ []))

mode-IsSound :
    (mode : InteractionMode) (t : Task)
    → IsSound t
    → IsSound (on_app (apply_interaction_mode mode) t)
unfolding on_app
mode-IsSound mode t s = record {
  valid = (IsQuiet-Keeps t.app _ (mode-IsQuiet mode t.app)).valid s.valid;
  bounded = s.bounded;
}

set_mode-IsSound : (mode : Text) (t : Task) → IsSound t → IsSound (set_mode mode t)
unfolding set_mode
set_mode-IsSound mode t s = grind (arith, mode-IsSound)

set_transport-IsSound : (version : ℕ) (t : Task) → IsSound t → IsSound (set_transport version t)
unfolding set_transport on_app acquired released
set_transport-IsSound version t s = ground arith

control-IsSound : (root : Text → Item) (t : Task) → IsSound t → IsSound (control root t)
unfolding control queue_ui_state_event
control-IsSound root t s = grind (arith, queue-IsSound, set_mode-IsSound, set_transport-IsSound)

turn-IsSound : (w : World) (t : Task) → IsSound t → IsSound (take_event w t)
unfolding take_event
turn-IsSound w t s =
    elim t.queue
        as (λ queue.
          length queue ≤ queue_depth
          → IsSound (elim queue [
            | [] ↦ t
            | event ∷ rest ↦ record { queue = rest; app = handle w event t.app }
          ])) [
            | [] ↦ λ h. s
            | event ∷ rest ↦
                λ h. record { valid = handle-IsValid w event t.app s.valid; bounded = omega arith }
          ]
      s.bounded

-- The application's start: `app_main` makes the queue before anything arrives.
abbrev pub start : Task
start = record { queue = []; app = boot }

boot-IsValid : IsValid boot
unfolding acquired released
boot-IsValid = ground arith

module _ (parse : Text → Option (Text → Item)) where
  move-IsSound : (m : Move) (t : Task) → IsSound t → IsSound (move parse m t)
  unfolding move ble_control_cb
  move-IsSound (Move.arrive event) t s = queue-IsSound event t s
  move-IsSound (Move.control_message json) t s =
      elim (parse json) as (λ o. IsSound (elim o [ none ↦ t | some root ↦ control root t ])) [
        | none ↦ s
        | some root ↦ control-IsSound root t s
      ]
  move-IsSound (Move.turn w) t s = turn-IsSound w t s

  moves-IsSound : (ms : List Move) (t : Task) → IsSound t → IsSound (moves parse ms t)
  unfolding moves
  moves-IsSound [] t s = s
  moves-IsSound (m ∷ ms) t s = moves-IsSound ms (move parse m t) (move-IsSound m t s)

-- Whatever cJSON makes of the control messages, after any moves from the start, events that arrive,
-- control messages and turns of the task in any order: a recording holds the lock on the clock, the
-- lock has been taken as often as it has been given back and is held now, and at most 12 events wait.
pub moves-start-IsSound :
    (parse : Text → Option (Text → Item)) (ms : List Move) → IsSound (moves parse ms start)
moves-start-IsSound parse ms =
    moves-IsSound parse ms start (record { valid = boot-IsValid; bounded = omega arith })
