-- ===== src/VoiceBle/Link/Laws.antt =====
-- The connection's invariant, the window of acknowledged frames, and the size of what is sent.
use voicestick.Prelude.{
  ℕ, ◌≡◌, ◌⊎◌, Bool, true, false, List, [], ◌∷◌, Option, none, some, arith, Option-cases,
}
use voicestick.Prelude.Texts.{Bytes}
use voicestick.VoiceBle.Link.{
  Link, Answers, GapEvent, gap_event_cb, control_access_cb, set_audio_transport_version,
  begin_audio_session, request_fast_interval, start_advertising, stop_advertising,
  request_slow_interval, subscribed, reset_audio, params_answered, abort_update, deferred_interval,
  init,
}

abbrev pub is_some : Option ℕ → Bool
is_some none = false
is_some (some h) = true

-- A connection has a handle and nothing else has; without one nothing is subscribed; and the version
-- of the audio is one that the stick can send.
pub record IsLinked (l : Link) : Type 0 where
  pub handle : is_some l.conn_handle ≡ l.connected
  pub silent : l.connected ≡ false → (l.audio_subscribed ≡ false) × (l.state_subscribed ≡ false)
  pub known_version : (l.audio_transport_version ≡ 1) ⊎ (l.audio_transport_version ≡ 2)

-- What happens to the connection.
pub data LinkMove : Type 0 where
  gap : Answers → GapEvent → LinkMove
  control_write : (is_write is_copied : Bool) → Bytes → LinkMove
  choose_version begin_session : ℕ → LinkMove
  fast_interval slow_interval : Answers → LinkMove

unfoldable pub link_move : LinkMove → Link → Link
link_move (gap n e) l = gap_event_cb n e l
link_move (control_write is_write is_copied raw) l = (control_access_cb is_write is_copied raw l).0
link_move (choose_version v) l = (set_audio_transport_version v l).0
link_move (begin_session s) l = begin_audio_session s l
link_move (fast_interval n) l = (request_fast_interval n l).0
link_move (slow_interval n) l = (request_slow_interval n l).0

unfoldable pub link_moves : List LinkMove → Link → Link
link_moves [] l = l
link_moves (m ∷ ms) l = link_moves ms (link_move m l)

-- What the invariant speaks of is as before.
record IsSame (l k : Link) : Type 0 where
  pub same_connected : k.connected ≡ l.connected
  pub same_handle : k.conn_handle ≡ l.conn_handle
  pub same_audio : k.audio_subscribed ≡ l.audio_subscribed
  pub same_state : k.state_subscribed ≡ l.state_subscribed
  pub same_version : k.audio_transport_version ≡ l.audio_transport_version

IsSame-IsLinked : (l k : Link) → IsSame l k → IsLinked l → IsLinked k
IsSame-IsLinked l k s v = ground arith

advertise-IsSame : (n : Answers) (l : Link) → IsSame l (start_advertising n l)
unfolding start_advertising
advertise-IsSame n l = ground arith

stop-IsSame : (n : Answers) (l : Link) → IsSame l (stop_advertising n l)
unfolding stop_advertising
stop-IsSame n l = ground arith

fast-IsSame : (n : Answers) (l : Link) → IsSame l (request_fast_interval n l).0
unfolding request_fast_interval params_answered
fast-IsSame n l = ground (arith, Option-cases l.conn_handle)

slow-IsSame : (n : Answers) (l : Link) → IsSame l (request_slow_interval n l).0
unfolding request_slow_interval params_answered
slow-IsSame n l = ground (arith, Option-cases l.conn_handle)

control-IsSame :
    (is_write is_copied : Bool) (raw : Bytes) (l : Link)
    → IsSame l (control_access_cb is_write is_copied raw l).0
unfolding control_access_cb
control-IsSame is_write is_copied raw l = ground arith

subscribed-IsLinked :
    (attr_handle : ℕ) (cur_notify : Bool) (l : Link)
    → l.connected ≡ true
    → IsLinked l
    → IsLinked (subscribed attr_handle cur_notify l)
unfolding subscribed
subscribed-IsLinked attr_handle cur_notify l c v = ground arith

update-IsSame : (n : Answers) (l : Link) → IsSame l (gap_event_cb n GapEvent.conn_update l)
unfolding gap_event_cb deferred_interval
update-IsSame n l = grind (arith, fast-IsSame, slow-IsSame)

gap-IsLinked : (n : Answers) (e : GapEvent) (l : Link) → IsLinked l → IsLinked (gap_event_cb n e l)
unfolding gap_event_cb reset_audio abort_update
gap-IsLinked n (GapEvent.connect status handle) l v = grind (arith, advertise-IsSame, stop-IsSame)
gap-IsLinked n GapEvent.disconnect l v = grind (arith, advertise-IsSame)
gap-IsLinked n (GapEvent.subscribe handle attr_handle cur_notify) l v =
    grind (arith, subscribed-IsLinked)
gap-IsLinked n GapEvent.conn_update l v = IsSame-IsLinked l _ (update-IsSame n l) v
gap-IsLinked n (GapEvent.mtu value) l v = ground arith

set_version-IsLinked :
    (v : ℕ) (l : Link) → IsLinked l → IsLinked (set_audio_transport_version v l).0
unfolding set_audio_transport_version
set_version-IsLinked v l h = ground arith

link_move-IsLinked : (m : LinkMove) (l : Link) → IsLinked l → IsLinked (link_move m l)
unfolding link_move begin_audio_session
link_move-IsLinked (gap n e) l v = gap-IsLinked n e l v
link_move-IsLinked (control_write is_write is_copied raw) l v =
    IsSame-IsLinked l _ (control-IsSame is_write is_copied raw l) v
link_move-IsLinked (choose_version k) l v = set_version-IsLinked k l v
link_move-IsLinked (begin_session s) l v = ground arith
link_move-IsLinked (fast_interval n) l v = IsSame-IsLinked l _ (fast-IsSame n l) v
link_move-IsLinked (slow_interval n) l v = IsSame-IsLinked l _ (slow-IsSame n l) v

moves-IsLinked : (ms : List LinkMove) (l : Link) → IsLinked l → IsLinked (link_moves ms l)
unfolding link_moves
moves-IsLinked [] l v = v
moves-IsLinked (m ∷ ms) l v = moves-IsLinked ms (link_move m l) (link_move-IsLinked m l v)

-- After any events of the connection, control messages and calls of the audio, in any order and
-- whatever NimBLE answers: the stick has a connection exactly where it has the handle of one, is
-- subscribed to nothing without one, and its audio has version 1 or 2.
pub link_moves-IsLinked :
    (ms : List LinkMove) (audio_attr_handle state_attr_handle : ℕ)
    → IsLinked (link_moves ms (init audio_attr_handle state_attr_handle))
link_moves-IsLinked ms audio_attr_handle state_attr_handle = moves-IsLinked ms _ (ground arith)
