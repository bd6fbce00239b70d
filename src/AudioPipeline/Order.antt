-- ===== src/AudioPipeline/Order.antt =====
-- The order of the stick's audio packets, in the queue and in bundles.
use voicestick.Prelude.{
  if◌then◌else◌, ℕ, suc, ◌+◌, ◌-◌, ◌≤◌, ◌≡◌, ◌≢◌, inl, inr, ltb, Bool, true, false, List, [], ◌∷◌,
  ◌++◌, Option, none, some, map, length, length-append, arith, refl, Bool-cases, ltb→lt, take, not,
  sym, ap, ◌∙◌, ◌<◌, subst, ◌⊎◌,
}
use mathlib.Core.Bool.{false≢true}
use voicestick.Prelude.Texts.{Bytes}
use voicestick.ByteUtils.{u32}
use voicestick.AudioTransport.{
  Packet, Result, ok, encode, encode_packets, check_packets, write_frame, att_payload_capacity,
}
use voicestick.VoiceBle.Link.{
  Link, Answers, notified, send_packets_to, send_audio_packets, is_ready, preferred_mtu,
}
use voicestick.AudioPipeline.{
  AudioPacket, Capture, capture_frame, take_packet, packet_of, without_oldest, transport_packet,
  tx_queue_depth, esp_ok, send_audio_bundle, Profile, end_capture, flag_end, sentinel_of,
}

-- What `audio_task` and `tx_task` do to the queue.
pub data QueueMove : Type 0 where
  captured : Bytes → QueueMove
  stopped taken : QueueMove

unfoldable pub queue_move : QueueMove → Capture → Capture
queue_move (captured encoded) c = capture_frame encoded c
queue_move stopped c = end_capture c
queue_move taken c = take_packet c

unfoldable pub queue_moves : List QueueMove → Capture → Capture
queue_moves [] c = c
queue_moves (m ∷ ms) c = queue_moves ms (queue_move m c)

-- The packets of one session, one after the other up to the next sequence number.
abbrev pub LeadsTo : (session_id next : ℕ) → List AudioPacket → Type 0
LeadsTo session_id next [] = Unit {0}
LeadsTo session_id next (p ∷ []) = (p.session_id ≡ session_id) × (u32 (p.seq + 1) ≡ next)
LeadsTo session_id next (p ∷ q ∷ ps) =
    (p.session_id ≡ session_id) × (u32 (p.seq + 1) ≡ q.seq) × LeadsTo session_id next (q ∷ ps)

LeadsTo-snoc :
    (session_id next : ℕ) (ps : List AudioPacket) (p : AudioPacket)
    → LeadsTo session_id next ps
    → p.session_id ≡ session_id
    → p.seq ≡ next
    → LeadsTo session_id (u32 (next + 1)) (ps ++ (p ∷ []))
LeadsTo-snoc session_id next [] p h s e = (s, ground arith)
LeadsTo-snoc session_id next (q ∷ []) p h s e = (h.0, ground arith, (s, ground arith))
LeadsTo-snoc session_id next (q ∷ r ∷ ps) p h s e =
    (h.0, h.1, LeadsTo-snoc session_id next (r ∷ ps) p h.2 s e)

LeadsTo-without :
    (session_id next : ℕ) (ps : List AudioPacket)
    → LeadsTo session_id next ps
    → LeadsTo session_id next (without_oldest ps)
LeadsTo-without session_id next [] h = tt
LeadsTo-without session_id next (p ∷ []) h = tt
LeadsTo-without session_id next (p ∷ q ∷ ps) h = h.2

length-without : (ps : List AudioPacket) → length (without_oldest ps) ≡ length ps - 1
length-without [] = refl
length-without (p ∷ ps) = omega arith

-- No packet but the last is the end of the session, and the last only once the session has ended.
unfoldable pub EndsLast : (ended : Bool) → List AudioPacket → Type 0
EndsLast ended [] = Unit {0}
EndsLast ended (p ∷ []) = p.flags ≡ flag_end → ended ≡ true
EndsLast ended (p ∷ q ∷ ps) = (p.flags ≢ flag_end) × EndsLast ended (q ∷ ps)

EndsLast-snoc :
    (ended : Bool) (ps : List AudioPacket) (p : AudioPacket)
    → EndsLast false ps
    → (p.flags ≡ flag_end → ended ≡ true)
    → EndsLast ended (ps ++ (p ∷ []))
unfolding EndsLast
EndsLast-snoc ended [] p h e = e
EndsLast-snoc ended (q ∷ []) p h e = ((λ f. false≢true (h f)), e)
EndsLast-snoc ended (q ∷ r ∷ ps) p h e = (h.0, EndsLast-snoc ended (r ∷ ps) p h.1 e)

EndsLast-without :
    (ended : Bool) (ps : List AudioPacket) → EndsLast ended ps → EndsLast ended (without_oldest ps)
unfolding EndsLast
EndsLast-without ended [] h = tt
EndsLast-without ended (p ∷ []) h = tt
EndsLast-without ended (p ∷ q ∷ ps) h = h.1

-- The number behind the last packet: the end of the session takes one as well.
abbrev pub next_seq : Capture → ℕ
next_seq c = if c.ended then u32 (c.seq + 1) else c.seq

-- The queue holds the last packets of the session without a gap, the end of the session at most as
-- the last of them, and no more than its depth.
pub record IsOrdered (c : Capture) : Type 0 where
  pub leads : LeadsTo c.session_id (next_seq c) c.queue
  pub ends : EndsLast c.ended c.queue
  pub bounded : length c.queue ≤ tx_queue_depth

-- A packet that takes the next number goes to the end of the queue.
queued-IsOrdered :
    (c : Capture) (seq dropped : ℕ) (ended : Bool) (ps : List AudioPacket) (p : AudioPacket)
    → LeadsTo c.session_id c.seq ps
    → EndsLast false ps
    → length ps < tx_queue_depth
    → p.session_id ≡ c.session_id
    → p.seq ≡ c.seq
    → (p.flags ≡ flag_end → ended ≡ true)
    → (if ended then u32 (seq + 1) else seq) ≡ u32 (c.seq + 1)
    → IsOrdered (record {
      session_id = c.session_id;
      seq = seq;
      ended = ended;
      queue = ps ++ (p ∷ []);
      dropped = dropped;
    })
queued-IsOrdered c seq dropped ended ps p leads ends room s e f n = record {
  leads =
      subst (λ (x : ℕ). LeadsTo c.session_id x (ps ++ (p ∷ []))) (sym n)
        (LeadsTo-snoc c.session_id c.seq ps p leads s e);
  ends = EndsLast-snoc ended ps p ends f;
  bounded = omega (arith, length-append ps (p ∷ []));
}

open_leads : (c : Capture) → IsOrdered c → c.ended ≡ false → LeadsTo c.session_id c.seq c.queue
open_leads c v e =
    subst (λ (b : Bool). LeadsTo c.session_id (if b then u32 (c.seq + 1) else c.seq) c.queue) e
      v.leads

open_ends : (c : Capture) → IsOrdered c → c.ended ≡ false → EndsLast false c.queue
open_ends c v e = subst (λ (b : Bool). EndsLast b c.queue) e v.ends

packet-flags : (c : Capture) (encoded : Bytes) → (packet_of c encoded).flags ≢ flag_end
packet-flags c encoded = ground arith

ended_captures_nothing :
    (encoded : Bytes) (c : Capture) → c.ended ≡ true → capture_frame encoded c ≡ c
unfolding capture_frame
ended_captures_nothing encoded c e = ground arith

capture-IsOrdered :
    (encoded : Bytes) (c : Capture) → IsOrdered c → IsOrdered (capture_frame encoded c)
unfolding capture_frame
capture-IsOrdered encoded c v = elim (Bool-cases c.ended) [
  | inl e ↦ subst IsOrdered (sym (ended_captures_nothing encoded c e)) v
  | inr e ↦
      let flags : (packet_of c encoded).flags ≡ flag_end → false ≡ true =
        λ f. absurd (packet-flags c encoded f) in
      elim (Bool-cases (ltb (length c.queue) tx_queue_depth)) [
        | inl room ↦
            rw (e, room)
              (queued-IsOrdered c (u32 (c.seq + 1)) c.dropped false c.queue (packet_of c encoded)
                (open_leads c v e) (open_ends c v e) (ltb→lt (length c.queue) tx_queue_depth room)
                refl refl flags refl)
        | inr full ↦
            rw (e, full)
              (queued-IsOrdered c (u32 (c.seq + 1)) (u32 (c.dropped + 1)) false
                (without_oldest c.queue) (packet_of c encoded)
                (LeadsTo-without c.session_id c.seq c.queue (open_leads c v e))
                (EndsLast-without false c.queue (open_ends c v e))
                (omega (arith, v.bounded, length-without c.queue)) refl refl flags refl)
      ]
]

take-IsOrdered : (c : Capture) → IsOrdered c → IsOrdered (take_packet c)
unfolding take_packet
take-IsOrdered c v = record {
  leads = LeadsTo-without c.session_id (next_seq c) c.queue v.leads;
  ends = EndsLast-without c.ended c.queue v.ends;
  bounded = omega (arith, length-without c.queue, v.bounded);
}

stays_stopped :
    (c : Capture)
    → (c.ended ≡ true) ⊎ (ltb (length c.queue) tx_queue_depth ≡ false)
    → end_capture c ≡ c
unfolding end_capture
stays_stopped c h = ground arith

stop-IsOrdered : (c : Capture) → IsOrdered c → IsOrdered (end_capture c)
unfolding end_capture
stop-IsOrdered c v = elim (Bool-cases c.ended) [
  | inl e ↦ subst IsOrdered (sym (stays_stopped c (inl e))) v
  | inr e ↦ elim (Bool-cases (ltb (length c.queue) tx_queue_depth)) [
    | inl room ↦
        rw (e, room)
          (queued-IsOrdered c c.seq c.dropped true c.queue (sentinel_of c) (open_leads c v e)
            (open_ends c v e) (ltb→lt (length c.queue) tx_queue_depth room) refl refl (λ f. refl)
            refl)
    | inr full ↦ subst IsOrdered (sym (stays_stopped c (inr full))) v
  ]
]

moves-IsOrdered : (ms : List QueueMove) (c : Capture) → IsOrdered c → IsOrdered (queue_moves ms c)
unfolding queue_moves queue_move
moves-IsOrdered [] c v = v
moves-IsOrdered (captured encoded ∷ ms) c v =
    moves-IsOrdered ms (capture_frame encoded c) (capture-IsOrdered encoded c v)
moves-IsOrdered (stopped ∷ ms) c v = moves-IsOrdered ms (end_capture c) (stop-IsOrdered c v)
moves-IsOrdered (taken ∷ ms) c v = moves-IsOrdered ms (take_packet c) (take-IsOrdered c v)

-- `audio_pipeline_start` resets the queue and the numbers.
abbrev pub new_session : ℕ → Capture
new_session session_id = record {
  session_id = session_id;
  seq = 0;
  ended = false;
  queue = [];
  dropped = 0;
}

-- However the two tasks interleave from the start of a session, the end of the capture included: the
-- queue holds packets of that session with consecutive numbers up to the next one, at most 24 of
-- them; an overflow drops the oldest and leaves no gap in the queue; and the end of the session is
-- queued only once the capture has ended, as the last packet.
pub queue_moves-IsOrdered :
    (ms : List QueueMove) (session_id : ℕ) → IsOrdered (queue_moves ms (new_session session_id))
unfolding EndsLast
queue_moves-IsOrdered ms session_id =
    moves-IsOrdered ms (new_session session_id)
      (record { leads = tt; ends = tt; bounded = omega arith })

-- The encoder's first loop stops at a gap behind the first packet.
check-gap :
    (first_seq len flags : ℕ) (p q : Packet) (ps : List Packet) (total : ℕ × ℕ)
    → q.seq ≢ u32 (first_seq + 1)
    → check_packets 2 first_seq 0 len flags (p ∷ q ∷ ps) ≢ ok total
unfolding check_packets
check-gap first_seq len flags p q ps total h e = ground arith

write-not_ok :
    (session_id first_seq count capacity : ℕ) (ps : List Packet) (r : Result (ℕ × ℕ))
    (frame : Bytes)
    → ((total : ℕ × ℕ) → r ≢ ok total)
    → write_frame 2 session_id first_seq count capacity ps r ≢ ok frame
unfolding write_frame
write-not_ok session_id first_seq count capacity ps (ok total) frame h e = h total refl
write-not_ok session_id first_seq count capacity ps r frame h e = ground arith

encode-gap :
    (session_id first_seq flags capacity k : ℕ) (p q : Packet) (ps : List Packet) (frame : Bytes)
    → q.seq ≢ u32 (first_seq + 1)
    → encode 2 session_id first_seq flags (some (p ∷ q ∷ ps)) (suc (suc k)) true capacity true
      ≢ ok frame
unfolding encode encode_packets
encode-gap session_id first_seq flags capacity k p q ps frame h e = ground (
  arith,
  write-not_ok session_id first_seq (suc (suc k)) capacity (p ∷ q ∷ take k ps)
      (check_packets 2 first_seq 0 (suc (suc k)) flags (p ∷ q ∷ take k ps)) frame
      (λ total. check-gap first_seq (suc (suc k)) flags p q (take k ps) total h),
)

notified-not_ok :
    (n : Answers) (handle : ℕ) (r : Result Bytes) (l : Link)
    → ((frame : Bytes) → r ≢ ok frame)
    → ((notified n handle r l).0 ≡ l) × ((notified n handle r l).1 ≢ esp_ok)
unfolding notified
notified-not_ok n handle (ok frame) l h = absurd (h frame refl)
notified-not_ok n handle r l h = (refl, ground arith)

-- The connection is as it was, and the call has failed.
abbrev pub IsUnsent : Link → Link × ℕ → Type 0
IsUnsent l r = (r.0 ≡ l) × (r.1 ≢ esp_ok)

if-IsUnsent :
    (b : Bool) (l : Link) (r s : Link × ℕ)
    → IsUnsent l r
    → IsUnsent l s
    → IsUnsent l (if b then r else s)
if-IsUnsent true l r s p q = p
if-IsUnsent false l r s p q = q

packets_to-gap :
    (n : Answers) (handle : Option ℕ) (session_id first_seq flags k : ℕ) (p q : Packet)
    (ps : List Packet) (l : Link)
    → l.audio_transport_version ≡ 2
    → q.seq ≢ u32 (first_seq + 1)
    → IsUnsent l
        (send_packets_to n handle session_id first_seq flags (some (p ∷ q ∷ ps)) (suc (suc k)) l)
unfolding send_packets_to
packets_to-gap n none session_id first_seq flags k p q ps l v h = (refl, λ e. omega arith)
packets_to-gap n (some handle) session_id first_seq flags k p q ps l v h =
    if-IsUnsent (not (is_ready l)) l _ _ (refl, λ e. omega arith)
      (if-IsUnsent (ltb preferred_mtu (att_payload_capacity l.att_mtu)) l _ _
        (refl, λ e. omega arith)
        (notified-not_ok n handle _ l (λ frame e.
          encode-gap session_id first_seq flags (att_payload_capacity l.att_mtu) k p q ps frame h (
            sym (
              ap
                (λ (version : ℕ).
                  encode version session_id first_seq flags (some (p ∷ q ∷ ps)) (suc (suc k)) true
                    (att_payload_capacity l.att_mtu) true)
                v)
            ∙ e))))

-- A bundle whose second packet does not follow its first, which an overflow of the queue between
-- the two leaves, is never sent where the profile and the connection have version 2: each attempt
-- that comes to an end fails and leaves the connection as it was.
pub send_audio_bundle-gap :
    (profile : Profile) (n : Answers) (rounds : List (Link × ℕ)) (l : Link) (p q : AudioPacket)
    (ps : List AudioPacket) (r : Link × ℕ)
    → profile.version ≡ 2
    → l.audio_transport_version ≡ 2
    → q.seq ≢ u32 (p.seq + 1)
    → send_audio_bundle profile n rounds l (p ∷ q ∷ ps) ≡ some r
    → IsUnsent l r
unfolding send_audio_bundle send_audio_packets
send_audio_bundle-gap profile n rounds l p q ps r v w h e = ground (
  arith,
  e,
  packets_to-gap n l.conn_handle p.session_id p.seq 0 (length ps) (transport_packet p)
      (transport_packet q) (map transport_packet ps) l w h,
)
