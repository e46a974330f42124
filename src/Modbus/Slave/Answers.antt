-- ===== src/Modbus/Slave/Answers.antt =====
-- include/asx/modbus_rtu_slave.hpp: when the slave sends, what it sends, and when it listens.
use asx.Base.{ℕ, ◌≡◌, refl, sym, subst, arith, List, [], ◌∷◌}
use asx.Base.{Bool, true, false, not, ◌==◌}
use asx.Modbus.Machine.{Sml, transition, first_row}
use asx.Modbus.Slave.{
  State, cold, initial, idle, reception, skip_frame, control_and_waiting, reply, emission,
}
use asx.Modbus.Slave.{Event, can_start}
use asx.Modbus.Slave.{good_frame, Call, start, enable_rx, disable_rx, send}
use asx.Modbus.Slave.{
  Datagram, World, must_reply, broadcast, transition_table, handle, handle_all, init, is,
}

-- Whether the receiver is on behind the calls; `init` turns it on.
unfoldable pub listens : List Call → Bool
listens [] = true
listens (start ∷ calls) = listens calls
listens (enable_rx ∷ calls) = true
listens (disable_rx ∷ calls) = false
listens (send buffer ∷ calls) = listens calls

module _ {ℓ} {D : Type ℓ} (d : Datagram D) where
  -- A buffer that answers a good frame which is no broadcast.
  abbrev pub IsAnswer : List ℕ → Type ℓ
  IsAnswer buffer =
      (x : D) × (d.get_status x ≡ good_frame)
      × ((d.first_byte (d.ready_reply x) == 0) ≡ false)
      × (buffer ≡ d.get_buffer (d.ready_reply x))

  abbrev pub AllAnswers : List Call → Type ℓ
  AllAnswers [] = Unit {ℓ}
  AllAnswers (start ∷ calls) = AllAnswers calls
  AllAnswers (enable_rx ∷ calls) = AllAnswers calls
  AllAnswers (disable_rx ∷ calls) = AllAnswers calls
  AllAnswers (send buffer ∷ calls) = IsAnswer buffer × AllAnswers calls

  -- In the two states behind a good frame the datagram holds its reply.
  abbrev IsReady : State → D → Type ℓ
  IsReady control_and_waiting y = (x : D) × (d.get_status x ≡ good_frame) × (y ≡ d.ready_reply x)
  IsReady reply y = (x : D) × (d.get_status x ≡ good_frame) × (y ≡ d.ready_reply x)
  IsReady _ y = Unit {ℓ}

  abbrev IsSound : State × World D → Type ℓ
  IsSound m =
      AllAnswers m.1.calls × (listens m.1.calls ≡ not (is emission m.0)) × IsReady m.0 m.1.datagram

  cold-IsSound :
      (e : Event) (w : World D)
      → IsSound (cold, w)
      → IsSound (transition (transition_table d) e w (first_row (transition_table d) e cold w) cold)
  unfolding listens must_reply broadcast
  cold-IsSound e w sound = ground arith

  initial-IsSound :
      (e : Event) (w : World D)
      → IsSound (initial, w)
      → IsSound
          (transition (transition_table d) e w (first_row (transition_table d) e initial w) initial)
  unfolding listens must_reply broadcast
  initial-IsSound e w sound = ground arith

  idle-IsSound :
      (e : Event) (w : World D)
      → IsSound (idle, w)
      → IsSound (transition (transition_table d) e w (first_row (transition_table d) e idle w) idle)
  unfolding listens must_reply broadcast
  idle-IsSound e w sound = ground arith

  good :
      (w : World D)
      → d.get_status w.datagram ≡ good_frame
      → IsReady control_and_waiting (d.ready_reply w.datagram)
  good w e = (w.datagram, e, refl)

  reception-IsSound :
      (e : Event) (w : World D)
      → IsSound (reception, w)
      → IsSound (
          transition
            (transition_table d)
            e
            w
            (first_row (transition_table d) e reception w)
            reception)
  unfolding listens must_reply broadcast
  reception-IsSound e w sound = ground (arith, good w)

  skip_frame-IsSound :
      (e : Event) (w : World D)
      → IsSound (skip_frame, w)
      → IsSound (
          transition
            (transition_table d)
            e
            w
            (first_row (transition_table d) e skip_frame w)
            skip_frame)
  unfolding listens must_reply broadcast
  skip_frame-IsSound e w sound = ground arith

  control_and_waiting-IsSound :
      (e : Event) (w : World D)
      → IsSound (control_and_waiting, w)
      → IsSound (
          transition
            (transition_table d)
            e
            w
            (first_row (transition_table d) e control_and_waiting w)
            control_and_waiting)
  unfolding listens must_reply broadcast
  control_and_waiting-IsSound e w sound = ground arith

  reply-IsSound :
      (e : Event) (w : World D)
      → IsSound (reply, w)
      → IsSound
          (transition (transition_table d) e w (first_row (transition_table d) e reply w) reply)
  unfolding listens must_reply broadcast
  reply-IsSound e w sound = ground arith

  emission-IsSound :
      (e : Event) (w : World D)
      → IsSound (emission, w)
      → IsSound (
          transition
            (transition_table d)
            e
            w
            (first_row (transition_table d) e emission w)
            emission)
  unfolding listens must_reply broadcast
  emission-IsSound e w sound = ground arith

  module _ (sml : Sml State Event (World D)) where
    handle-IsSound : (e : Event) (m : State × World D) → IsSound m → IsSound (handle d sml e m)
    unfolding handle
    handle-IsSound e (s, w) sound =
        subst IsSound (sym (sml.processes (transition_table d) e s w)) (by_state s sound)
      where
        by_state :
            (s : State)
            → IsSound (s, w)
            → IsSound (transition (transition_table d) e w (first_row (transition_table d) e s w) s)
        by_state cold = cold-IsSound e w
        by_state initial = initial-IsSound e w
        by_state idle = idle-IsSound e w
        by_state reception = reception-IsSound e w
        by_state skip_frame = skip_frame-IsSound e w
        by_state control_and_waiting = control_and_waiting-IsSound e w
        by_state reply = reply-IsSound e w
        by_state emission = emission-IsSound e w

    handle_all-IsSound :
        (es : List Event) (m : State × World D) → IsSound m → IsSound (handle_all d sml es m)
    unfolding handle_all
    handle_all-IsSound [] m sound = sound
    handle_all-IsSound (e ∷ es) m sound =
        handle_all-IsSound es (handle d sml e m) (handle-IsSound e m sound)

    -- Whatever events arrive, everything that the slave has sent is the reply to a frame whose status
    -- was good and whose reply does not start with the broadcast address, and the receiver is off in
    -- the state `emission` and on in every other.
    pub answers_lem :
        (es : List Event) (x : D)
        → AllAnswers (handle_all d sml es (init d sml x)).1.calls
          × (listens (handle_all d sml es (init d sml x)).1.calls
              ≡ not (is emission (handle_all d sml es (init d sml x)).0))
    unfolding init
    answers_lem es x =
        let (all, receiver, _) = handle_all-IsSound es (init d sml x) (
          handle-IsSound can_start (cold, record { datagram = x; calls = [] })
            (unfold listens in (tt, refl, tt))) in
        (all, receiver)
