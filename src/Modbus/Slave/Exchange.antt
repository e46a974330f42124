-- ===== src/Modbus/Slave/Exchange.antt =====
-- include/asx/modbus_rtu_slave.hpp: a frame from the first byte to the silence behind it.
use asx.Base.{
  ℕ, ◌≡◌, refl, ap, ◌∙◌, List, [], ◌∷◌, if◌then◌else◌, ◌==◌, sym, Bool, true, false, Bool-cases,
  inl, inr,
}
use asx.Modbus.Machine.{Sml, transition, first_row}
use asx.Modbus.Slave.{
  State, initial, idle, reception, skip_frame, control_and_waiting, reply, emission,
}
use asx.Modbus.Slave.{Event, t15_timeout, t35_timeout, t40_timeout, char_received, frame_sent}
use asx.Modbus.Slave.{
  Status, good_frame, not_for_me, bad_crc, other_status, start, enable_rx, disable_rx, send,
}
use asx.Modbus.Slave.{Datagram, World, must_reply, broadcast, transition_table, handle, handle_all}

-- The events of a frame of bytes, and of the silence that ends it and the end of a transmission.
unfoldable pub frame : List ℕ → List Event
frame [] = t15_timeout ∷ t35_timeout ∷ t40_timeout ∷ frame_sent ∷ []
frame (c ∷ cs) = char_received c ∷ frame cs

-- A good frame for this device asks for a reply, no other does.
abbrev pub asks_for_reply : Status → Bool
asks_for_reply good_frame = true
asks_for_reply not_for_me = false
asks_for_reply bad_crc = false
asks_for_reply other_status = false

module _ {ℓ} {D : Type ℓ} (d : Datagram D) where
  -- What the bytes do to the datagram and to the timer.
  unfoldable pub heard : List ℕ → World D → World D
  heard [] w = w
  heard (c ∷ cs) w =
      heard cs (record { datagram = d.process_char c w.datagram; calls = start ∷ w.calls })

  -- The machine behind a frame that has left the world `w`, by the status and the first byte.
  unfoldable pub served : World D → State × World D
  served w =
      let answer = d.ready_reply w.datagram in
      if asks_for_reply (d.get_status w.datagram)
      then (if d.first_byte answer == 0 then (idle, record w { datagram = d.reset answer }) else (
        initial,
        record w {
          datagram = answer;
          calls = start ∷ enable_rx ∷ send (d.get_buffer answer) ∷ disable_rx ∷ w.calls;
        },
      ))
      else (idle, record w { datagram = d.reset w.datagram })

  -- The guards of the code are these tests.
  must_reply_lem : (w : World D) → must_reply d w ≡ asks_for_reply (d.get_status w.datagram)
  unfolding must_reply
  must_reply_lem w = elim (d.get_status w.datagram) [
    | good_frame ↦ refl
    | not_for_me ↦ refl
    | bad_crc ↦ refl
    | other_status ↦ refl
  ]

  broadcast_lem : (w : World D) → broadcast d w ≡ (d.first_byte w.datagram == 0)
  unfolding broadcast
  broadcast_lem w = refl

  module _ (sml : Sml State Event (World D)) where
    handle_lem :
        (e : Event) (s : State) (w : World D)
        → handle d sml e (s, w)
          ≡ transition (transition_table d) e w (first_row (transition_table d) e s w) s
    unfolding handle
    handle_lem e s w = sml.processes (transition_table d) e s w

    -- The silence behind a frame that is not answered, and behind one that is.
    skipped :
        (w : World D)
        → must_reply d w ≡ false
        → handle_all d sml (frame []) (reception, w)
          ≡ (idle, record w { datagram = d.reset w.datagram })
    unfolding handle_all frame
    skipped w no_reply =
        rw
          (
            handle_lem t15_timeout reception w,
            no_reply,
            handle_lem t35_timeout skip_frame w,
            handle_lem t40_timeout idle _,
            handle_lem frame_sent idle _,
          )
          refl

    replied :
        (w : World D)
        → must_reply d w ≡ true
        → handle_all d sml (frame []) (reception, w) ≡ served w
    unfolding handle_all frame served
    replied w good =
        let w' = record w { datagram = d.ready_reply w.datagram } in
        let asked = sym (must_reply_lem w) ∙ good in
        elim (Bool-cases (broadcast d w')) [
          | inl to_all ↦
              rw
                (
                  handle_lem t15_timeout reception w,
                  good,
                  handle_lem t35_timeout control_and_waiting w',
                  handle_lem t40_timeout reply w',
                  to_all,
                  handle_lem frame_sent idle _,
                  asked,
                  sym (broadcast_lem w') ∙ to_all,
                )
                refl
          | inr to_us ↦
              rw
                (
                  handle_lem t15_timeout reception w,
                  good,
                  handle_lem t35_timeout control_and_waiting w',
                  handle_lem t40_timeout reply w',
                  to_us,
                  handle_lem frame_sent emission _,
                  asked,
                  sym (broadcast_lem w') ∙ to_us,
                )
                refl
        ]

    ended : (w : World D) → handle_all d sml (frame []) (reception, w) ≡ served w
    unfolding served
    ended w = elim (Bool-cases (must_reply d w)) [
      | inl good ↦ replied w good
      | inr no_reply ↦ skipped w no_reply ∙ rw (sym (must_reply_lem w) ∙ no_reply) refl
    ]

    received :
        (cs : List ℕ) (w : World D)
        → handle_all d sml (frame cs) (reception, w) ≡ served (heard cs w)
    unfolding handle_all frame heard
    received [] w = ended w
    received (c ∷ cs) w =
        ap (handle_all d sml (frame cs)) (handle_lem (char_received c) reception w) ∙ received cs _

    -- A frame of at least one byte that arrives in the state `idle`, the silence behind it and the end
    -- of the transmission: with a good status that asks for a reply, the reply is made, sent with the
    -- receiver turned off, and then the receiver is turned on again and the timer started; the reply to
    -- a broadcast is dropped, and with every other status the datagram is just reset.
    pub exchange_lem :
        (c : ℕ) (cs : List ℕ) (w : World D)
        → handle_all d sml (frame (c ∷ cs)) (idle, w) ≡ served (heard (c ∷ cs) w)
    unfolding handle_all frame heard
    exchange_lem c cs w =
        ap (handle_all d sml (frame cs)) (handle_lem (char_received c) idle w) ∙ received cs _
