-- ===== src/Modbus/Tests.antt =====
-- The theorems on the checksum and on the slave at concrete frames.
use asx.Base.{◌+◌, ◌*◌, ◌≡◌, arith, refl, true, false, [], ◌∷◌, ◌++◌}
use asx.Base.{ℕ, List, not}
use mathlib.Core.Logic.{◌↔◌}
use asx.Modbus.Crc.{Crc, reset, update, shift_round, shift_rounds, append, check, update_view}
use asx.Modbus.Machine.{Sml, transition, first_row}
use asx.Modbus.Slave.{
  State, initial, idle, emission, Event, t35_timeout, Status, bad_crc, good_frame,
}
use asx.Modbus.Slave.{
  start, enable_rx, disable_rx, send, Datagram, World, handle, handle_all, init, is,
}
use asx.Modbus.Slave.{must_reply, broadcast}
use asx.Modbus.Slave.Answers.{AllAnswers, listens, answers_lem}
use asx.Modbus.Slave.Exchange.{frame, heard, served, exchange_lem}
use asx.Modbus.Crc.Stream.{append_all, append_all-update_view}
use asx.Modbus.Crc.Detect.{check_iff, check_detects}

abbrev used : Crc
used = record { count = 1; crc = 77; n_minus_1 = 3; n_minus_2 = 0 }

append_all-update_view_example :
    append_all (reset used) ((17 ∷ 3 ∷ []) ++ (5 ∷ 6 ∷ []))
    ≡ record { count = 2; crc = update_view used (17 ∷ 3 ∷ []); n_minus_1 = 6; n_minus_2 = 5 }
append_all-update_view_example = append_all-update_view used (17 ∷ 3 ∷ []) 5 6

check_iff_example :
    (check (append_all (reset used) ((17 ∷ 3 ∷ []) ++ (5 ∷ 6 ∷ []))) ≡ true)
    ↔ (5 + 256 * 6 ≡ update_view used (17 ∷ 3 ∷ []))
check_iff_example =
    check_iff used (17 ∷ 3 ∷ []) 5 6 (omega arith, (omega arith, tt)) (omega arith) (omega arith)

passes : check (append_all (reset used) (((17 ∷ []) ++ (3 ∷ [])) ++ (0x4d ∷ 0xe1 ∷ []))) ≡ true
unfolding check append_all append reset update shift_rounds shift_round
passes = refl

check_detects_example :
    check (append_all (reset used) (((17 ∷ []) ++ (2 ∷ [])) ++ (0x4d ∷ 0xe1 ∷ []))) ≡ false
check_detects_example =
    check_detects used (17 ∷ []) [] 3 2 0x4d 0xe1 (omega arith, tt) tt (omega arith) (omega arith)
      (λ e. omega (arith, e)) (omega arith) (omega arith) passes

-- A datagram that is just its bytes: good from two bytes on, for the address in front, and answered by
-- the bytes and one more.
abbrev echo : Datagram (List ℕ)
echo = record {
  reset = λ bytes. [];
  process_char = λ c bytes. bytes ++ (c ∷ []);
  ready_reply = λ bytes. bytes ++ (99 ∷ []);
  get_status = status;
  get_buffer = λ bytes. bytes;
  first_byte = address;
}
  where
    status : List ℕ → Status
    status [] = bad_crc
    status (b ∷ []) = bad_crc
    status (b ∷ c ∷ bytes) = good_frame

    address : List ℕ → ℕ
    address [] = 0
    address (b ∷ bytes) = b

-- The state machine library at its word.
abbrev in_order : Sml State Event (World (List ℕ))
in_order = record {
  process_event = λ rows e m. transition rows e m.1 (first_row rows e m.0 m.1) m.0;
  processes = λ rows e s w. refl;
}

abbrev quiet : World (List ℕ)
quiet = record { datagram = []; calls = [] }

answers_lem_example :
    AllAnswers echo
      (handle_all echo in_order (t35_timeout ∷ frame (5 ∷ 6 ∷ [])) (init echo in_order [])).1.calls
    × (listens
          (handle_all echo in_order
            (t35_timeout ∷ frame (5 ∷ 6 ∷ []))
            (init echo in_order [])).1.calls
        ≡ not (
            is emission
              (handle_all echo in_order
                (t35_timeout ∷ frame (5 ∷ 6 ∷ []))
                (init echo in_order [])).0))
answers_lem_example = answers_lem echo in_order (t35_timeout ∷ frame (5 ∷ 6 ∷ [])) []

exchange_lem_example :
    handle_all echo in_order (frame (5 ∷ 6 ∷ [])) (idle, quiet)
    ≡ served echo (heard echo (5 ∷ 6 ∷ []) quiet)
exchange_lem_example = exchange_lem echo in_order 5 (6 ∷ []) quiet

frame-quiet : handle_all echo in_order (frame (5 ∷ 6 ∷ [])) (idle, quiet) ≡ (
  initial,
  record {
    datagram = 5 ∷ 6 ∷ 99 ∷ [];
    calls = start ∷ enable_rx ∷ send (5 ∷ 6 ∷ 99 ∷ []) ∷ disable_rx ∷ start ∷ start ∷ [];
  },
)
unfolding handle_all handle frame must_reply broadcast
frame-quiet = refl
