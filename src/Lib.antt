-- ===== src/Lib.antt =====
-- asx, a C library of services for AVR micro-controllers: the services as state and functions on it,
-- and theorems about what they promise.
--
-- The reactor (src/reactor.c) keeps up to 32 handlers and a notification bit for each; interrupts
-- and handlers set bits, and its loop serves the lowest one. The timer service (src/timer.c) keeps
-- the armed timers in a circular array that is sorted by the time at which they fire. Its interrupt
-- advances a 32-bit counter and wakes the reactor, which calls the dispatcher; the dispatcher
-- notifies the reactor of each timer that has expired. The queue (src/queue.c, include/queue.h) is a
-- double-ended queue of pointers in a ring buffer. The digital inputs (src/digital_input.c) are
-- sampled on a repeating timer and filtered by an integrator, or interrupt, and are acknowledged
-- by their handler or by the timer. The digital outputs
-- (src/digital_output.c) play sequences of levels, timed by the timer service. The heap (src/mem.c)
-- only grows. The piezzo (src/piezzo.c) plays tunes given as strings, note by note on the timer
-- service. The C++ layer has sets of bits (include/asx/bitstore.hpp), a debouncer of keys on them
-- (include/asx/debouncer.hpp), the Modbus RTU protocol (src/modbus_rtu.cpp,
-- include/asx/modbus_rtu*.hpp), and persistent counters in the EEPROM (src/eeprom.cpp,
-- include/asx/eeprom.hpp), whose operations wait in a queue of pointers (include/asx/utils.hpp) until
-- an interrupt says that the EEPROM is ready, and the reactor calls the next. The serial port
-- (include/asx/uart.hpp) sends a span of bytes, one at each interrupt of its empty data register.
--
-- Files:
--   Base      Boolean tests, lists over the native numbers, the C integers `int8_t`, `uint8_t`,
--             `int32_t` and `uint32_t`, and the results of calls that may stop the system.
--   Queue     `queue_t` is the record `Queue`; `queue_push` is `push`, and so on. Queue.Deque is what
--             a queue promises, Queue.Refine and Queue.Run that it keeps the promise, Queue.Single
--             the stores for interrupts, Queue.Overflow the limit of the indices.
--   Timer     the static variables of src/timer.c are the record `Timer`; `_timer_arm` is
--             `arm_reusing`, with its loops `find_point` and `shift_right`; `timer_dispatch` is
--             `dispatch`, with the parts `renew` and `retire` of its loop; `timer_cancel` is `cancel`,
--             with `find_instance` and `shift_left`. Timer.Schedule is the service as a list,
--             Timer.Pending, Timer.Cancel and Timer.Dispatch the refinement, Timer.Order the firing
--             order, Timer.Near the order inside the dispatcher, Timer.Service the reachable states, Timer.Expire and Timer.Timely the work of one
--             dispatch, Timer.Undo a timer that is armed and cancelled, Timer.Full and Timer.Rollover the edges, Timer.Clock the reading of the clock.
--   Reactor   the handlers, the four registers of notification bits and the running handle of
--             src/reactor.c; `reactor_register` is `register`, `reactor_notify` is `notify`, and so on;
--             `run_round` is a round of the loop of `reactor_run`. Reactor.Register is the choice of a
--             slot, Reactor.Notify what notifies and clears, Reactor.Mask the masks, Reactor.First and Reactor.Serve what a
--             round serves, Reactor.Drain the rounds until the loop sleeps.
--   DigitalInput  the sampled inputs of src/digital_input.c: `sample` is `_digital_input_sample`, with
--             the filter `integrate` of one input. DigitalInput.Filter is what the filter lets through,
--             DigitalInput.Sample the rounds over the chain of inputs. DigitalInput.Direct are the inputs that
--             interrupt: `handle_pin_change_isr`, `direct_handler` and `clear_interrupt` are the functions of
--             these names. DigitalInput.Direct.Scan is the loop over the flags of a port,
--             DigitalInput.Direct.Flags what becomes of the flag of one pin,
--             DigitalInput.Direct.Once a change and its acknowledgment,
--             DigitalInput.Direct.Held and DigitalInput.Direct.Lost a change that is written over.
--   DigitalOutput  the sequences of src/digital_output.c: `parse_next` is `_parse_next`, and
--             `handle_timer` is `_digital_output_reactor_handler`; DigitalOutput.Play is what a
--             sequence makes the pin do. DigitalOutput.Timed are the functions on an output and the
--             timer service together, DigitalOutput.Timed.Stop the end of a sequence that is cancelled.
--   BitStore  the class template `BitStore` of include/asx/bitstore.hpp, and its specialization for one
--             bit; BitStore.Get, BitStore.Operators and BitStore.Iterate are what it reads back,
--             BitStore.Single compares the two, BitStore.Wide is about stores of more than 16 bits.
--   Debouncer  the class template of include/asx/debouncer.hpp; Debouncer.Inputs is one sample.
--   Modbus    Modbus.Crc is the class `Crc` of src/modbus_rtu.cpp (`append` is its `operator()`),
--             Modbus.Crc.Stream the sum of a frame received byte by byte, Modbus.Crc.Detect what the
--             check finds. Modbus.Slave is the state machine of include/asx/modbus_rtu_slave.hpp, a table
--             of rows (Modbus.Machine) with the guards and actions of the source; `handle` are its
--             event handlers. Modbus.Slave.Answers is what it sends and when it listens,
--             Modbus.Slave.Exchange one frame and its reply.
--   Eeprom    Eeprom.Counter is the class `Counter` of src/eeprom.cpp, on a page of banks: `construct` is
--             its constructor, `increment` and `do_operation` its methods. Eeprom.Counter.Holds is
--             when a page and a counter agree, Eeprom.Counter.Marks, Eeprom.Counter.Increment and
--             Eeprom.Counter.Scan are the steps, Eeprom.Counter.Recover a power cycle,
--             Eeprom.Counter.Lifetime many of them. Eeprom.Requests is the class `Operation`, the operations
--             that wait for the EEPROM, with the interrupt; Eeprom.Requests.Queued is one step of
--             it, Eeprom.Requests.Served that all are done.
--             Eeprom.Storage is the class template `Storage`, with its checksum in Eeprom.Storage.Sums
--             and what the constructor finds in Eeprom.Storage.Recall.
--   FixedPtrQueue  the class template of include/asx/utils.hpp: `push_unique`, `pop` and so on;
--             FixedPtrQueue.Places is what it promises, FixedPtrQueue.Shift the loop of
--             `move_to_front`, FixedPtrQueue.Refine, FixedPtrQueue.Unique and FixedPtrQueue.Ends that it
--             keeps the promise.
--   Piezzo    src/piezzo.c: `parse_next_note` is `_parse_next_note`, `play_next_note` is
--             `_play_next_note`, `play`, `stop`, `start_tone` and `stop_tone` are `piezzo_play` and so
--             on. Piezzo.Print is the string of a note, Piezzo.Notes its reading, Piezzo.Tune a
--             tune from its string to its end.
--   Mem       the heap of src/mem.c: `calloc` is `mem_calloc`. Mem.Blocks is what an allocation gives.
--   I2c       I2c.Master is the class `Master` of src/i2c_master.cpp, with its interrupt handler;
--             I2c.Master.Send and I2c.Master.Receive are the steps of a transfer and
--             I2c.Master.Transfer the whole of it. I2c.Pca9555 is the port expander of src/pca9555.cpp
--             on it, I2c.Pca9555.Words its operations on both ports.
--   Uart      the class template of include/asx/uart.hpp: `get_ctrl_c` and the other registers of a
--             configuration, `send` and `on_dre`. Uart.Transmit is a transmission, Uart.Frame what the
--             processor reads in a register.
--
-- Conventions. `none` in the queue is an access outside the buffer, a division by zero or a failed
-- assertion. In the timer `alerted` is a stop by `alert_and_stop_if`, and `unfinished` is a loop
-- that needs more rounds than the fuel. In the reactor `none` is an access outside the array or
-- the registers, or a call of a null pointer; in a bit store a shift that C++ leaves undefined,
-- and in the i2c master an access outside the three bytes of an address or a transfer on a busy
-- bus; the handlers are a parameter, which says what the function behind a pointer does to the
-- state. The loops of `_timer_arm` and `timer_cancel` run on `loop_fuel` = 17 rounds, one more
-- than the array has slots, which the refinement theorems show to be enough; the dispatcher runs
-- on any fuel, and Timer.Timely says how much it needs; the loop of `reactor_register` runs 33
-- rounds for 32 slots, and so does the reactor for its 32 handles; `move_to_front` needs fewer
-- rounds than the queue has places, and gets one more; the loop of `mem_calloc` runs the rounds that
-- take the pointer to its end, modulo 2 ^ 16; the loop over the flags of a port runs 9
-- rounds for 8 flags. The library boost::sml, which runs the table of the Modbus slave, is a
-- parameter with its documented rule as a law (`Sml`), and so are the operations of the generated
-- datagram. What the EEPROM makes of a byte that is written without an erase is a parameter too.
-- The loop over the characters of a note runs on `parse_fuel`, five rounds more than the string
-- has characters, of which three may leave the position where it is. Interrupts that arrive while
-- the dispatcher runs are an argument: the number of ticks in each round.
--
-- Not modelled: the other hardware registers, the registration of the dispatcher, `queue_create`,
-- interrupts inside a round of the reactor, the logging, the debug pins, the watchdog, the other
-- drivers and the rest of the C++ layer.
pub mod Base
pub mod Queue
pub mod Timer
pub mod Reactor
pub mod DigitalInput
pub mod DigitalOutput
pub mod BitStore
pub mod Debouncer
pub mod Modbus
pub mod Eeprom
pub mod Piezzo
pub mod Mem
pub mod FixedPtrQueue
pub mod I2c
pub mod Uart
