-- ===== src/Eeprom/Tests.antt =====
-- The theorems on the persistent counter at concrete pages.
use asx.Base.{
  false, ◌+◌, ◌-◌, ◌^◌, ◌<◌, ◌≤◌, ◌≡◌, refl, arith, bit_and, ℕ, List, [], ◌∷◌, ◌==◌, length,
  if◌then◌else◌,
}
use asx.Base.Outcome.{returned}
use asx.Eeprom.Requests
use asx.Eeprom.Requests.{Requests, Event, start, steps, request_operation}
use asx.FixedPtrQueue.Places.{occurrences}
use asx.Eeprom.Requests.Queued.{waiting}
use asx.Eeprom.Requests.Served.{rounds, done, served_lem}
use asx.Eeprom.Storage
use asx.Eeprom.Storage.{Storage, copied}
use asx.Eeprom.Storage.Recall.{recalled, defaults, put, recall_lem}
use asx.Eeprom.Counter.{
  Counter, Page, construct, increment, do_operation, get_count, find_bank, find_bits, count_byte,
  count_bytes, leave_full,
}
use asx.Eeprom.Counter.Holds.{Holds}
use asx.Eeprom.Counter.Recover.{construct_lem}
use asx.Eeprom.Counter.Lifetime.{
  count_times, lifetime, formatted-Holds, count_times-Holds, lifetime_lem,
}

-- Two objects ask, the second twice: it is done first.
abbrev asked : List Event
asked = Event.request 3 ∷ Event.request 1 ∷ Event.interrupt ∷ Event.request 1 ∷ []

-- Each operation writes its object in front of the list.
served_lem_example :
    (before asked' after quiet : Requests) × (t u : List ℕ) × (did : List ℕ) × (steps ◌∷◌ asked
        start []
      ≡ returned (before, t))
    × Requests.Queued.Holds before
    × (request_operation 2 before ≡ returned asked')
    × (steps ◌∷◌ (Event.react ∷ Event.interrupt ∷ []) asked' t ≡ returned (after, u))
    × Requests.Queued.Holds after
    × (u ≡ done ◌∷◌ did t)
    × (0 < occurrences did 2 + occurrences (waiting after) 2)
    × (steps ◌∷◌ (rounds (length (waiting after))) after u
        ≡ returned (quiet, done ◌∷◌ (waiting after) u))
    × (waiting quiet ≡ [])
served_lem_example =
    served_lem ◌∷◌ asked (Event.react ∷ Event.interrupt ∷ []) 2 []
      (omega arith, (omega arith, (tt, (omega arith, tt)))) (omega arith) (tt, (tt, tt))

-- An erased page, whose constructor formats it.
abbrev erased : Page
erased i = record { counter = 2 ^ 32 - 1; bit_bank = λ j. 0xff; not_counter = 2 ^ 32 - 1 }

abbrev formatted : Counter × Page
formatted = construct bit_and erased

-- Seven increments: the constructor finds eight.
abbrev seven : Counter × Page
seven = count_times bit_and 7 formatted

seven-Holds : Holds seven.1 seven.0 × (seven.0.counter ≡ formatted.0.counter + 7)
seven-Holds =
    let (h, zero_yet) = formatted-Holds bit_and (λ held value. refl) erased (λ i lt. refl) in
    count_times-Holds bit_and (λ held value. refl) 7 formatted.0 formatted.1 h
      (omega (arith, zero_yet))

construct_lem_example :
    Holds (construct bit_and seven.1).1 (construct bit_and seven.1).0
    × ((construct bit_and seven.1).0.counter
        ≡ (if seven.0.bitpos == 7 then seven.0.counter + 1 else seven.0.counter))
construct_lem_example = construct_lem bit_and seven.1 seven.0 seven-Holds.0 (
    omega (
      arith,
      seven-Holds.1,
      (formatted-Holds bit_and (λ held value. refl) erased (λ i lt. refl)).1,
    ))

lifetime_lem_example :
    (12 ≤ get_count (lifetime bit_and (7 ∷ 5 ∷ []) (construct bit_and erased)).0)
    × (get_count (lifetime bit_and (7 ∷ 5 ∷ []) (construct bit_and erased)).0 ≤ 14)
lifetime_lem_example =
    lifetime_lem bit_and (λ held value. refl) erased (7 ∷ 5 ∷ []) (λ i lt. refl) (omega arith)

seven_found_as_eight : get_count (construct bit_and seven.1).0 ≡ 8
unfolding construct count_times increment do_operation get_count find_bank find_bits count_byte
    count_bytes leave_full
seven_found_as_eight = refl

-- Two increments that cross the end of a byte before the page is written once: both are lost.
abbrev six : Counter × Page
six = count_times bit_and 6 formatted

abbrev eight : Counter
eight = increment (increment six.0)

two_lost :
    (get_count eight ≡ 8) × (get_count (construct bit_and (do_operation bit_and eight six.1)).0 ≡ 6)
unfolding construct count_times increment do_operation get_count find_bank find_bits count_byte
    count_bytes leave_full
two_lost = (refl, refl)

-- Four bytes, as `do_operation` leaves them in the row; then the first is another, or the version.
abbrev settings : Storage
settings = record { value = λ i. if i == 0 then 44 else 3; row = λ i. 0xff; formatted = false }

recall_lem_example :
    (Storage.construct 1 4 (λ i. 0) (Storage.do_operation 1 4 settings).row false
      ≡ recalled 4 (λ i. 0) (Storage.do_operation 1 4 settings).row false)
    × (copied 4 (λ i. 0) (Storage.do_operation 1 4 settings).row 0 ≡ 44)
    × (Storage.construct 1 4 (λ i. 0) (put 0 45 (Storage.do_operation 1 4 settings).row) false
        ≡ defaults 1 4 (λ i. 0) (put 0 45 (Storage.do_operation 1 4 settings).row) false)
    × (Storage.construct 2 4 (λ i. 0) (Storage.do_operation 1 4 settings).row false
        ≡ defaults 2 4 (λ i. 0) (Storage.do_operation 1 4 settings).row false)
    × (Storage.construct 1 4 (λ i. 0) (λ i. 0xff) false ≡ defaults 1 4 (λ i. 0) (λ i. 0xff) false)
recall_lem_example =
    recall_lem 1 4 settings (λ i. 0) false 0 45 2 (omega arith) (omega arith)
      (λ i below. ground arith) (omega arith) (omega arith) (omega arith) (omega arith)
      (omega arith)
