-- ===== src/DigitalInput/Direct/Once.antt =====
-- src/digital_input.c: a change of a direct input, from its interrupt to its acknowledgment.
use asx.Base.{
  ℕ, ◌%◌, ◌<◌, ◌≡◌, ◌≢◌, subst, inl, inr, refl, ◌∙◌, arith, Bool, true, false, not, none, some, ap,
  ◌&&◌, ◌||◌, List, [], ◌∷◌, ◌++◌,
}
use asx.Base.{◌==◌, if◌then◌else◌, ==_true, ==_false, Bool-cases, ◌>>=◌}
use asx.Base.Digits.{test_bit}
use asx.Base.Outcome.{returned}
use asx.DigitalInput.{null_handle}
use asx.DigitalInput.Direct.{
  DirectInput, Direct, Effect, notified, armed, port_of, pin_of, clear_interrupt, direct_handler,
  react_pending, react_direct, handle_pin_change_isr,
}
use asx.DigitalInput.Direct.Flags.{is_new, isr_lem, clear_lem}

-- What the handler of the reactor does with an input.
abbrev pub user_told : DirectInput → Bool → List Effect
user_told di value =
    if not (di.handler == null_handle)
    then notified (record { handle = di.handler; pin = di.pin; value = value }) ∷ []
    else []

-- No input of the list has the pin.
abbrev pub Lacks : ℕ → List DirectInput → Type 0
Lacks pin [] = Unit {0}
Lacks pin (di ∷ rest) = (di.pin ≢ pin) × Lacks pin rest

handler_lem :
    (before rest : List DirectInput) (di : DirectInput) (value : Bool) (d : Direct)
    → Lacks di.pin before
    → direct_handler (before ++ (di ∷ rest)) di.pin value d ≡ (
        if di.filter == 0
        then (clear_interrupt di d >>= λ after. some (user_told di value, after))
        else some (user_told di value ++ (armed di ∷ []), d))
unfolding direct_handler
handler_lem [] rest di value d lacks = elim (Bool-cases (di.filter == 0)) [
  | inl unfiltered ↦ rw (==_true di.pin di.pin refl, unfiltered) refl
  | inr filtered ↦ rw (==_true di.pin di.pin refl, filtered) refl
]
handler_lem (other ∷ before) rest di value d (differs, lacks) =
    rw (==_false other.pin di.pin differs) (handler_lem before rest di value d lacks)

react_lem :
    (before rest : List DirectInput) (di : DirectInput) (value : Bool) (d : Direct)
    → d.pending ≡ some (record { pin = di.pin; value = value })
    → d.first_direct ≡ before ++ (di ∷ rest)
    → Lacks di.pin before
    → react_direct d ≡ (
        if di.filter == 0
        then (clear_interrupt di (record d { pending = none }) >>= λ after.
            some (user_told di value, after))
        else some (user_told di value ++ (armed di ∷ []), record d { pending = none }))
unfolding react_pending
react_lem before rest di value d told listed lacks =
    ap (λ p. react_pending p d) told
    ∙ ap (λ ds. direct_handler ds di.pin value (record d { pending = none })) listed
    ∙ handler_lem before rest di value (record d { pending = none }) lacks

-- The flag of the pin `i` is the highest of the port's.
abbrev pub IsHighest : ℕ → ℕ → Type 0
IsHighest i flags = (test_bit flags i ≡ true) × ((j : ℕ) → i < j → j < 8 → test_bit flags j ≡ false)

-- Each flag of `flags'` is a flag of `flags` or handled already.
abbrev pub NoNew : ℕ → ℕ → ℕ → Type 0
NoNew flags' flags handling =
    (j : ℕ) → j < 8 → test_bit flags' j ≡ true → (test_bit handling j || test_bit flags j) ≡ true

highest_new :
    (flags handling i : ℕ)
    → IsHighest i flags
    → test_bit handling i ≡ false
    → (is_new flags handling i ≡ true) × ((j : ℕ) → i < j → j < 8 → is_new flags handling j ≡ false)
highest_new flags handling i (on, highest) idle =
    (rw (on, idle) refl, λ j above lt. rw (highest j above lt) refl)

not_new : (flags held : Bool) → (flags ≡ true → held ≡ true) → (flags && not held) ≡ false
not_new true held h = rw (h refl) refl
not_new false held h = refl

pub once_lem :
    (di : DirectInput) (before rest : List DirectInput) (d : Direct)
    (levels flags levels' flags' levels'' flags'' : ℕ)
    → di.pin < 16
    → d.first_direct ≡ before ++ (di ∷ rest)
    → Lacks di.pin before
    → d.isr_bit_mask (port_of di.pin) < 256
    → test_bit (d.isr_bit_mask (port_of di.pin)) (di.pin % 8) ≡ false
    → flags < 256
    → flags' < 256
    → flags'' < 256
    → IsHighest (di.pin % 8) flags
    → NoNew flags' flags (d.isr_bit_mask (port_of di.pin))
    → IsHighest (di.pin % 8) flags''
    → (first second cleared third : Direct) × (handle_pin_change_isr (port_of di.pin) levels flags d
        ≡ returned first)
      × (first.pending ≡ some (record { pin = di.pin; value = not (levels == 0) }))
      × (first.sense di.pin ≡ 0)
      × (handle_pin_change_isr (port_of di.pin) levels' flags' first ≡ returned second)
      × (second.pending ≡ first.pending)
      × (react_direct second ≡ (
          if di.filter == 0
          then some (user_told di (not (levels == 0)), cleared)
          else some (
            user_told di (not (levels == 0)) ++ (armed di ∷ []),
            record second { pending = none },
          )))
      × (clear_interrupt di (record second { pending = none }) ≡ some cleared)
      × (cleared.sense di.pin ≡ di.sense_mode)
      × (cleared.pending ≡ none)
      × (handle_pin_change_isr (port_of di.pin) levels'' flags'' cleared ≡ returned third)
      × (third.pending ≡ some (record { pin = di.pin; value = not (levels'' == 0) }))
once_lem di before rest d levels flags levels' flags' levels'' flags'' in_range listed lacks byte
      idle lt lt' lt'' on no_new on'' =
    let port = port_of di.pin in
    let i = di.pin % 8 in
    let below : i < 8 = omega arith in
    let same : pin_of port i ≡ di.pin = omega arith in
    let (is_fresh, others) = highest_new flags (d.isr_bit_mask port) i on idle in
    let one = isr_lem port levels flags d lt byte in
    let two = isr_lem port levels' flags' one.after lt' one.width in
    let clear = clear_lem di (record two.after { pending = none }) in_range two.width in
    let (is_fresh'', others'') =
      highest_new flags'' (clear.cleared.isr_bit_mask port) i on'' clear.free in
    let three = isr_lem port levels'' flags'' clear.cleared lt'' clear.width in
    let told : one.after.pending ≡ some (record { pin = di.pin; value = not (levels == 0) }) =
      one.told i below is_fresh others
      ∙ ap (λ p. some (record { pin = p; value = not (levels == 0) })) same in
    let stays : two.after.pending ≡ one.after.pending = two.stays (λ j small.
      not_new (test_bit flags' j) (test_bit (one.after.isr_bit_mask port) j)
        (λ q. one.handled j small ∙ no_new j small q)) in
    (
      one.after,
      two.after,
      clear.cleared,
      three.after,
      one.ends,
      told,
      subst (λ p. one.after.sense p ≡ 0) same (one.off i below ∙ rw is_fresh refl),
      two.ends,
      stays,
      react_lem before rest di (not (levels == 0)) two.after (stays ∙ told)
            (two.chain ∙ one.chain ∙ listed) lacks
          ∙ rw clear.ends refl,
      clear.ends,
      clear.on_again,
      clear.quiet,
      three.ends,
      three.told i below is_fresh'' others''
          ∙ ap (λ p. some (record { pin = p; value = not (levels'' == 0) })) same,
    )
