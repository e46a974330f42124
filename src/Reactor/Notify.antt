-- ===== src/Reactor/Notify.antt =====
-- src/reactor.c: `reactor_notify`, `reactor_yield`, `reactor_mask_of` and `reactor_clear`.
use asx.Base.{ℕ, ◌-◌, ◌*◌, ◌/◌, ◌%◌, ◌^◌, ◌<◌, ◌≡◌, refl, arith, bit_and, ap, sym, inl, inr}
use asx.Base.{
  true, not, ◌&&◌, ◌||◌, some, ◌==◌, ==_iff, Bool-cases, if◌then◌else◌, lt→ltb, ==_false,
}
use asx.Base.Bits.{all_below, all_below-true, bit_and_all_ones}
use asx.Reactor.{Reactor, update, null_handle, null_notify_from_isr, mask_of, notify, clear, yield}
use asx.Reactor.Pending.{
  pending, AreBytes, bit_shift_lem, with_bit, pending-with_bit, with_bit-AreBytes, without_bit,
  pending-without_bit, without_bit-AreBytes,
}

-- The state behind a notification of `h`.
abbrev pub notified : Reactor → ℕ → ℕ → Reactor
notified r h value = record r {
  handlers = update r.handlers h (record (r.handlers h) { arg = value });
  notifications = with_bit r.notifications h;
}

pub notify_lem : (r : Reactor) (h value : ℕ) → h < 32 → notify r h value ≡ some (notified r h value)
unfolding notify null_notify_from_isr
notify_lem r h value in_range =
    rw
      (
        ==_false h null_handle (omega arith),
        lt→ltb h 32 in_range,
        lt→ltb (h / 8) 4 (omega arith),
        bit_shift_lem (h % 8) (omega arith),
      )
      refl

-- `reactor_notify` of a handle below 32 keeps its argument, makes it pending and no other, and
-- leaves the handlers and the running handle as they are. When a handler runs, `reactor_yield`
-- does the same to the handle that runs.
pub notify-pending :
    (r : Reactor) (h value : ℕ)
    → AreBytes r.notifications
    → h < 32
    → (after : Reactor) × (notify r h value ≡ some after)
      × (yield (record r { running_handle = h }) value ≡ some (record after { running_handle = h }))
      × AreBytes after.notifications
      × ((j : ℕ) → j < 32 → pending after.notifications j ≡ ((h == j) || pending r.notifications j))
      × ((after.handlers h).arg ≡ value)
      × ((j : ℕ) → (after.handlers j).handler ≡ (r.handlers j).handler)
      × (after.running_handle ≡ r.running_handle)
unfolding yield
notify-pending r h value bytes in_range = (
  notified r h value,
  notify_lem r h value in_range,
  notify_lem (record r { running_handle = h }) h value in_range,
  with_bit-AreBytes r.notifications bytes h in_range,
  pending-with_bit r.notifications bytes h in_range,
  ground arith,
  λ j. ground arith,
  refl,
)

-- The bytes of a mask.
mask_table :
    all_below 32 (λ h. all_below 4 (λ k.
      (2 ^ (h % 8) * 256 ^ (h / 8) / 256 ^ k % 256) == (if h / 8 == k then 2 ^ (h % 8) else 0)))
    ≡ true
unfolding all_below
mask_table = refl

mask_byte :
    (h k : ℕ)
    → h < 32
    → k < 4
    → (2 ^ (h % 8) * 256 ^ (h / 8) / 256 ^ k % 256) ≡ (if h / 8 == k then 2 ^ (h % 8) else 0)
mask_byte h k in_range lt =
    (==_iff _ _).0 (all_below-true 4 _ k (all_below-true 32 _ h mask_table in_range) lt)

clear_byte :
    (r : Reactor) (h k : ℕ)
    → AreBytes r.notifications
    → h < 32
    → k < 4
    → (clear r (2 ^ (h % 8) * 256 ^ (h / 8))).notifications k ≡ without_bit r.notifications h k
unfolding clear
clear_byte r h k bytes in_range lt =
    rw (mask_byte h k in_range lt) (elim (Bool-cases (h / 8 == k)) [
      | inl e ↦
          rw e (ap (λ i. bit_and (r.notifications i) (255 - 2 ^ (h % 8))) (sym ((==_iff _ _).0 e)))
      | inr e ↦ rw e (bit_and_all_ones (r.notifications k) (bytes k lt))
    ])

-- `reactor_clear` of the mask of a handle below 32 takes back its notification and no other, and
-- leaves the handlers as they are.
pub clear-mask_of :
    (r : Reactor) (h : ℕ)
    → AreBytes r.notifications
    → h < 32
    → (mask : ℕ) × (mask_of h ≡ some mask)
      × AreBytes (clear r mask).notifications
      × ((j : ℕ)
          → j < 32
          → pending (clear r mask).notifications j ≡ (not (h == j) && pending r.notifications j))
      × ((clear r mask).handlers ≡ r.handlers)
unfolding mask_of clear pending
clear-mask_of r h bytes in_range = (
  2 ^ (h % 8) * 256 ^ (h / 8),
  rw
      (
        ==_false h null_handle (omega arith),
        lt→ltb (h / 8) 4 (omega arith),
        bit_shift_lem (h % 8) (omega arith),
      )
      refl,
  λ k lt.
      rw (clear_byte r h k bytes in_range lt)
        (without_bit-AreBytes r.notifications bytes h in_range k lt),
  λ j lt.
      rw (clear_byte r h (j / 8) bytes in_range (omega arith))
        (pending-without_bit r.notifications bytes h in_range j lt),
  refl,
)
