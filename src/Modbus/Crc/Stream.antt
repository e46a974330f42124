-- ===== src/Modbus/Crc/Stream.antt =====
-- src/modbus_rtu.cpp: the sum kept byte by byte and the sum of the whole message.
use asx.Base.{ℕ, ◌≡◌, refl, List, [], ◌∷◌, ◌++◌}
use asx.Modbus.Crc.{Crc, reset, update, append, update_all, update_view}

-- The bytes of a frame, received one behind another.
unfoldable pub append_all : Crc → List ℕ → Crc
append_all c [] = c
append_all c (byte ∷ frame) = append_all (append c byte) frame

-- The sum `v` is kept, with `a` and `b` the last two bytes.
abbrev holding : ℕ → ℕ → ℕ → Crc
holding v a b = record { count = 2; crc = v; n_minus_1 = b; n_minus_2 = a }

append_all-holding :
    (message : List ℕ) (v a b lo hi : ℕ)
    → append_all (holding v a b) (message ++ (lo ∷ hi ∷ []))
      ≡ holding (update_all v (a ∷ b ∷ message)) lo hi
unfolding append_all append update_all
append_all-holding [] v a b lo hi = refl
append_all-holding (x ∷ message) v a b lo hi = append_all-holding message (update v a) b x lo hi

-- Received byte by byte, a message and two more bytes leave the sum that `update` gives for the whole
-- message at once, and the two bytes by themselves, whatever was received before the reset.
pub append_all-update_view :
    (c : Crc) (message : List ℕ) (lo hi : ℕ)
    → append_all (reset c) (message ++ (lo ∷ hi ∷ []))
      ≡ record { count = 2; crc = update_view c message; n_minus_1 = hi; n_minus_2 = lo }
unfolding append_all append reset update_view update_all
append_all-update_view c [] lo hi = refl
append_all-update_view c (x ∷ []) lo hi = refl
append_all-update_view c (x ∷ y ∷ message) lo hi = append_all-holding message 0xffff x y lo hi
