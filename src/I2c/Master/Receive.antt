-- ===== src/I2c/Master/Receive.antt =====
-- src/i2c_master.cpp: the bytes that are received.
use asx.Base.{ℕ, suc, ◌+◌, ◌<◌, ◌≡◌, refl, ap, ◌∙◌, arith, some, List, [], ◌∷◌, length}
use asx.Base.{u8, lt→ltb, le→ltb, ==_true, ==_false}
use asx.I2c.Master.{status_ok, Master, Command, set_mdata, receive, nack_stop, complete}
use asx.I2c.Master.{update, read_handler, interrupt_handler}
use asx.I2c.Master.Send.{received, receive_all, prefixed, run, bytes_from, sent, step}

-- The bytes that come in, written to the memory of the buffer from `i` on.
abbrev pub fill : (ℕ → ℕ) → ℕ → List ℕ → ℕ → ℕ
fill f i [] = f
fill f i (b ∷ bytes) = fill (update f i b) (i + 1) bytes

fill_below : (bytes : List ℕ) (f : ℕ → ℕ) (i j : ℕ) → j < i → fill f i bytes j ≡ f j
fill_below [] f i j lt = refl
fill_below (b ∷ bytes) f i j lt =
    fill_below bytes (update f i b) (i + 1) j (omega (arith, lt))
    ∙ rw (==_false i j (λ q. omega (arith, q, lt))) refl

pub bytes_from-fill :
    (bytes : List ℕ) (f : ℕ → ℕ) (i : ℕ) → bytes_from (fill f i bytes) i (length bytes) ≡ bytes
bytes_from-fill [] f i = refl
bytes_from-fill (b ∷ bytes) f i =
    rw (fill_below bytes (update f i b) (i + 1) i (omega arith), ==_true i i refl)
      (ap (λ xs. b ∷ xs) (bytes_from-fill bytes (update f i b) (i + 1)))

-- The answers to the bytes: an acknowledgement for each but the last.
abbrev pub answers : List ℕ → List Command
answers [] = nack_stop ∷ complete status_ok ∷ []
answers (b ∷ bytes) = receive ∷ answers bytes

module _ (m : Master) (b : ℕ) (byte : m.pkg.length < 256) where
  abbrev kept : Master
  kept = record m {
    pkg = record m.pkg { buffer = update m.pkg.buffer m.data_count b };
    data_count = m.data_count + 1;
  }

  read_more :
      m.data_count + 1 < m.pkg.length → interrupt_handler (received b) m ≡ some (kept, receive ∷ [])
  unfolding interrupt_handler read_handler
  read_more lt =
      let sum : u8 (m.data_count + 1) ≡ m.data_count + 1 = omega (arith, lt, byte) in
      rw
        (
          lt→ltb m.data_count m.pkg.length (omega (arith, lt)),
          sum,
          lt→ltb (m.data_count + 1) m.pkg.length lt,
        )
        refl

  read_last :
      m.data_count + 1 ≡ m.pkg.length
      → interrupt_handler (received b) m
        ≡ some (record kept { status = status_ok }, nack_stop ∷ complete status_ok ∷ [])
  unfolding interrupt_handler read_handler
  read_last last =
      let sum : u8 (m.data_count + 1) ≡ m.data_count + 1 = omega (arith, last, byte) in
      rw
        (
          lt→ltb m.data_count m.pkg.length (omega (arith, last)),
          sum,
          le→ltb (m.data_count + 1) m.pkg.length (omega (arith, last)),
        )
        refl

pub run_receive :
    (bytes : List ℕ) (b : ℕ) (m : Master)
    → m.pkg.length < 256
    → m.data_count + suc (length bytes) ≡ m.pkg.length
    → run (receive_all (b ∷ bytes)) m
      ≡ some (
        record m {
          pkg = record m.pkg { buffer = fill m.pkg.buffer m.data_count (b ∷ bytes) };
          data_count = m.pkg.length;
          status = status_ok;
        },
        answers bytes,
      )
run_receive [] b m byte e =
    let last : m.data_count + 1 ≡ m.pkg.length = omega (arith, e) in
    step (received b) [] m _ _ (read_last m b byte last)
    ∙ unfold run in
      ap (λ n. some (record (kept m b byte) { data_count = n; status = status_ok }, answers []))
        last
run_receive (b' ∷ bytes) b m byte e =
    step (received b) (receive_all (b' ∷ bytes)) m _ _ (read_more m b byte (omega (arith, e)))
    ∙ ap (prefixed (receive ∷ [])) (run_receive bytes b' (kept m b byte) byte (omega (arith, e)))

pub prefixed-sent :
    (bytes : List ℕ) (m : Master) (commands : List Command)
    → prefixed (sent bytes []) (some (m, commands)) ≡ some (m, sent bytes commands)
prefixed-sent [] m commands = refl
prefixed-sent (b ∷ bytes) m commands =
    ap (prefixed (set_mdata b ∷ [])) (prefixed-sent bytes m commands)
