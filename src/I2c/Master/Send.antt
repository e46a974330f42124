-- ===== src/I2c/Master/Send.antt =====
-- src/i2c_master.cpp: the interrupts of a transfer, with a chip that acknowledges every byte, and the
-- bytes that are sent.
use asx.Base.{
  ℕ, zero, suc, ◌+◌, ◌<◌, ◌≤◌, ◌≡◌, refl, ap, ◌∙◌, arith, Bool, true, false, Option, none, some,
  List, [], ◌∷◌, ◌++◌, ◌>>=◌,
}
use asx.Base.{u8, lt→ltb, le→ltb, bit_or}
use asx.I2c.Master.{status_ok, Package, Master, Command, set_maddr, set_mdata, stop, complete}
use asx.I2c.Master.{Interrupt, write_handler, interrupt_handler, transfer}

-- The interrupts behind a byte that was acknowledged, and behind a byte that has come in.
abbrev pub wrote : Interrupt
wrote = record {
  arblost = false;
  buserr = false;
  rxack = false;
  wif = true;
  rif = false;
  mdata = 0;
}

abbrev pub received : ℕ → Interrupt
received b = record {
  arblost = false;
  buserr = false;
  rxack = false;
  wif = false;
  rif = true;
  mdata = b;
}

-- So many acknowledged bytes, and the bytes that come in one behind another.
abbrev pub wrote_times : ℕ → List Interrupt → List Interrupt
wrote_times zero rest = rest
wrote_times (suc k) rest = wrote ∷ wrote_times k rest

abbrev pub receive_all : List ℕ → List Interrupt
receive_all [] = []
receive_all (b ∷ bytes) = received b ∷ receive_all bytes

abbrev pub prefixed : List Command → Option (Master × List Command) → Option (Master × List Command)
prefixed commands none = none
prefixed commands (some (m, more)) = some (m, commands ++ more)

-- The interrupts of a transfer.
unfoldable pub run : List Interrupt → Master → Option (Master × List Command)
run [] m = some (m, [])
run (i ∷ interrupts) m = interrupt_handler i m >>= λ r. prefixed r.1 (run interrupts r.0)

unfoldable pub transfer_all :
    Package → Bool → List Interrupt → Master → Option (Master × List Command)
transfer_all pkg read interrupts m =
    transfer true pkg read m >>= λ r. prefixed r.1 (run interrupts r.0)

-- The bytes of a memory from `i` on, and what is sent for them in front of other commands.
abbrev pub bytes_from : (ℕ → ℕ) → ℕ → ℕ → List ℕ
bytes_from f i zero = []
bytes_from f i (suc k) = f i ∷ bytes_from f (i + 1) k

abbrev pub sent : List ℕ → List Command → List Command
sent [] rest = rest
sent (b ∷ bytes) rest = set_mdata b ∷ sent bytes rest

one_more :
    (b : ℕ) (bytes : List ℕ) (o : Option (Master × List Command))
    → prefixed (set_mdata b ∷ []) (prefixed (sent bytes []) o) ≡ prefixed (sent (b ∷ bytes) []) o
one_more b bytes none = refl
one_more b bytes (some r) = refl

pub prefixed-nil : (o : Option (Master × List Command)) → o ≡ prefixed [] o
prefixed-nil none = refl
prefixed-nil (some r) = refl

pub step :
    (i : Interrupt) (rest : List Interrupt) (m m' : Master) (commands : List Command)
    → interrupt_handler i m ≡ some (m', commands)
    → run (i ∷ rest) m ≡ prefixed commands (run rest m')
unfolding run
step i rest m m' commands e = rw e refl

-- One interrupt behind an acknowledged byte.
module _ (m : Master) where
  write_addr :
      m.addr_count < m.pkg.addr_length
      → m.pkg.addr_length ≤ 3
      → interrupt_handler wrote m
        ≡ some
            (record m { addr_count = m.addr_count + 1 }, set_mdata (m.pkg.addr m.addr_count) ∷ [])
  unfolding interrupt_handler write_handler
  write_addr lt fits =
      rw (lt→ltb m.addr_count m.pkg.addr_length lt, lt→ltb m.addr_count 3 (omega (arith, lt, fits)))
        refl

  module _ (addressed : m.addr_count ≡ m.pkg.addr_length) where
    write_data :
        m.read ≡ false
        → m.data_count < m.pkg.length
        → m.pkg.length < 256
        → interrupt_handler wrote m
          ≡ some (
            record m { data_count = m.data_count + 1 },
            set_mdata (m.pkg.buffer m.data_count) ∷ [],
          )
    unfolding interrupt_handler write_handler
    write_data writing lt byte =
        let sum : u8 (m.data_count + 1) ≡ m.data_count + 1 = omega (arith, lt, byte) in
        rw
          (
            le→ltb m.addr_count m.pkg.addr_length (omega (arith, addressed)),
            lt→ltb m.data_count m.pkg.length lt,
            writing,
            sum,
          )
          refl

    pub write_restart :
        m.read ≡ true
        → m.data_count < m.pkg.length
        → interrupt_handler wrote m
          ≡ some (record m { maddr = bit_or m.maddr 1 }, set_maddr (bit_or m.maddr 1) ∷ [])
    unfolding interrupt_handler write_handler
    write_restart reading lt =
        rw
          (
            le→ltb m.addr_count m.pkg.addr_length (omega (arith, addressed)),
            lt→ltb m.data_count m.pkg.length lt,
            reading,
          )
          refl

    pub write_end :
        m.data_count ≡ m.pkg.length
        → interrupt_handler wrote m
          ≡ some (record m { status = status_ok }, stop ∷ complete status_ok ∷ [])
    unfolding interrupt_handler write_handler
    write_end done =
        rw
          (
            le→ltb m.addr_count m.pkg.addr_length (omega (arith, addressed)),
            le→ltb m.data_count m.pkg.length (omega (arith, done)),
          )
          refl

-- The bytes of the address, and the bytes of the buffer.
pub run_addr :
    (k : ℕ) (rest : List Interrupt) (m : Master)
    → m.pkg.addr_length ≤ 3
    → m.addr_count + k ≡ m.pkg.addr_length
    → run (wrote_times k rest) m
      ≡ prefixed
          (sent (bytes_from m.pkg.addr m.addr_count k) [])
          (run rest (record m { addr_count = m.pkg.addr_length }))
run_addr zero rest m fits e =
    let all : m.addr_count ≡ m.pkg.addr_length = omega (arith, e) in
    ap (λ n. run rest (record m { addr_count = n })) all ∙ prefixed-nil _
run_addr (suc k) rest m fits e =
    step wrote (wrote_times k rest) m (record m { addr_count = m.addr_count + 1 }) _
      (write_addr m (omega (arith, e)) fits)
    ∙ (ap (prefixed (set_mdata (m.pkg.addr m.addr_count) ∷ []))
          (run_addr k rest (record m { addr_count = m.addr_count + 1 }) fits (omega (arith, e)))
        ∙ one_more (m.pkg.addr m.addr_count) (bytes_from m.pkg.addr (m.addr_count + 1) k) _)

pub run_data :
    (k : ℕ) (rest : List Interrupt) (m : Master)
    → m.addr_count ≡ m.pkg.addr_length
    → m.read ≡ false
    → m.pkg.length < 256
    → m.data_count + k ≡ m.pkg.length
    → run (wrote_times k rest) m
      ≡ prefixed
          (sent (bytes_from m.pkg.buffer m.data_count k) [])
          (run rest (record m { data_count = m.pkg.length }))
run_data zero rest m addressed writing byte e =
    let all : m.data_count ≡ m.pkg.length = omega (arith, e) in
    ap (λ n. run rest (record m { data_count = n })) all ∙ prefixed-nil _
run_data (suc k) rest m addressed writing byte e =
    step wrote (wrote_times k rest) m (record m { data_count = m.data_count + 1 }) _
      (write_data m addressed writing (omega (arith, e)) byte)
    ∙ (ap (prefixed (set_mdata (m.pkg.buffer m.data_count) ∷ [])) (
          run_data k rest (record m { data_count = m.data_count + 1 }) addressed writing byte
            (omega (arith, e)))
        ∙ one_more (m.pkg.buffer m.data_count) (bytes_from m.pkg.buffer (m.data_count + 1) k) _)
