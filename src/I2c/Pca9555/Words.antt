-- ===== src/I2c/Pca9555/Words.antt =====
-- src/pca9555.cpp over src/i2c_master.cpp: what the operations on both ports do on the bus.
use asx.Base.{
  ℕ, ◌+◌, ◌*◌, ◌/◌, ◌%◌, ◌<◌, ◌≡◌, refl, ap, ◌∙◌, arith, true, Option, some, List, [], ◌∷◌, ◌>>=◌,
  bit_or, u8,
}
use asx.Base.Digits.{low_byte, join_bytes}
use asx.I2c.Master.{
  Package, Master, Command, Interrupt, set_maddr, set_mdata, stop, receive, nack_stop, complete,
  status_ok,
}
use asx.I2c.Master.Send.{wrote, received, prefixed, run, transfer_all}
use asx.I2c.Master.Transfer.{written, read_back, write_lem, read_lem}
use asx.I2c.Pca9555.{
  Pca9555, CommandCode, write1, set_dir1, set_pol1, read1, code_of, word_package, read_package,
  read, set_value, set_dir, set_pol, read_bytes, transfer_word, get_word,
}

-- A transfer that has begun, and the interrupts that follow.
abbrev pub finished :
    List Interrupt → Option (Master × List Command) → Option (Master × List Command)
finished interrupts o = o >>= λ r. prefixed r.1 (run interrupts r.0)

module _ (x : Pca9555) (static : Package) (on_complete : ℕ) where
  -- The three bytes behind the address of the chip, and then the stop.
  abbrev pub WritesWord : CommandCode → ℕ → Option (Master × List Command) → Type 0
  WritesWord op value o =
      finished (wrote ∷ wrote ∷ wrote ∷ wrote ∷ []) o
      ≡ some (
        written (word_package x static on_complete op value),
        set_maddr (u8 (x.chip * 2))
            ∷ set_mdata (code_of op)
            ∷ set_mdata (value / 256)
            ∷ set_mdata (value % 256)
            ∷ stop
            ∷ complete status_ok
            ∷ [],
      )

  word_sent :
      (op : CommandCode) (value : ℕ) (m : Master)
      → WritesWord op value (transfer_word x static on_complete true m op value)
  unfolding transfer_word transfer_all
  word_sent op value m =
      let pkg = word_package x static on_complete op value in
      write_lem pkg m (omega arith) (omega arith)
      ∙ ap
          (λ low. some (
            written pkg,
            set_maddr (u8 (x.chip * 2))
                ∷ set_mdata (code_of op)
                ∷ set_mdata (value / 256)
                ∷ set_mdata low
                ∷ stop
                ∷ complete status_ok
                ∷ [],
          ))
          (low_byte value)

  -- On an idle bus with a chip that acknowledges, each operation on both ports sends its command and
  -- the value, the byte of port 1 first; and `read` asks for port 1, and the two bytes that come in,
  -- the first from port 1, are the value that `get_value` gives.
  pub words_lem :
      (m : Master) (value high low : ℕ)
      → high < 256
      → low < 256
      → WritesWord write1 value (set_value x static on_complete true m value)
        × WritesWord set_dir1 value (set_dir x static on_complete true m value)
        × WritesWord set_pol1 value (set_pol x static on_complete true m value)
        × ((m' : Master) × (finished
                (wrote ∷ wrote ∷ received high ∷ received low ∷ [])
                (read x static on_complete true m)
              ≡ some (
                m',
                set_maddr (u8 (x.chip * 2))
                    ∷ set_mdata (code_of read1)
                    ∷ set_maddr (bit_or (u8 (x.chip * 2)) 1)
                    ∷ receive
                    ∷ nack_stop
                    ∷ complete status_ok
                    ∷ [],
              ))
            × (get_word m'.pkg.buffer ≡ high * 256 + low))
  unfolding set_value set_dir set_pol read read_bytes get_word transfer_all
  words_lem m value high low hh hl =
      let pkg = read_package x static on_complete 2 read1 in
      (
        word_sent write1 value m,
        word_sent set_dir1 value m,
        word_sent set_pol1 value m,
        (
          read_back pkg (high ∷ low ∷ []),
          read_lem pkg m (omega arith) (omega arith) high (low ∷ []) (omega arith) refl,
          join_bytes high low hh hl,
        ),
      )
