-- ===== src/I2c/Tests.antt =====
-- The theorems on the i2c bus at concrete transfers.
use asx.Base.{◌+◌, ◌*◌, ◌≡◌, refl, arith, true, false, some, [], ◌∷◌, bit_or, u8}
use asx.I2c.Master.{
  status_ok, err_io_error, err_no_memory, Package, Master, set_maddr, set_mdata, stop, receive,
  nack_stop, complete, interrupt_handler, read_handler, write_handler, transfer,
}
use asx.I2c.Master.Send.{wrote, received, wrote_times, run, transfer_all, bytes_from, sent}
use asx.I2c.Master.Transfer.{chip_byte, written, write_lem}
use asx.I2c.Pca9555.{
  Pca9555, write1, set_dir1, set_pol1, read1, code_of, set_value, set_dir, set_pol, read, get_word,
}
use asx.I2c.Pca9555.Words.{WritesWord, finished, words_lem}

abbrev two_bytes : Package
two_bytes = record {
  chip = 0x50;
  addr = λ i. 7;
  addr_length = 1;
  buffer = λ i. 10 + i;
  length = 2;
  on_complete = 0;
}

abbrev master : Master
master = record {
  pkg = two_bytes;
  addr_count = 1;
  data_count = 2;
  read = true;
  status = err_io_error;
  maddr = 9;
}

abbrev expander : Pca9555
expander = record { chip = 0b0100001 }

write_lem_example :
    transfer_all two_bytes false (wrote_times 1 (wrote_times 2 (wrote ∷ []))) master
    ≡ some (
      written two_bytes,
      set_maddr (chip_byte two_bytes)
          ∷ sent
              (bytes_from (λ i. 7) 0 1)
              (sent (bytes_from (λ i. 10 + i) 0 2) (stop ∷ complete status_ok ∷ [])),
    )
write_lem_example = write_lem two_bytes master (omega arith) (omega arith)

words_lem_example :
    WritesWord expander two_bytes 0 write1 0x1234
      (set_value expander two_bytes 0 true master 0x1234)
    × WritesWord expander two_bytes 0 set_dir1 0x1234
        (set_dir expander two_bytes 0 true master 0x1234)
    × WritesWord expander two_bytes 0 set_pol1 0x1234
        (set_pol expander two_bytes 0 true master 0x1234)
    × ((m' : Master) × (finished
            (wrote ∷ wrote ∷ received 3 ∷ received 4 ∷ [])
            (read expander two_bytes 0 true master)
          ≡ some (
            m',
            set_maddr (u8 (0b0100001 * 2))
                ∷ set_mdata (code_of read1)
                ∷ set_maddr (bit_or (u8 (0b0100001 * 2)) 1)
                ∷ receive
                ∷ nack_stop
                ∷ complete status_ok
                ∷ [],
          ))
        × (get_word m'.pkg.buffer ≡ 3 * 256 + 4))
words_lem_example = words_lem expander two_bytes 0 master 0x1234 3 4 (omega arith) (omega arith)

write-two :
    transfer_all two_bytes false (wrote_times 4 []) master
    ≡ some (
      written two_bytes,
      set_maddr 0xa0 ∷ set_mdata 7 ∷ set_mdata 10 ∷ set_mdata 11 ∷ stop ∷ complete status_ok ∷ [],
    )
unfolding transfer_all transfer run interrupt_handler write_handler
write-two = refl

-- A byte too many: the status is an error, but the handler is told that all is well.
read_overflow :
    read_handler 5 master
    ≡ (record master { status = err_no_memory }, stop ∷ complete status_ok ∷ [])
unfolding read_handler
read_overflow = refl
