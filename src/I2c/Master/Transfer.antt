-- ===== src/I2c/Master/Transfer.antt =====
-- src/i2c_master.cpp: a whole transfer, with a chip that acknowledges every byte.
use asx.Base.{
  ℕ, suc, ◌*◌, ◌<◌, ◌≤◌, ◌≡◌, refl, ap, ◌∙◌, arith, true, false, not, ◌||◌, some, List, [], ◌∷◌,
  length,
}
use asx.Base.{u8, ◌==◌, ==_false, bit_or}
use asx.I2c.Master.{status_ok, Package, Master, set_maddr, stop, complete}
use asx.I2c.Master.{transfer}
use asx.I2c.Master.Send.{
  wrote, wrote_times, receive_all, prefixed, run, transfer_all, bytes_from, sent, step, write_end,
  write_restart, run_addr, run_data,
}
use asx.I2c.Master.Receive.{fill, answers, run_receive, prefixed-sent}

-- The address byte of a chip, for writing.
abbrev pub chip_byte : Package → ℕ
chip_byte pkg = u8 (pkg.chip * 2)

-- The first command of a transfer, and its last interrupt.
begin_write :
    (pkg : Package) (m : Master)
    → transfer true pkg false m
      ≡ some (
        record m { pkg = pkg; addr_count = 0; data_count = 0; read = false; maddr = chip_byte pkg },
        set_maddr (chip_byte pkg) ∷ [],
      )
unfolding transfer
begin_write pkg m =
    let writes : (not (pkg.addr_length == 0) || true) ≡ true = ground arith in rw writes refl

begin_read :
    (pkg : Package) (m : Master)
    → 0 < pkg.addr_length
    → transfer true pkg true m
      ≡ some (
        record m { pkg = pkg; addr_count = 0; data_count = 0; read = true; maddr = chip_byte pkg },
        set_maddr (chip_byte pkg) ∷ [],
      )
unfolding transfer
begin_read pkg m addressed = rw (==_false pkg.addr_length 0 (λ q. omega (arith, q, addressed))) refl

run_end :
    (m : Master)
    → m.addr_count ≡ m.pkg.addr_length
    → m.data_count ≡ m.pkg.length
    → run (wrote ∷ []) m ≡ some (record m { status = status_ok }, stop ∷ complete status_ok ∷ [])
run_end m addressed done = step wrote [] m _ _ (write_end m addressed done) ∙ unfold run in refl

module _ (pkg : Package) where
  -- What a transfer that writes leaves.
  abbrev pub written : Master
  written = record {
    pkg = pkg;
    addr_count = pkg.addr_length;
    data_count = pkg.length;
    read = false;
    status = status_ok;
    maddr = chip_byte pkg;
  }

  -- What a transfer that reads leaves.
  abbrev pub read_back : List ℕ → Master
  read_back bytes = record {
    pkg = record pkg { buffer = fill pkg.buffer 0 bytes };
    addr_count = pkg.addr_length;
    data_count = pkg.length;
    read = true;
    status = status_ok;
    maddr = bit_or (chip_byte pkg) 1;
  }

module _ (pkg : Package) (m : Master) (short : pkg.addr_length ≤ 3) (byte : pkg.length < 256) where
  -- A transfer that writes, of at most 3 address bytes and fewer than 256 data bytes, to a chip that
  -- acknowledges every byte: the master sends the address byte of the chip, the address bytes and the data
  -- bytes, each in order and none twice, then a stop, and reports success once; it returns with the
  -- status ok and both counts complete.
  pub write_lem :
      transfer_all pkg false (wrote_times pkg.addr_length (wrote_times pkg.length (wrote ∷ []))) m
      ≡ some (
        written pkg,
        set_maddr (chip_byte pkg)
            ∷ sent
                (bytes_from pkg.addr 0 pkg.addr_length)
                (sent (bytes_from pkg.buffer 0 pkg.length) (stop ∷ complete status_ok ∷ [])),
      )
  unfolding transfer_all
  write_lem =
      let start : Master = record m {
        pkg = pkg;
        addr_count = 0;
        data_count = 0;
        read = false;
        maddr = chip_byte pkg;
      } in
      let addressed : Master = record start { addr_count = pkg.addr_length } in
      let addr = bytes_from pkg.addr 0 pkg.addr_length in
      let content = bytes_from pkg.buffer 0 pkg.length in
      rw (begin_write pkg m) (
        ap (prefixed (set_maddr (chip_byte pkg) ∷ [])) (
          run_addr pkg.addr_length (wrote_times pkg.length (wrote ∷ [])) start short (omega arith)
          ∙ (ap (prefixed (sent addr [])) (
                run_data pkg.length (wrote ∷ []) addressed refl refl byte (omega arith)
                ∙ (ap (prefixed (sent content []))
                      (run_end (record addressed { data_count = pkg.length }) refl refl)
                    ∙ prefixed-sent content _ (stop ∷ complete status_ok ∷ [])))
              ∙ prefixed-sent addr _ (sent content (stop ∷ complete status_ok ∷ [])))))

  module _ (b : ℕ) (bytes : List ℕ) where
    pub read_lem :
        0 < pkg.addr_length
        → suc (length bytes) ≡ pkg.length
        → transfer_all pkg true (wrote_times pkg.addr_length (wrote ∷ receive_all (b ∷ bytes))) m
          ≡ some (
            read_back pkg (b ∷ bytes),
            set_maddr (chip_byte pkg)
                ∷ sent
                    (bytes_from pkg.addr 0 pkg.addr_length)
                    (set_maddr (bit_or (chip_byte pkg) 1) ∷ answers bytes),
          )
    unfolding transfer_all
    read_lem addressed count =
        let start : Master = record m {
          pkg = pkg;
          addr_count = 0;
          data_count = 0;
          read = true;
          maddr = chip_byte pkg;
        } in
        let turned : Master = record start { addr_count = pkg.addr_length } in
        let addr = bytes_from pkg.addr 0 pkg.addr_length in
        rw (begin_read pkg m addressed) (
          ap (prefixed (set_maddr (chip_byte pkg) ∷ [])) (
            run_addr pkg.addr_length (wrote ∷ receive_all (b ∷ bytes)) start short (omega arith)
            ∙ (ap (prefixed (sent addr [])) (
                  step wrote (receive_all (b ∷ bytes)) turned _ _
                    (write_restart turned refl refl (omega (arith, count)))
                  ∙ ap (prefixed (set_maddr (bit_or (chip_byte pkg) 1) ∷ [])) (
                      run_receive bytes b (record turned { maddr = bit_or (chip_byte pkg) 1 }) byte
                        (omega (arith, count))))
                ∙ prefixed-sent addr _ (set_maddr (bit_or (chip_byte pkg) 1) ∷ answers bytes))))
