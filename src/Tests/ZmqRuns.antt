-- ===== src/Tests/ZmqRuns.antt =====
-- Messages over a socket: src/zmq_util.
use lattice_flow.Base.{refl, arith, ◌≡◌, true, false, List, [], ◌∷◌, ◌++◌, some}
use lattice_flow.Zmq.Message.{EnvelopedMessage, id_lt, enveloped_lt, lt-false}
use lattice_flow.Zmq.HexDump.{
  hexdump, full_rows, full_row, last_row, put_hex, hex_digits, hex_digit, hex, ascii,
}
use lattice_flow.Kvs.Client.{codes}
use lattice_flow.Std.Lexicographic.{Bytes}
use lattice_flow.Zmq.HexDump.Reading.{AreBytes}
use lattice_flow.Zmq.HexDump.Dump.{read_dump, read_dump-hexdump}
use lattice_flow.Zmq.Envelope.{
  Frame, send_enveloped_msg, recv_enveloped_msg, recv_enveloped_msg-send_enveloped_msg,
}

abbrev letter : EnvelopedMessage
letter = record { cid = record { connection_ids = (1 ∷ []) ∷ (2 ∷ []) ∷ [] }; msg = 104 ∷ [] }

abbrev other_letter : EnvelopedMessage
other_letter = record { cid = record { connection_ids = (3 ∷ []) ∷ [] }; msg = 105 ∷ [] }

abbrev behind : List Frame
behind = record { content = []; more = true } ∷ []

recv_enveloped_msg-send_enveloped_msg_example :
    recv_enveloped_msg (send_enveloped_msg letter ++ behind) ≡ some (letter, behind)
recv_enveloped_msg-send_enveloped_msg_example = recv_enveloped_msg-send_enveloped_msg letter behind

lt-false_example :
    (id_lt letter.cid other_letter.cid ≡ false) × (enveloped_lt letter other_letter ≡ false)
lt-false_example = lt-false letter other_letter

-- More than one row.
abbrev many : Bytes
many = 10 ∷ 124 ∷ 255 ∷ 3 ∷ 4 ∷ 5 ∷ 6 ∷ 7 ∷ 8 ∷ 9 ∷ 10 ∷ 11 ∷ 12 ∷ 13 ∷ 14 ∷ 15 ∷ 16 ∷ 32 ∷ 65 ∷ []

many-AreBytes : AreBytes many
many-AreBytes = (
  omega arith,
  (
    omega arith,
    (
      omega arith,
      (
        omega arith,
        (
          omega arith,
          (
            omega arith,
            (
              omega arith,
              (
                omega arith,
                (
                  omega arith,
                  (
                    omega arith,
                    (
                      omega arith,
                      (
                        omega arith,
                        (
                          omega arith,
                          (
                            omega arith,
                            (
                              omega arith,
                              (omega arith, (omega arith, (omega arith, (omega arith, tt)))),
                            ),
                          ),
                        ),
                      ),
                    ),
                  ),
                ),
              ),
            ),
          ),
        ),
      ),
    ),
  ),
)

read_dump-hexdump_example : (text : Bytes) × (hexdump many ≡ some text) × (read_dump text ≡ many)
read_dump-hexdump_example = read_dump-hexdump many many-AreBytes

-- A dump of one byte.
hexdump_lem :
    hexdump (10 ∷ [])
    ≡ some (codes "00000000  0a                                                |.|")
unfolding hexdump full_rows full_row last_row put_hex hex_digits hex_digit hex ascii
hexdump_lem = refl
