-- ===== src/Network/Examples.antt =====
-- A message of one byte and a text: tests, and the theorems at it.
use projeto_bruxo.Base.{ℕ, ◌+◌, ◌*◌, ◌≡◌, refl, true, false, some, List, [], ◌∷◌, arith}
use projeto_bruxo.Stream.{value_of, bytes_of}
use projeto_bruxo.Xtea.{expand_key}
use projeto_bruxo.Network.{
  NetworkMessage, read_bytes, write_bytes, can_add, can_read, put, move_position, enlarge, get,
  get_byte, get_position, add, add_byte, add_bytes, add_string, add_position, fail_read,
}
use projeto_bruxo.Network.Framing.{
  OutputMessage, Protocol, Connection, adler_run, adler_rounds, adler_checksum, output,
  on_send_message, is_flooding, time_passed, receive,
}
use projeto_bruxo.Network.Buffer.{IsBytes, no_byte, byte}
use projeto_bruxo.Network.Written.{IsWritten, writers-IsWritten}
use projeto_bruxo.Network.Fields.{rewind}
use projeto_bruxo.Network.Checksum.{adler_sums, adler_checksum-sums}
use projeto_bruxo.Network.Sending.{IsReady}
use projeto_bruxo.Network.Delivery.{receive-on_send_message}

abbrev empty_message : NetworkMessage
empty_message = record { length = 0; position = 8; overrun = false; buffer = λ k. 0 }

empty-IsWritten : IsWritten empty_message
empty-IsWritten = record { stands = refl; inside = omega arith; bytes = λ k. omega arith }

-- "oi"
abbrev greeting : List ℕ
greeting = 111 ∷ 105 ∷ []

greeting-IsBytes : IsBytes greeting
greeting-IsBytes = byte (omega arith) (byte (omega arith) no_byte)

writers-IsWritten_example :
    IsWritten (add_byte 30 empty_message)
    × IsWritten (add 4 70000 empty_message)
    × IsWritten (add_bytes greeting empty_message)
    × IsWritten (add_string greeting empty_message)
    × IsWritten (add_position (1000, 1001, 7) empty_message)
writers-IsWritten_example =
    writers-IsWritten empty_message 30 4 70000 greeting (1000, 1001, 7) empty-IsWritten
      (omega arith) (omega arith) greeting-IsBytes (omega arith)

-- A reader behind the end of a message reads nothing, and remembers it.
overrun_found :
    (get_byte (add_byte 30 empty_message)
      ≡ (0, record (add_byte 30 empty_message) { overrun = true }))
    × ((get_position (rewind empty_message (add_position (1000, 1001, 7) empty_message))).0
        ≡ (1000, 1001, 7))
unfolding get_position get get_byte add_byte add add_position put move_position enlarge can_add
    can_read fail_read write_bytes read_bytes value_of bytes_of
overrun_found = (refl, refl)

-- The checksum of "oi".
checksum_greeting : adler_checksum greeting ≡ 329 * 65536 + 217
unfolding adler_checksum adler_rounds adler_run
checksum_greeting = refl

adler_checksum-sums_example :
    adler_checksum greeting
    ≡ (adler_sums greeting (1, 0)).1 * 65536 + (adler_sums greeting (1, 0)).0
adler_checksum-sums_example = adler_checksum-sums greeting greeting-IsBytes (omega arith)

abbrev message : OutputMessage
message = record { msg = add_string greeting empty_message; output_buffer_start = 8 }

message-IsReady : IsReady message
unfolding add_string add can_add put move_position enlarge bytes_of
message-IsReady = record {
  starts = refl;
  stands = refl;
  bytes = writers-IsWritten_example.3.bytes;
  short = omega arith;
}

abbrev protocol : Protocol
protocol = record {
  raw_messages = false;
  encryption_enabled = true;
  checksum_enabled = true;
  key = expand_key (1 ∷ 2 ∷ 3 ∷ 4 ∷ []);
}

abbrev connection : Connection
connection = record { closed = false; packets_sent = 0; time_connected = 100; msg = empty_message }

connection_calm : is_flooding 100 25 connection ≡ false
unfolding is_flooding time_passed
connection_calm = refl

receive-on_send_message_example :
    (r : NetworkMessage) × (receive 100 25 protocol connection
        (output (on_send_message protocol message))
      ≡ some r)
    × (r.length ≡ message.msg.length)
    × (r.position ≡ 8)
    × (read_bytes r.buffer 8 message.msg.length
        ≡ read_bytes message.msg.buffer 8 message.msg.length)
receive-on_send_message_example =
    receive-on_send_message 100 25 protocol connection message refl refl refl message-IsReady refl
      connection_calm
