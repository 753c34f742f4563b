-- ===== src/Tests/NetTests.antt =====
-- net.cpp, protocol.cpp and the message loop at concrete inputs.
use mathlib.Core.Bool.{◌&&◌, Bool, false, true}
use tri_tip.Prelude.{
  arith, drop, get_or, length, List, refl, some, take, ℕ, ◌++◌, ◌==◌, ◌≡◌, ◌∷◌, ◌≤◌, [], replicate,
}
use Prim.Native.Nat.{min}
use tri_tip.Net.{Message, Protocol, receive_msg_bytes}
use tri_tip.Net.Stream.{BackInBounds}
use tri_tip.Net.Pieces.{concat, receive_pieces, receive_pieces-concat}
use tri_tip.Net.Frames.{Frame, AreFrames, IsFrame, IsReady, bytes_of, enqueue}
use tri_tip.Net.Frames.Receive.{receive_pieces-frames}
use tri_tip.Net.Send.{Answer, sent, Peer, socket_send_data}
use tri_tip.Net.Send.Stream.{
  IsSound, Sends, NoneEmpty, OffsetWithin, total_size, socket_send_data-Sends,
}
use tri_tip.Messages.{
  Header, Environment, Processed, answer_get_data, process_messages, is_valid, new_header,
  get_command,
}
use tri_tip.Messages.Handled.{Ends, process_messages-Ends}
use tri_tip.Messages.Commands.{Printable, get_command-new_header}

-- A header is the size of the data, which its 17th byte gives.
abbrev protocol : Protocol
protocol = record {
  Header = ℕ;
  message_size = λ n. n;
  parse = λ bytes. some (get_or bytes 16 0);
  max_size = 100;
  fresh = record {
    in_data = false;
    hdr_buf = replicate 24 0;
    hdr_pos = 0;
    hdr = 0;
    recv = [];
    data_pos = 0;
  };
  complete = λ m. m.in_data && m.hdr == m.data_pos;
  fresh_in_data = refl;
  fresh_hdr_pos = refl;
  fresh_hdr_buf = refl;
  fresh_data_pos = refl;
  complete_means = λ m. refl;
}

abbrev head : ℕ → List ℕ
head n = replicate 16 0 ++ n ∷ replicate 7 0

abbrev frames : List (Frame × ℕ)
frames =
    (record { head = head 2; payload = 5 ∷ 6 ∷ [] }, 2)
    ∷ (record { head = head 0; payload = [] }, 0)
    ∷ []

-- The bytes of both messages, in pieces that end within a header and within the data.
abbrev pieces : List (List ℕ)
pieces =
    take 10 (head 2) ∷ (drop 10 (head 2) ++ 5 ∷ []) ∷ (6 ∷ take 3 (head 0)) ∷ drop 3 (head 0) ∷ []

abbrev no_messages : List (Message ℕ)
no_messages = []

receive_pieces-concat_example :
    ((r : Bool × List (Message ℕ)) × (receive_msg_bytes protocol (concat pieces) no_messages
        ≡ some r))
    × (receive_pieces protocol pieces no_messages
        ≡ receive_msg_bytes protocol (concat pieces) no_messages)
unfolding BackInBounds
receive_pieces-concat_example = receive_pieces-concat protocol pieces no_messages tt

frames-AreFrames : AreFrames protocol frames
unfolding AreFrames IsFrame
frames-AreFrames = ((refl, refl, refl, omega arith), ((refl, refl, refl, omega arith), tt))

receive_pieces-frames_example :
    receive_pieces protocol pieces no_messages ≡ some (true, enqueue protocol frames no_messages)
unfolding IsReady concat bytes_of
receive_pieces-frames_example =
    receive_pieces-frames protocol frames pieces no_messages frames-AreFrames tt refl

-- The socket takes two bytes at a time.
abbrev two_bytes : ℕ → List ℕ → Answer
two_bytes k bytes = sent (min 2 (length bytes))

two_bytes_law : (k : ℕ) (bytes : List ℕ) (n : ℕ) → two_bytes k bytes ≡ sent n → n ≤ length bytes
two_bytes_law k bytes n e = ground (arith, e)

abbrev peer : Peer
peer = record {
  send_msg = (1 ∷ 2 ∷ []) ∷ (3 ∷ 4 ∷ 5 ∷ []) ∷ [];
  send_offset = 0;
  send_size = 5;
  send_bytes = 0;
  last_send = 0;
  disconnect = false;
  wire = [];
}

peer-IsSound : IsSound peer.send_msg peer
unfolding IsSound NoneEmpty OffsetWithin total_size
peer-IsSound = (omega arith, refl, (omega arith, (omega arith, tt)), omega arith)

socket_send_data-Sends_example : Sends peer.send_msg peer (socket_send_data two_bytes 7 peer)
socket_send_data-Sends_example = socket_send_data-Sends two_bytes 7 peer two_bytes_law peer-IsSound

-- The state is the list of commands that ProcessMessage has got.
abbrev environment : Environment
environment = record {
  World = List (List ℕ);
  start = 1 ∷ 2 ∷ 3 ∷ 4 ∷ [];
  max_size = 100;
  hash = λ bytes. 9 ∷ [];
  complete = λ m. m.in_data;
  disconnect = λ w. false;
  send_full = λ w. false;
  has_get_data = λ w. false;
  process_get_data = λ w. w;
  process_message = λ command bytes w. command ∷ w;
}

abbrev message : ℕ → Message Header
message checksum = record {
  in_data = true;
  hdr_buf = [];
  hdr_pos = 24;
  hdr = record {
    message_start = 1 ∷ 2 ∷ 3 ∷ 4 ∷ [];
    command = 112 ∷ 105 ∷ replicate 10 0;
    message_size = 1;
    checksum = checksum;
  };
  recv = 8 ∷ [];
  data_pos = 1;
}

abbrev arrived : List (Message Header)
arrived = message 8 ∷ message 9 ∷ []

abbrev no_commands : List (List ℕ)
no_commands = []

-- The message with the wrong checksum is skipped.
one_processed :
    process_messages environment arrived no_commands
    ≡ record { ok = true; rest = []; world = (112 ∷ 105 ∷ []) ∷ [] }
unfolding process_messages
one_processed = refl

process_messages-Ends_example :
    (r : Processed (List (List ℕ))) × Ends environment arrived
      (answer_get_data environment no_commands)
      r
    × ((process_messages environment arrived no_commands).ok ≡ r.ok)
    × ((process_messages environment arrived no_commands).world ≡ r.world)
    × (false ≡ false → (process_messages environment arrived no_commands).rest ≡ r.rest)
process_messages-Ends_example = process_messages-Ends environment arrived no_commands

get_command-new_header_example :
    (is_valid (1 ∷ []) 100 (new_header (1 ∷ []) 100 (112 ∷ 105 ∷ []) 7) ≡ true)
    × (get_command (new_header (1 ∷ []) 100 (112 ∷ 105 ∷ []) 7) ≡ 112 ∷ 105 ∷ [])
unfolding Printable
get_command-new_header_example =
    get_command-new_header (1 ∷ []) 100 (112 ∷ 105 ∷ []) 7
      (omega arith, omega arith, (omega arith, omega arith, tt)) (omega arith) (omega arith)
