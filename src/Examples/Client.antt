-- ===== src/Examples/Client.antt =====
-- The network client: bytes of two messages in three reads.
use qt_messenger.Prelude.{◌≡◌, ◌≢◌, refl, true, some, List, [], ◌∷◌, ◌++◌, Bytes, bytes}
use qt_messenger.Client.NetworkClient.{
  NetworkClient, SocketState, out_of_fuel, finished, process_buffer,
}
use qt_messenger.Client.NetworkClient.Loop.{encode, dispatch_all, process_buffer-ends}
use qt_messenger.Client.NetworkClient.Reassembly.{receive, receive-encode}
use qt_messenger.Examples.SampleQt.{sample_qt}
use qt_messenger.Examples.Messages.{hello, hello-IsSendable, cut_off, missing, hello-bytes}

abbrev pub online : NetworkClient
online = record {
  socket = some SocketState.connected;
  username = bytes "ann";
  password = bytes "pw";
  message_callback = true;
  connection_callback = true;
  disconnected_callback = true;
  user_list_callback = true;
  received_buffer = [];
  connected_flag = true;
}

-- The first message in two parts, the second behind the end of the first.
abbrev pub parts : List Bytes
parts = (7 ∷ cut_off) ∷ (missing ++ (7 ∷ [])) ∷ (cut_off ++ missing) ∷ []

pub parts-bytes :
    (7 ∷ cut_off) ++ ((missing ++ (7 ∷ [])) ++ ((cut_off ++ missing) ++ []))
    ≡ encode (hello ∷ hello ∷ [])
parts-bytes = rw hello-bytes refl

receive-encode_example :
    receive parts online ≡ (online, dispatch_all online (hello ∷ hello ∷ []), finished)
receive-encode_example =
    receive-encode parts online (hello ∷ hello ∷ []) (hello-IsSendable, (hello-IsSendable, tt)) refl
      parts-bytes

process_buffer-ends_example :
    (process_buffer (record online { received_buffer = 7 ∷ cut_off })).2 ≢ out_of_fuel
process_buffer-ends_example = process_buffer-ends (record online { received_buffer = 7 ∷ cut_off })
