-- ===== src/Examples/Requests.antt =====
-- Runs of the request protocol of an internal control function.
use iso11783_can_stack.Prelude.{
  true, false, ℕ, ◌≡◌, ◌↔◌, ◌<◌, ◌^◌, refl, some, none, [], ◌∷◌, arith,
}
use iso11783_can_stack.Message.{CanMessage}
use iso11783_can_stack.Identifier.{get_parameter_group_number}
use iso11783_can_stack.Network.{Frame, sent}
use iso11783_can_stack.PgnRequest.{
  CallbackInfo, RequestProtocol, Application, Reply, positive, negative, contains, same_info,
  requested_pgn, request_bytes, register_pgn_request_callback, remove_pgn_request_callback,
  process_message, register_request_for_repetition_rate_callback,
  remove_request_for_repetition_rate_callback,
}
use iso11783_can_stack.PgnRequest.Registry.{
  AreDistinct, IsDistinct, register-remove, registry-AreDistinct,
}
use iso11783_can_stack.PgnRequest.Requests.{
  Answers, not_asked, processes, requested_pgn-request_bytes, request_answered,
}
use iso11783_can_stack.Examples.{bus}

abbrev for_pgn : ℕ → CallbackInfo
for_pgn pgn = record { function = some 5; pgn = pgn; parent = none }

abbrev protocol : RequestProtocol
protocol = record {
  control_function = some 0;
  request_callbacks = for_pgn 0xFEE5 ∷ for_pgn 0xFEDA ∷ [];
  rate_callbacks = [];
}

absent : contains (for_pgn 0xFECA) protocol.request_callbacks ≡ false
unfolding contains same_info
absent = refl

absent_rate : contains (for_pgn 0xFECA) protocol.rate_callbacks ≡ false
unfolding contains
absent_rate = refl

register-remove_example :
    let (ok, p') = register_pgn_request_callback (for_pgn 0xFECA) protocol in
    let (ok', q) = register_request_for_repetition_rate_callback (for_pgn 0xFECA) protocol in
    (ok ≡ true)
    × (register_pgn_request_callback (for_pgn 0xFECA) p' ≡ (false, p'))
    × (remove_pgn_request_callback (for_pgn 0xFECA) p' ≡ (true, protocol))
    × (ok' ≡ true)
    × (register_request_for_repetition_rate_callback (for_pgn 0xFECA) q ≡ (false, q))
    × (remove_request_for_repetition_rate_callback (for_pgn 0xFECA) q ≡ (true, protocol))
register-remove_example = register-remove (for_pgn 0xFECA) protocol refl absent absent_rate

protocol-AreDistinct : AreDistinct protocol
unfolding IsDistinct contains same_info
protocol-AreDistinct = ((refl, (refl, tt)), tt)

registry-AreDistinct_example :
    AreDistinct (register_pgn_request_callback (for_pgn 0xFEE5) protocol).1
    × AreDistinct (register_request_for_repetition_rate_callback (for_pgn 0xFEE5) protocol).1
    × AreDistinct (remove_pgn_request_callback (for_pgn 0xFEE5) protocol).1
    × AreDistinct (remove_request_for_repetition_rate_callback (for_pgn 0xFEE5) protocol).1
registry-AreDistinct_example = registry-AreDistinct (for_pgn 0xFEE5) protocol protocol-AreDistinct

requested_pgn-request_bytes_example :
    (requested_pgn (request_bytes 0x1F004) ≡ 0x1F004) ↔ (0x1F004 < 2 ^ 16)
requested_pgn-request_bytes_example = requested_pgn-request_bytes 0x1F004 (omega arith)

abbrev acknowledged : Reply
acknowledged = record { should_acknowledge = true; type = positive }

abbrev obliging : Application
obliging = record {
  handle_request = λ c pgn source r. (true, acknowledged);
  handle_rate = λ c pgn source rate. false;
}

-- A request for 0xFEDA from the implement to the tractor.
abbrev request : CanMessage
request = record {
  bytes = request_bytes 0xFEDA;
  source = some 1;
  destination = some 0;
  identifier = 0x18EA_1C26;
  port = 0;
  callback_message_size = 0;
}

request-pgn : get_parameter_group_number request.identifier ≡ 0xEA00
unfolding get_parameter_group_number
request-pgn = refl

second_processes :
    Answers obliging 0xFEDA request.source protocol.request_callbacks
      (record { should_acknowledge = false; type = negative })
      (some acknowledged)
second_processes =
    not_asked (for_pgn 0xFEE5) refl refl (processes (for_pgn 0xFEDA) acknowledged refl refl)

abbrev acknowledgement : Frame
acknowledgement = record {
  identifier = 0x18E8_FF1C;
  channel = 0;
  bytes = 0 ∷ 0xFF ∷ 0xFF ∷ 0xFF ∷ 0x26 ∷ 0xDA ∷ 0xFE ∷ 0 ∷ [];
  is_extended = true;
}

request_answered_example :
    (process_message (bus 0) obliging protocol request []).1 ≡ sent acknowledgement true ∷ []
request_answered_example =
    request_answered (bus 0) (λ log f. refl) 0 1 (omega arith) (omega arith) 0xFEDA (omega arith)
      obliging protocol request [] request-pgn refl refl refl refl second_processes
