-- ===== src/FastPacket/Registration.antt =====
-- The callbacks of nmea2000_fast_packet_protocol.cpp and what the network manager hands on.
use iso11783_can_stack.Prelude.{ℕ, ◌≡◌, refl, ◌++◌, true, false, List, [], ◌∷◌, arith}
use iso11783_can_stack.FastPacket.{
  ParameterGroupNumberCallbackData, FastPacketProtocol, same_callback, erase_callback, has_pgn,
  erase_pgn, add_protocol_parameter_group_number_callback,
  remove_protocol_parameter_group_number_callback, register_multipacket_message_callback,
  remove_multipacket_message_callback,
}
use iso11783_can_stack.FastPacket.Receive.{is_wanted}

is_wanted-append :
    (pgn : ℕ) (cs : List ParameterGroupNumberCallbackData) (c : ParameterGroupNumberCallbackData)
    → c.pgn ≡ pgn
    → is_wanted pgn (cs ++ c ∷ []) ≡ true
unfolding is_wanted
is_wanted-append pgn [] c e = ground (arith, e)
is_wanted-append pgn (d ∷ cs) c e = ground (arith, is_wanted-append pgn cs c e)

-- Removing one callback leaves another one, at the end of the list, there.
is_wanted-erase_callback :
    (pgn : ℕ) (cs : List ParameterGroupNumberCallbackData) (a b : ParameterGroupNumberCallbackData)
    → b.pgn ≡ pgn
    → same_callback b a ≡ false
    → is_wanted pgn (erase_callback a (cs ++ b ∷ [])) ≡ true
unfolding erase_callback is_wanted
is_wanted-erase_callback pgn [] a b e n = ground (arith, e, n)
is_wanted-erase_callback pgn (c ∷ cs) a b e n =
    ground (arith, is_wanted-append pgn cs b e, is_wanted-erase_callback pgn cs a b e n)

erase_pgn-append :
    (pgn : ℕ) (qs : List ℕ) → has_pgn pgn qs ≡ false → erase_pgn pgn (qs ++ pgn ∷ []) ≡ qs
unfolding has_pgn erase_pgn
erase_pgn-append pgn [] h = ground arith
erase_pgn-append pgn (q ∷ qs) h = ground (arith, h, erase_pgn-append pgn qs)

has_pgn-append : (pgn : ℕ) (qs : List ℕ) → has_pgn pgn (qs ++ pgn ∷ []) ≡ true
unfolding has_pgn
has_pgn-append pgn [] = ground arith
has_pgn-append pgn (q ∷ qs) = ground (arith, has_pgn-append pgn qs)

-- Two different callbacks for one PGN that the network manager does not hand on before: after both
-- are registered it does; after the first is then removed, the second is still registered, but the
-- network manager no longer hands messages of the PGN on to the protocol.
pub remove_silences_other :
    (a b : ParameterGroupNumberCallbackData) (p : FastPacketProtocol)
    → a.pgn ≡ b.pgn
    → same_callback b a ≡ false
    → has_pgn a.pgn p.network_callbacks ≡ false
    → let both =
        register_multipacket_message_callback b (register_multipacket_message_callback a p) in
      let left = remove_multipacket_message_callback a both in
      (has_pgn b.pgn both.network_callbacks ≡ true)
      × (is_wanted b.pgn left.callbacks ≡ true)
      × (has_pgn b.pgn left.network_callbacks ≡ false)
unfolding register_multipacket_message_callback remove_multipacket_message_callback
    add_protocol_parameter_group_number_callback remove_protocol_parameter_group_number_callback
remove_silences_other a b p e n h =
    let there = has_pgn-append a.pgn p.network_callbacks in
    let gone = erase_pgn-append a.pgn p.network_callbacks h in
    (
      ground (arith, e, h, there),
      is_wanted-erase_callback b.pgn (p.callbacks ++ a ∷ []) a b refl n,
      ground (arith, e, h, there, gone),
    )
