-- ===== src/Tests/Wire.antt =====
-- Messages in both encodings, and what the filters show of them.
use robustirc.Base.{[], inr, refl, some, ◌∷◌, ◌≡◌}
use robustirc.Examples.{client_line, id_of, test_env, test_msg}
use robustirc.Irc.{Env, Msg}
use robustirc.Privacy.{filter_msg, privacy_filter}
use robustirc.Privacy.Hidden.{filters-hide}
use robustirc.Robust.{Message}
use robustirc.Text.{Text, text}
use robustirc.Wire.{IsLosslessWire, ProtoMessage, RaftLog, Stored, Wire}
use mathlib.Core.Option

-- Encoders that write the values themselves.
abbrev pub plain_wire : Wire
plain_wire = record {
  MessageBytes = ProtoMessage;
  MessageJson = Message;
  encode_message = λ m. m;
  decode_message = λ m. some m;
  encode_json_message = λ m. m;
  decode_json_message = λ m. some m;
  LogBytes = RaftLog (Stored ProtoMessage Message);
  LogJson = RaftLog (Stored ProtoMessage Message);
  encode_log = λ l. l;
  decode_log = λ l. some l;
  encode_json_log = λ l. l;
  decode_json_log = λ l. some l;
}

pub plain-IsLosslessWire : IsLosslessWire plain_wire
plain-IsLosslessWire = record {
  message = λ p. refl;
  json_message = λ m. refl;
  log = λ l. refl;
  json_log = λ l. refl;
}

-- A line is a message of the command PASS with itself as parameter.
abbrev pass_env : Env
pass_env = record test_env { parse_message = λ line. some (test_msg (text "PASS") (line ∷ [])) }

abbrev last_of : Msg → Text
last_of msg = test_env.trailing msg

abbrev other_line : Message
other_line = record (client_line 9 3) { payload = text "secret" }

filters-hide_example :
    (privacy_filter ⦃env = pass_env⦄ last_of (client_line 1 2)
      ≡ privacy_filter ⦃env = pass_env⦄ last_of other_line)
    × (filter_msg ⦃env = pass_env⦄ last_of other_line
        ≡ Option.map
            (λ (r : Message). record r { id = id_of 9; session = id_of 3; type = other_line.type })
            (filter_msg ⦃env = pass_env⦄ last_of (client_line 1 2)))
filters-hide_example =
    filters-hide ⦃env = pass_env⦄ last_of (test_msg (text "PASS") []) [] (client_line 1 2)
      other_line (text "PING") (text "secret") (inr (inr refl)) refl refl refl refl
