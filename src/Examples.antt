-- ===== src/Examples.antt =====
-- Data for the tests: functions for the parameters, and a server with two sessions on a channel.
use robustirc.Base.{List, [], false, inl, length, nat_beq, none, some, true, ℕ, ◌∷◌}
use robustirc.Config.{default_config}
use robustirc.Dispatch.{new_reply}
use robustirc.Fsm.{Applied, Node, applied, apply_irc_from_client, message_of_death_panic}
use robustirc.Irc.{Env, Msg}
use robustirc.Modes.{ModeCmd}
use robustirc.OutputStream.{MessageBatch, OutputStream, add, max_uint64, new_output_stream}
use robustirc.Robust.{Message, RobustId}
use robustirc.Run.{OutMsg, St}
use robustirc.Server.{Channel, IrcServer, Session, new_irc_server, new_session, set_session}
use robustirc.Sessions.{update_irc_prefix}
use robustirc.Text.{Text, text}
use robustirc.TimeSafeguard.{TimeResult}
use robustirc.Robust.{MessageType}

-- The last of some texts, or the empty text.
abbrev last_text : List Text → Text
last_text [] = []
last_text (p ∷ []) = p
last_text (p ∷ q ∷ ps) = last_text (q ∷ ps)

-- Parameters that are simple functions: the trailing parameter is the last one, a command is one
-- word, and no pattern matches.
abbrev pub test_env : Env
test_env = record {
  trailing = λ msg. last_text msg.params;
  prefix_string = λ prefix. prefix.name;
  parse_message = λ line. some (record { prefix = none; command = line; params = [] });
  compile_error = λ pattern. none;
  matches = λ pattern s. false;
  quoted = λ s. s;
  captcha_url = λ base secret purpose challenge. base;
  captcha_accepts = λ secret answer activity. false;
  time_string = λ t. [];
  fnv64 = λ s. length s;
  parse_duration = λ s. inl 0;
  parse_unix = λ s. inl 0;
  parse_int = λ s. none;
}

abbrev pub id_of : ℕ → RobustId
id_of n = record { id = n; reply = 0 }

abbrev user : ℕ → Text → List Text → Session
user n nick channels =
    update_irc_prefix (record (new_session (id_of n) (text "auth") 0 0 (text "0")) {
      logged_in = true;
      nick = nick;
      username = nick;
      channels = channels;
    })

abbrev pub chan : Text
chan = text "#c"

-- Alice, at the reference 0, is the operator of the channel that Bob, at 1, is on too; Eve, at 2,
-- has not registered.
abbrev pub test_server : IrcServer
test_server = record (new_irc_server (text "net") 0) {
  heap = set_session 0 (user 1 (text "alice") (chan ∷ [])) (
      set_session 1 (user 2 (text "bob") (chan ∷ []))
        (λ r. new_session (id_of 3) (text "auth") 0 0 (text "0")));
  next_ref = 3;
  sessions = (id_of 1, 0) ∷ (id_of 2, 1) ∷ (id_of 3, 2) ∷ [];
  nicks = (text "alice", 0) ∷ (text "bob", 1) ∷ [];
  channels =
      (
        chan,
        record {
          name = chan;
          topic_nick = [];
          topic_time = 0;
          topic = [];
          nicks =
              (text "alice", record { chanop = true; voice = false })
              ∷ (text "bob", record { chanop = false; voice = false })
              ∷ [];
          modes = λ c. nat_beq c b't';
          bans = [];
        },
      )
      ∷ [];
}

abbrev pub test_state : St
test_state = record { server = test_server; reply = new_reply 9 }

abbrev pub test_msg : Text → List Text → Msg
test_msg command params = record { prefix = none; command = command; params = params }

abbrev pub kick_bob : Msg
kick_bob = test_msg (text "KICK") (chan ∷ text "bob" ∷ text "bye" ∷ [])

abbrev pub set_topic_msg : Msg
set_topic_msg = test_msg (text "TOPIC") (chan ∷ text "news" ∷ [])

abbrev pub set_secret : Msg
set_secret = test_msg (text "MODE") (chan ∷ text "+s" ∷ [])

abbrev pub kill_bob : Msg
kill_bob = test_msg (text "KILL") (text "bob" ∷ text "bye" ∷ [])

abbrev pub oper_msg : Msg
oper_msg = test_msg (text "OPER") (text "root" ∷ text "secret" ∷ [])

-- A message of the log, for the session with this id.
abbrev pub client_line : ℕ → ℕ → Message
client_line n session = record {
  id = id_of n;
  session = id_of session;
  type = MessageType.irc_from_client;
  payload = text "PING";
  unix_nano = 5;
  servers = [];
  current_master = [];
  client_message_id = 7;
  revision = 0;
  remote_addr = [];
}

abbrev pub test_out : ℕ → OutMsg
test_out n = record { id = id_of n; body = test_msg (text "PING") []; interesting_for = [] }

abbrev pub later_stream : OutputStream
later_stream = add (test_out 5) [] new_output_stream

-- The last batch of that stream, and the stream without it.
abbrev pub last_test : MessageBatch
last_test = record { first = test_out 5; rest = []; next_id = max_uint64 }

-- The remote clock is 300 ns ahead, and the measurement took 500 ns.
abbrev pub near : TimeResult
near = record { start = 1000; end = 1500; result = 1300 }

abbrev pub test_modes : List ModeCmd
test_modes =
    record { adding = false; rune = b't'; arg = [] }
    ∷ record { adding = true; rune = b'o'; arg = text "bob" }
    ∷ record { adding = true; rune = b's'; arg = [] }
    ∷ []

abbrev pub unset_topic_msg : Msg
unset_topic_msg = test_msg (text "TOPIC") (chan ∷ [] ∷ [])

abbrev pub test_channel : Channel
test_channel = record {
  name = chan;
  topic_nick = [];
  topic_time = 0;
  topic = [];
  nicks =
      (text "alice", record { chanop = true; voice = false })
      ∷ (text "bob", record { chanop = false; voice = false })
      ∷ [];
  modes = λ c. nat_beq c b't';
  bans = [];
}

abbrev pub nick_msg : Msg
nick_msg = test_msg (text "NICK") (text "NickServ" ∷ text "1" ∷ text "1" ∷ text "services" ∷ [])

-- The server with room for three sessions, which it has.
abbrev pub full_server : IrcServer
full_server = record test_server { config = record default_config { max_sessions = 3 } }

abbrev pub full_state : St
full_state = record { server = full_server; reply = new_reply 9 }

abbrev pub test_session : Session
test_session = new_session (id_of 1) (text "auth") 10 0 (text "0")

abbrev pub hello_msg : Msg
hello_msg = test_msg (text "PRIVMSG") (chan ∷ text "hello" ∷ [])

-- Eve, who has not registered, quits.
abbrev pub quit_line : Message
quit_line = record (client_line 9 3) { payload = text "QUIT" }

abbrev pub node_of : Applied → Node
node_of (applied n err) = n
node_of message_of_death_panic = record { server = test_server; output = none }

abbrev pub test_node : Node
test_node = record { server = test_server; output = some new_output_stream }

abbrev pub quit_node : Node
quit_node = node_of (apply_irc_from_client ⦃env = test_env⦄ quit_line test_node)

abbrev pub take_alice : Msg
take_alice = test_msg (text "NICK") (text "Alice" ∷ [])
