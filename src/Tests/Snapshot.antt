-- ===== src/Tests/Snapshot.antt =====
-- A snapshot of a server with a session that has a nickname, one that has none, a channel and a
-- held nickname. The index has lost the nickname, and the list of services holds one that has quit.
use robustirc.Base.{
  [], arith, elem, inl, inr, list_case, nat_beq, refl, some, true, ℕ, ◌+◌, ◌∷◌, ◌≡◌,
}
use robustirc.Examples.{chan, id_of, test_channel, test_env}
use robustirc.Irc.{Env}
use robustirc.Robust.{id_beq, id_eq, unix_epoch}
use robustirc.Server.{IrcServer, Session, new_irc_server, new_session, set_session}
use robustirc.Snapshot.{Encoding, ServerSnapshot}
use robustirc.Snapshot.Copy.{IsCopy, IsLossless, IsStorable, IsStorableSession}
use robustirc.Snapshot.Decode.{restored, unmarshal}
use robustirc.Snapshot.Encode.{marshal}
use robustirc.Snapshot.RoundTrip.{unmarshal-marshal}
use robustirc.Text.{lower, text, text_beq, text_eq, to_lower}
use robustirc.Text.Case.{chan_to_lower, nick_to_lower}

-- A duration is written as the one code point of that number.
abbrev pub plain_env : Env
plain_env = record test_env { parse_duration = λ s. list_case s (inr []) (λ d rest. inl d) }

abbrev pub plain_encoding : Encoding
plain_encoding = record {
  Bytes = ServerSnapshot;
  encode = λ s. s;
  decode = λ s. some s;
  duration_string = λ d. d ∷ [];
  hex_encode = λ s. s;
  hex_decode = λ s. some s;
}

plain-IsLossless : IsLossless plain_encoding plain_env
plain-IsLossless = record {
  decode_encode = λ s. refl;
  parse_duration_string = λ d h. refl;
  hex_decode_encode = λ bytes. refl;
}

abbrev start : ℕ
start = unix_epoch + 5

abbrev alice : Session
alice = record (new_session (id_of 1) (text "auth") start 5 (text "0")) {
  logged_in = true;
  nick = text "alice";
  channels = chan ∷ [];
  modes = λ c. nat_beq c b'i';
}

abbrev stored_server : IrcServer
stored_server = record (new_irc_server (text "net") 0) {
  heap = set_session 0 alice (λ r. new_session (id_of 2) (text "auth") start 5 (text "0"));
  next_ref = 2;
  sessions = (id_of 1, 0) ∷ (id_of 2, 1) ∷ [];
  server_sessions = 9 ∷ [];
  channels = (chan, test_channel) ∷ [];
  svsholds = (text "bob", record { added = start; duration = 9; reason = [] }) ∷ [];
}

alice-IsStorable : IsStorableSession (id_of 1) alice
unfolding chan_to_lower elem text to_lower lower
alice-IsStorable = record {
  own_id = refl;
  live = refl;
  was_created = omega arith;
  activity = inr (omega arith, omega arith);
  non_ping = inr (omega arith, omega arith);
  not_zero = λ e. omega arith;
  captcha = inl refl;
  letters = λ c h. (ground arith, ground arith);
  on_channels = ((refl, tt), (refl, tt));
  invitations = (tt, tt);
}

eve-IsStorable :
    IsStorableSession (id_of 2) (new_session (id_of 2) (text "auth") start 5 (text "0"))
eve-IsStorable = record {
  own_id = refl;
  live = refl;
  was_created = omega arith;
  activity = inr (omega arith, omega arith);
  non_ping = inr (omega arith, omega arith);
  not_zero = λ e. omega arith;
  captcha = inl refl;
  letters = λ c h. cc;
  on_channels = (tt, tt);
  invitations = (tt, tt);
}

stored_server-IsStorable : IsStorable ⦃env = plain_env⦄ stored_server
unfolding elem chan_to_lower nick_to_lower set_session new_irc_server text_beq text to_lower lower
    id_beq
stored_server-IsStorable = record {
  each_session = (alice-IsStorable, (eve-IsStorable, tt));
  session_ids = (refl, (refl, tt));
  each_channel = (
    (
      refl,
      inl refl,
      (λ c h. (ground arith, ground arith)),
      ((refl, (refl, tt)), (refl, (refl, tt))),
      tt,
    ),
    tt,
  );
  channel_keys = (refl, tt);
  each_hold = (inr (omega arith, omega arith), omega arith, tt);
  hold_keys = ((refl, tt), (refl, tt));
  expiration = omega arith;
  cooloff = omega arith;
}

unmarshal-marshal_example :
    (j : IrcServer) × (unmarshal ⦃env = plain_env⦄ ⦃enc = plain_encoding⦄
        (marshal ⦃enc = plain_encoding⦄ 7 stored_server)
        (new_irc_server (text "net") 0)
      ≡ restored 7 j)
    × IsCopy stored_server j
unmarshal-marshal_example =
    unmarshal-marshal ⦃env = plain_env⦄ ⦃enc = plain_encoding⦄ stored_server (text "net") 0 7
      plain-IsLossless stored_server-IsStorable
