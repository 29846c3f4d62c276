-- ===== src/Tests/Api.antt =====
-- A POST of two lines, of which the first is handed to raft.
use robustirc.Api.{
  Request, before, dispatch_public, handle_post_message, hand_over, new_message, post_body,
  post_message, session, session_or_proxy, trusted_bridge, client_addr,
}
use robustirc.Api.Authentic.{IsCallOf, dispatch_public-IsCallOf}
use robustirc.Base.{Bool, Option, [], inl, nat_eq, none, refl, some, true, ℕ, ◌∷◌, ◌≡◌, ◌≢◌}
use robustirc.Base.Assoc.{lookup}
use robustirc.Examples.{id_of, test_server}
use robustirc.Robust.{Message, MessageType, id_beq, id_eq}
use robustirc.Server.{IrcServer, new_irc_server, set_session}
use robustirc.Sessions.{
  get_auth, get_session, last_post_message, throttle_session, throttle_until, update_irc_prefix,
}
use robustirc.Text.{Text, text, text_beq, text_eq}

abbrev request : Request
request = record {
  session_auth = text "auth";
  bridge_auth = [];
  forwarded_for = [];
  remote_addr = text "host";
  posted = some (record { payload = b'A' ∷ 10 ∷ b'B' ∷ []; client_message_id = 7 });
  quit_message = none;
}

abbrev parse_two : Text → Option ℕ
parse_two s = some 2

abbrev no_host : Text → Option Text
no_host s = none

abbrev posted_line : Message
posted_line = record (new_message (id_of 2) MessageType.irc_from_client (text "A")) {
  client_message_id = 7;
  remote_addr = text "host";
}

abbrev throttled : IrcServer
throttled = (throttle_until (id_of 2) 9 test_server).0

posts :
    dispatch_public parse_two no_host post_message request (text "2") true 9 (λ i. i) test_server
    ≡ (throttled, hand_over posted_line)
unfolding dispatch_public session_or_proxy session handle_post_message post_body before text_beq
    text get_auth get_session lookup id_beq set_session update_irc_prefix last_post_message
    throttle_until new_irc_server throttle_session client_addr trusted_bridge
posts = refl

dispatch_public-IsCallOf_example :
    (id : ℕ) × (parse_two (text "2") ≡ some id)
    × (text "auth" ≢ [])
    × (get_auth (record { id = id; reply = 0 }) test_server ≡ inl (text "auth"))
    × ((◌≡◌ {A = Bool} true true)
        × (posted_line.session ≡ record { id = id; reply = 0 })
        × IsCallOf post_message (record { id = id; reply = 0 }) throttled posted_line)
dispatch_public-IsCallOf_example =
    dispatch_public-IsCallOf parse_two no_host post_message request (text "2") true 9 (λ i. i)
      test_server throttled posted_line posts
