-- ===== src/Dispatch.antt =====
-- internal/ircserver: the table of commands (the init functions of cmd_*.go and scmd_*.go) and
-- ProcessMessage of ircserver.go.
use robustirc.Base.{
  Bool, List, Option, [], elem, false, if◌then◌else◌, length, ltb, nat_eq, none, not, option_case,
  or_default, some, true, ℕ, ◌&&◌, ◌*◌, ◌++◌, ◌-◌, ◌==◌, ◌∷◌,
}
use robustirc.Base.Assoc.{Map, lookup}
use robustirc.Command.Invite.{cmd_invite}
use robustirc.Command.Join.{cmd_join}
use robustirc.Command.Login.{aliases, cmd_pass, cmd_service_alias, cmd_user}
use robustirc.Command.Message.{cmd_privmsg}
use robustirc.Command.Mode.{cmd_mode}
use robustirc.Command.Names.{cmd_list, cmd_names}
use robustirc.Command.Nick.{cmd_nick}
use robustirc.Command.Oper.{cmd_gline, cmd_kill, cmd_oper, cmd_quit}
use robustirc.Command.Part.{cmd_kick, cmd_part}
use robustirc.Command.Simple.{cmd_away, cmd_ison, cmd_knock, cmd_motd, cmd_ping, cmd_userhost}
use robustirc.Command.Topic.{cmd_topic}
use robustirc.Command.Who.{cmd_who, cmd_whois}
use robustirc.Config.{minute}
use robustirc.Handler.{Handler}
use robustirc.Irc.{Env, Msg}
use robustirc.Robust.{Message, id_eq, unix}
use robustirc.Run.{
  M, Replyctx, deref, done, gets, modify, non_nil, pure, update_session, ◌>>=◌, ◌>>◌,
}
use robustirc.Send.{bare_msg, reply_user, send_user}
use robustirc.ServerCommand.Channels.{
  cmd_server_invite, cmd_server_join, cmd_server_kick, cmd_server_part, cmd_server_svsjoin,
  cmd_server_svspart,
}
use robustirc.ServerCommand.Message.{cmd_server_privmsg, cmd_server_topic}
use robustirc.ServerCommand.Mode.{cmd_server_mode, cmd_server_svsmode}
use robustirc.ServerCommand.Nick.{cmd_server_nick, cmd_server_svsnick}
use robustirc.ServerCommand.Server.{cmd_server}
use robustirc.ServerCommand.Sessions.{cmd_server_kill, cmd_server_quit, cmd_server_svshold}
use robustirc.Sessions.{delete_session}
use robustirc.Text.{Text, text, text_eq, to_upper}

-- ircCommand
pub record IrcCommand : Type 0 where
  pub func : Handler
  pub min_params : ℕ

module _ ⦃env : Env⦄ where
  abbrev command : Handler → ℕ → IrcCommand
  command func min_params = record { func = func; min_params = min_params }

  -- Commands, for clients
  unfoldable pub client_commands : Map Text IrcCommand
  client_commands =
      (text "AWAY", command cmd_away 0)
      ∷ (text "GLINE", command cmd_gline 2)
      ∷ (text "INVITE", command cmd_invite 2)
      ∷ (text "ISON", command cmd_ison 1)
      ∷ (text "JOIN", command cmd_join 1)
      ∷ (text "KICK", command cmd_kick 2)
      ∷ (text "KILL", command cmd_kill 2)
      ∷ (text "KNOCK", command cmd_knock 1)
      ∷ (text "LIST", command cmd_list 0)
      ∷ (text "MODE", command cmd_mode 1)
      ∷ (text "MOTD", command cmd_motd 0)
      ∷ (text "NAMES", command cmd_names 0)
      ∷ (text "NICK", command cmd_nick 0)
      ∷ (text "OPER", command cmd_oper 2)
      ∷ (text "PART", command cmd_part 1)
      ∷ (text "PASS", command cmd_pass 0)
      ∷ (text "PING", command cmd_ping 0)
      ∷ (text "PRIVMSG", command cmd_privmsg 0)
      ∷ (text "NOTICE", command cmd_privmsg 0)
      ∷ (text "QUIT", command cmd_quit 0)
      ∷ (text "TOPIC", command cmd_topic 1)
      ∷ (text "USER", command cmd_user 3)
      ∷ (text "USERHOST", command cmd_userhost 1)
      ∷ (text "WHO", command cmd_who 0)
      ∷ (text "WHOIS", command cmd_whois 1)
      ∷ (text "SERVER", command cmd_server 2)
      ∷ []

  -- Commands, the aliases of the services
  unfoldable pub alias_commands : List (Text × Text) → Map Text IrcCommand
  alias_commands [] = []
  alias_commands ((alias, _) ∷ rest) = (alias, command cmd_service_alias 0) ∷ alias_commands rest

  -- Commands, for the services: the keys with the prefix server_
  unfoldable pub server_commands : Map Text IrcCommand
  server_commands =
      (text "server_INVITE", command cmd_server_invite 2)
      ∷ (text "server_JOIN", command cmd_server_join 0)
      ∷ (text "server_KICK", command cmd_server_kick 2)
      ∷ (text "server_KILL", command cmd_server_kill 1)
      ∷ (text "server_MODE", command cmd_server_mode 0)
      ∷ (text "server_NICK", command cmd_server_nick 0)
      ∷ (text "server_PART", command cmd_server_part 0)
      ∷ (text "server_PING", command cmd_ping 0)
      ∷ (text "server_PRIVMSG", command cmd_server_privmsg 0)
      ∷ (text "server_NOTICE", command cmd_server_privmsg 0)
      ∷ (text "server_QUIT", command cmd_server_quit 0)
      ∷ (text "server_SVSHOLD", command cmd_server_svshold 1)
      ∷ (text "server_SVSJOIN", command cmd_server_svsjoin 2)
      ∷ (text "server_SVSMODE", command cmd_server_svsmode 2)
      ∷ (text "server_SVSNICK", command cmd_server_svsnick 2)
      ∷ (text "server_SVSPART", command cmd_server_svspart 2)
      ∷ (text "server_TOPIC", command cmd_server_topic 3)
      ∷ []

  unfoldable pub commands : Map Text IrcCommand
  commands = client_commands ++ (alias_commands aliases ++ server_commands)

  -- the commands of a client that has not logged in
  abbrev pub before_login : List Text
  before_login = text "NICK" ∷ text "USER" ∷ text "PASS" ∷ text "QUIT" ∷ text "SERVER" ∷ []

  -- what a client that has not registered gets for any other command
  unfoldable pub not_registered : ℕ → Text → M (Unit {0})
  not_registered s cmd = do
    u ← deref s
    reply_user s (text "451") (cmd ∷ text "You have not registered" ∷ [])
    if not (ltb (10 * minute) (u.last_activity - unix u.created)) then done else do
      send_user s (
          bare_msg (text "ERROR")
            (text "Closing Link: You have not registered within 10 minutes" ∷ []))
      modify (delete_session s)

  unfoldable pub run_command : ℕ → Msg → Text → IrcCommand → M (Unit {0})
  run_command s ircmsg cmd c = do
    u ← deref s
    if ltb (length ircmsg.params) c.min_params
        then reply_user s (text "461") (u.nick ∷ cmd ∷ text "Not enough parameters" ∷ [])
        else c.func s ircmsg

  -- From the test of s.loggedIn on.
  unfoldable pub dispatch : ℕ → Msg → Text → M (Unit {0})
  dispatch s ircmsg cmd = do
    u ← deref s
    if not u.logged_in && not u.server && not (elem cmd before_login)
        then not_registered s cmd
        else option_case (lookup (if u.server then text "server_" ++ cmd else cmd) commands)
            (reply_user s (text "421") (u.nick ∷ cmd ∷ text "Unknown command" ∷ []))
            (λ c. run_command s ircmsg cmd c)

  -- The remote address is new: note it, and whether the session is banned and deleted.
  unfoldable pub note_remote_addr : ℕ → Text → M Bool
  note_remote_addr s remote_addr = do
    update_session s (λ u. record u { remote_addr = remote_addr })
    i ← gets (λ i. i)
    let reason = or_default [] (lookup remote_addr i.config.banned)
    if reason == [] then pure false else do
      send_user s (
          bare_msg (text "ERROR")
            ((text "Closing Link: You are banned (" ++ (reason ++ text ")")) ∷ []))
      modify (delete_session s)
      pure true

  unfoldable pub check_remote_addr : ℕ → Text → M Bool
  check_remote_addr s remote_addr = do
    u ← deref s
    if not (remote_addr == []) && not (remote_addr == u.remote_addr)
        then note_remote_addr s remote_addr
        else pure false

  unfoldable pub process_session : ℕ → Message → Option Msg → M (Unit {0})
  process_session s msg none = do
    u ← deref s
    reply_user s (text "421") (u.nick ∷ text "Unknown command" ∷ [])
  process_session s msg (some ircmsg) = do
    banned ← check_remote_addr s msg.remote_addr
    if banned then done else dispatch s ircmsg (to_upper ircmsg.command)

  -- ProcessMessage; a nil session is dereferenced on every path
  unfoldable pub process_message : Message → Option Msg → M (Unit {0})
  process_message msg ircmsg = do
    found ← gets (λ i. lookup msg.session i.sessions)
    s ← non_nil found
    process_session s msg ircmsg

-- &Replyctx{msgid: msgid}
unfoldable pub new_reply : ℕ → Replyctx
new_reply msgid = record { msgid = msgid; replyid = 0; messages = []; lastmsg = none; next_msg = 0 }
