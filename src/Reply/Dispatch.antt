-- ===== src/Reply/Dispatch.antt =====
-- ProcessMessage numbers its messages.
use robustirc.Base.{
  Bool-cases, List, Option, [], inl, inr, nat_eq, none, option_case, refl, some, ℕ, ◌++◌, ◌∷◌,
}
use robustirc.Base.Assoc.{Map, lookup}
use robustirc.Command.Login.{aliases}
use robustirc.Dispatch.{
  IrcCommand, alias_commands, check_remote_addr, client_commands, commands, dispatch, new_reply,
  not_registered, note_remote_addr, process_message, process_session, run_command, server_commands,
}
use robustirc.Irc.{Env, Msg}
use robustirc.Reply.Commands.{
  Keeps-cmd_away, Keeps-cmd_gline, Keeps-cmd_ison, Keeps-cmd_kill, Keeps-cmd_knock, Keeps-cmd_list,
  Keeps-cmd_mode, Keeps-cmd_motd, Keeps-cmd_names, Keeps-cmd_oper, Keeps-cmd_ping,
  Keeps-cmd_privmsg, Keeps-cmd_quit, Keeps-cmd_topic, Keeps-cmd_userhost, Keeps-cmd_who,
  Keeps-cmd_whois,
}
use robustirc.Reply.Login.{
  Keeps-cmd_invite, Keeps-cmd_join, Keeps-cmd_kick, Keeps-cmd_nick, Keeps-cmd_part, Keeps-cmd_pass,
  Keeps-cmd_service_alias, Keeps-cmd_user,
}
use robustirc.Reply.Send.{IsNumbered, Keeps-reply_user, reply_rules}
use robustirc.Reply.Services.{
  Keeps-cmd_server, Keeps-cmd_server_invite, Keeps-cmd_server_join, Keeps-cmd_server_kick,
  Keeps-cmd_server_kill, Keeps-cmd_server_mode, Keeps-cmd_server_nick, Keeps-cmd_server_part,
  Keeps-cmd_server_privmsg, Keeps-cmd_server_quit, Keeps-cmd_server_svshold,
  Keeps-cmd_server_svsjoin, Keeps-cmd_server_svsmode, Keeps-cmd_server_svsnick,
  Keeps-cmd_server_svspart, Keeps-cmd_server_topic,
}
use robustirc.Robust.{Message, id_eq}
use robustirc.Run.{M}
use robustirc.Run.Keeps.{After, Keeps, Keeps-bind, Keeps-deref, Keeps-if}
use robustirc.Server.{IrcServer}
use robustirc.Text.{Text, text_beq, text_eq}

module _ ⦃env : Env⦄ where
  -- Every entry of a table of commands numbers its messages.
  abbrev NumberingTable : ℕ → Map Text IrcCommand → Type 0
  NumberingTable msgid [] = Unit
  NumberingTable msgid ((name, c) ∷ table) =
      ((s : ℕ) (msg : Msg) → Keeps (IsNumbered msgid) (c.func s msg)) × NumberingTable msgid table

module _ ⦃env : Env⦄ (msgid : ℕ) where
  NumberingTable-append :
      (t u : Map Text IrcCommand)
      → NumberingTable msgid t
      → NumberingTable msgid u
      → NumberingTable msgid (t ++ u)
  NumberingTable-append [] u h k = k
  NumberingTable-append ((name, c) ∷ t) u h k = (h.0, NumberingTable-append t u h.1 k)

  NumberingTable-client : NumberingTable msgid client_commands
  unfolding client_commands
  NumberingTable-client = (
    Keeps-cmd_away,
    (
      Keeps-cmd_gline,
      (
        Keeps-cmd_invite,
        (
          Keeps-cmd_ison,
          (
            Keeps-cmd_join,
            (
              Keeps-cmd_kick,
              (
                Keeps-cmd_kill,
                (
                  Keeps-cmd_knock,
                  (
                    Keeps-cmd_list,
                    (
                      Keeps-cmd_mode,
                      (
                        Keeps-cmd_motd,
                        (
                          Keeps-cmd_names,
                          (
                            Keeps-cmd_nick,
                            (
                              Keeps-cmd_oper,
                              (
                                Keeps-cmd_part,
                                (
                                  Keeps-cmd_pass,
                                  (
                                    Keeps-cmd_ping,
                                    (
                                      Keeps-cmd_privmsg,
                                      (
                                        Keeps-cmd_privmsg,
                                        (
                                          Keeps-cmd_quit,
                                          (
                                            Keeps-cmd_topic,
                                            (
                                              Keeps-cmd_user,
                                              (
                                                Keeps-cmd_userhost,
                                                (
                                                  Keeps-cmd_who,
                                                  (Keeps-cmd_whois, (Keeps-cmd_server, (tt))),
                                                ),
                                              ),
                                            ),
                                          ),
                                        ),
                                      ),
                                    ),
                                  ),
                                ),
                              ),
                            ),
                          ),
                        ),
                      ),
                    ),
                  ),
                ),
              ),
            ),
          ),
        ),
      ),
    ),
  )

  NumberingTable-alias : (names : List (Text × Text)) → NumberingTable msgid (alias_commands names)
  unfolding alias_commands
  NumberingTable-alias [] = tt
  NumberingTable-alias ((alias, expanded) ∷ names) =
      (Keeps-cmd_service_alias, NumberingTable-alias names)

  NumberingTable-server : NumberingTable msgid server_commands
  unfolding server_commands
  NumberingTable-server = (
    Keeps-cmd_server_invite,
    (
      Keeps-cmd_server_join,
      (
        Keeps-cmd_server_kick,
        (
          Keeps-cmd_server_kill,
          (
            Keeps-cmd_server_mode,
            (
              Keeps-cmd_server_nick,
              (
                Keeps-cmd_server_part,
                (
                  Keeps-cmd_ping,
                  (
                    Keeps-cmd_server_privmsg,
                    (
                      Keeps-cmd_server_privmsg,
                      (
                        Keeps-cmd_server_quit,
                        (
                          Keeps-cmd_server_svshold,
                          (
                            Keeps-cmd_server_svsjoin,
                            (
                              Keeps-cmd_server_svsmode,
                              (
                                Keeps-cmd_server_svsnick,
                                (Keeps-cmd_server_svspart, (Keeps-cmd_server_topic, (tt))),
                              ),
                            ),
                          ),
                        ),
                      ),
                    ),
                  ),
                ),
              ),
            ),
          ),
        ),
      ),
    ),
  )

  NumberingTable-commands : NumberingTable msgid commands
  unfolding commands
  NumberingTable-commands = NumberingTable-append client_commands _ NumberingTable-client (
      NumberingTable-append (alias_commands aliases) server_commands (NumberingTable-alias aliases)
        NumberingTable-server)

  Keeps-run_command :
      (s : ℕ) (msg : Msg) (cmd : Text) (c : IrcCommand)
      → ((s : ℕ) (msg : Msg) → Keeps (IsNumbered msgid) (c.func s msg))
      → Keeps (IsNumbered msgid) (run_command s msg cmd c)
  unfolding run_command
  Keeps-run_command s msg cmd c k =
      Keeps-bind _ _ (Keeps-deref s) (λ u. Keeps-if _ _ _ (Keeps-reply_user s _ _) (k s msg))

  -- a command of the table, or the reply for an unknown one
  Keeps-entry :
      (s : ℕ) (msg : Msg) (cmd name : Text) (unknown : M (Unit {0})) (table : Map Text IrcCommand)
      → Keeps (IsNumbered msgid) unknown
      → NumberingTable msgid table
      → Keeps (IsNumbered msgid) (option_case (lookup name table) unknown (run_command s msg cmd))
  unfolding lookup
  Keeps-entry s msg cmd name unknown [] k h = k
  Keeps-entry s msg cmd name unknown ((other, c) ∷ table) k h =
      elim (Bool-cases (text_beq other name)) [
        | inl e ↦ rw e (Keeps-run_command s msg cmd c h.0)
        | inr e ↦ rw e (Keeps-entry s msg cmd name unknown table k h.1)
      ]

  Keeps-not_registered : (s : ℕ) (cmd : Text) → Keeps (IsNumbered msgid) (not_registered s cmd)
  unfolding not_registered
  Keeps-not_registered s cmd = search reply_rules depth 12

  Keeps-dispatch : (s : ℕ) (msg : Msg) (cmd : Text) → Keeps (IsNumbered msgid) (dispatch s msg cmd)
  unfolding dispatch
  Keeps-dispatch s msg cmd = Keeps-bind _ _ (Keeps-deref s) (λ u.
      Keeps-if _ _ _ (Keeps-not_registered s cmd)
        (Keeps-entry s msg cmd _ _ commands (Keeps-reply_user s _ _) NumberingTable-commands))

  Keeps-check_remote_addr :
      (s : ℕ) (remote_addr : Text) → Keeps (IsNumbered msgid) (check_remote_addr s remote_addr)
  unfolding check_remote_addr note_remote_addr
  Keeps-check_remote_addr s remote_addr = search reply_rules depth 12

  Keeps-process_session :
      (s : ℕ) (msg : Message) (ircmsg : Option Msg)
      → Keeps (IsNumbered msgid) (process_session s msg ircmsg)
  unfolding process_session
  Keeps-process_session s msg none = search reply_rules depth 12
  Keeps-process_session s msg (some ircmsg) =
      search (reply_rules, Keeps-check_remote_addr, Keeps-dispatch) depth 12

  Keeps-process_message :
      (msg : Message) (ircmsg : Option Msg) → Keeps (IsNumbered msgid) (process_message msg ircmsg)
  unfolding process_message
  Keeps-process_message msg ircmsg = search (reply_rules, Keeps-process_session) depth 12

-- Whatever the message, the command and the state of the server: if ProcessMessage does not panic,
-- the messages of its reply are numbered 1, 2, … (modulo 2 ^ 64) in the order in which they were
-- sent, all under the id of the input message, and replyid is their number.
pub process_message-IsNumbered :
    ⦃env : Env⦄ (msg : Message) (ircmsg : Option Msg) (i : IrcServer)
    → After
        (IsNumbered msg.id.id)
        (process_message msg ircmsg (record { server = i; reply = new_reply msg.id.id }))
process_message-IsNumbered msg ircmsg i =
    (Keeps-process_message msg.id.id msg ircmsg).at _
      (unfold new_reply in record { same_input = refl; counted = refl; numbered = tt })
