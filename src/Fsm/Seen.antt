-- ===== src/Fsm/Seen.antt =====
-- statemachine.go and getSessionLocked of ircserver.go: what a node says of a session that is gone.
use robustirc.Base.{Option, ap, arith, inr, nat_eq, none, some, sym, ℕ, ◌∙◌, ◌≡◌}
use robustirc.Base.Assoc.{lookup}
use robustirc.Fsm.{Applied, Node, applied, apply_irc_from_client, message_of_death_panic, process}
use robustirc.Fsm.Log.{finish}
use robustirc.Irc.{Env, Msg}
use robustirc.Robust.{Message, RobustId, id_eq}
use robustirc.Run.{Res, ok, panic}
use robustirc.Server.{IrcServer}
use robustirc.Sessions.{
  SessionError, get_session, maybe_delete_session, session_not_yet_seen, set_last_processed,
  update_last_client_message_id,
}
use robustirc.Text.{text_eq}
use mathlib.Core.Path.{subst}

abbrev Ends : Applied → RobustId → Type 0
Ends (applied n err) last = (n.server.last_processed ≡ last)
Ends message_of_death_panic last = Unit

last-kept :
    (session : RobustId) (i : IrcServer)
    → (maybe_delete_session session i).last_processed ≡ i.last_processed
unfolding maybe_delete_session
last-kept session i = ground arith

finish-Ends :
    (msg : Message) (last : RobustId) (n : Node) (r : Res (Unit {0}))
    → Ends (finish msg last n r) last
unfolding set_last_processed
finish-Ends msg last n panic = tt
finish-Ends msg last n (ok a st) = last-kept msg.session (set_last_processed last st.server)

module _ ⦃env : Env⦄ (msg : Message) (n : Node) where
  process-Ends :
      (ircmsg : Option Msg) (last : RobustId) (i : IrcServer)
      → Ends (process msg ircmsg last (record n { server = i })) last
  unfolding process
  process-Ends ircmsg last i = finish-Ends msg last (record n { server = i }) _

  client-process :
      (r : ℕ)
      → lookup msg.session n.server.sessions ≡ some r
      → apply_irc_from_client msg n
        ≡ process msg
            (env.parse_message msg.payload)
            (record { id = msg.session.id; reply = 0 })
            (record n { server = (update_last_client_message_id msg n.server).0 })
  unfolding apply_irc_from_client update_last_client_message_id get_session
  client-process r e = ground (arith, e)

not_yet_seen :
    (id : RobustId) (i : IrcServer)
    → lookup id i.sessions ≡ none
    → i.last_processed ≡ record { id = id.id; reply = 0 }
    → get_session id i ≡ inr session_not_yet_seen
unfolding get_session
not_yet_seen id i e last = ground (arith, e, ap (λ (x : RobustId). x.id) last)

-- A session that ends itself by a message of its own (QUIT, for one): once the message is applied
-- and the session is no longer in the map, the node calls the session not yet seen, and not gone,
-- whatever the id of the message.
pub client-not_yet_seen :
    ⦃env : Env⦄ (msg : Message) (n n' : Node) (err : Option SessionError) (r : ℕ)
    → lookup msg.session n.server.sessions ≡ some r
    → apply_irc_from_client msg n ≡ applied n' err
    → lookup msg.session n'.server.sessions ≡ none
    → get_session msg.session n'.server ≡ inr session_not_yet_seen
client-not_yet_seen ⦃env⦄ msg n n' err r e run gone = not_yet_seen msg.session n'.server gone (
    subst (λ (a : Applied). Ends a (record { id = msg.session.id; reply = 0 }))
      (sym (client-process msg n r e) ∙ run)
      (process-Ends msg n (env.parse_message msg.payload) _
        (update_last_client_message_id msg n.server).0))
