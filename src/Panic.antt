-- ===== src/Panic.antt =====
-- cmd_topic.go, scmd_nick.go and scmd_svsnick.go: inputs on which a handler panics or leaves a
-- nickname without an entry.
use robustirc.Base.{
  [], arith, false, get_elem?, length, nat_beq, nat_eq, none, refl, some, true, ℕ, ◌<◌, ◌∙◌, ◌≡◌,
  ◌≤◌,
}
use robustirc.Base.Assoc.{insert, lookup, lookup-delete}
use robustirc.Command.Topic.{cmd_topic, topic_locked, topic_of, unset_topic}
use robustirc.Irc.{Env, Msg}
use robustirc.Robust.{RobustId, id_eq}
use robustirc.Run.{M, St, crash, deref, gets, modify, non_nil, panic, param, pure, ◌>>=◌}
use robustirc.Send.{find_channel, find_nick, is_chanop}
use robustirc.Server.{Channel, IrcServer, set_session}
use robustirc.ServerCommand.Nick.{cmd_server_nick, introduce, svs_change_nick}
use robustirc.Sessions.{update_irc_prefix}
use robustirc.Sessions.Create.{create-full, is_full}
use robustirc.Text.{Text, text_beq, text_beq_iff, text_eq}
use robustirc.Text.Case.{chan_to_lower, nick_to_lower}

module _ ⦃env : Env⦄ where
  topic_locked-panic :
      (c : Channel) (nick : Text) (st : St)
      → c.modes b't' ≡ true
      → lookup (nick_to_lower nick) c.nicks ≡ none
      → topic_locked c nick st ≡ panic
  unfolding topic_locked is_chanop ◌>>=◌ non_nil pure crash
  topic_locked-panic c nick st locked outside = rw (locked, outside) refl

  bind-panic :
      {A B : Type 0} (m : M A) (f : A → M B) (st : St) → m st ≡ panic → (m >>= f) st ≡ panic
  unfolding ◌>>=◌
  bind-panic m f st e = rw e refl

  unset_topic-panic :
      (s : ℕ) (msg : Msg) (name : Text) (c : Channel) (st : St)
      → c.modes b't' ≡ true
      → lookup (nick_to_lower (st.server.heap s).nick) c.nicks ≡ none
      → unset_topic s msg name c st ≡ panic
  unfolding unset_topic ◌>>=◌ deref gets
  unset_topic-panic s msg name c st locked outside =
      bind-panic (topic_locked c (st.server.heap s).nick) _ st
        (topic_locked-panic c (st.server.heap s).nick st locked outside)

  topic_of-panic :
      (s : ℕ) (msg : Msg) (name : Text) (c : Channel) (st : St)
      → env.trailing msg ≡ []
      → length msg.params ≡ 2
      → unset_topic s msg name c st ≡ panic
      → topic_of s msg name c st ≡ panic
  unfolding topic_of ◌>>=◌ deref gets text_beq
  topic_of-panic s msg name c st empty two e = rw (empty, two) e

  -- TOPIC with an empty second parameter, sent by a session that is not on the channel: if the
  -- channel has mode +t, the handler panics.
  pub cmd_topic-panic :
      (s : ℕ) (msg : Msg) (st : St) (name : Text) (c : Channel)
      → get_elem? msg.params 0 ≡ some name
      → length msg.params ≡ 2
      → env.trailing msg ≡ []
      → lookup (chan_to_lower name) st.server.channels ≡ some c
      → c.modes b't' ≡ true
      → lookup (nick_to_lower (st.server.heap s).nick) c.nicks ≡ none
      → cmd_topic s msg st ≡ panic
  unfolding cmd_topic ◌>>=◌ param non_nil pure find_channel gets
  cmd_topic-panic s msg st name c named two empty found locked outside =
      rw (named, found)
        (topic_of-panic s msg name c st empty two
          (unset_topic-panic s msg name c st locked outside))

module _ ⦃env : Env⦄ where
  -- the id of a session that server_NICK introduces
  abbrev subsession_id : ℕ → Text → IrcServer → RobustId
  subsession_id s nick i = record { id = (i.heap s).id.id; reply = env.fnv64 nick }

  introduce-panic :
      (s : ℕ) (msg : Msg) (nick : Text) (st : St)
      → is_full (subsession_id s nick st.server) [] (st.server.heap s).last_activity st.server
        ≡ true
      → lookup (subsession_id s nick st.server) st.server.sessions ≡ none
      → introduce s msg nick st ≡ panic
  unfolding introduce ◌>>=◌ deref gets modify non_nil crash
  introduce-panic s msg nick st full unseen =
      rw
        (
          create-full (subsession_id s nick st.server) [] (st.server.heap s).last_activity st.server
              full,
          unseen,
        )
        refl

  -- NICK from the services, for a nickname that is free: where the limit on the sessions is reached
  -- and the services have no session of that id yet, the handler panics.
  pub cmd_server_nick-panic :
      (s : ℕ) (msg : Msg) (st : St) (nick : Text)
      → get_elem? msg.params 0 ≡ some nick
      → nat_beq (length msg.params) 1 ≡ false
      → lookup (nick_to_lower nick) st.server.nicks ≡ none
      → 0 < st.server.config.max_sessions
      → st.server.config.max_sessions ≤ length st.server.sessions
      → lookup (record { id = (st.server.heap s).id.id; reply = env.fnv64 nick }) st.server.sessions
        ≡ none
      → cmd_server_nick s msg st ≡ panic
  unfolding cmd_server_nick ◌>>=◌ param non_nil pure find_nick gets
  cmd_server_nick-panic s msg st nick named several free pos reached unseen =
      rw (several, named, free)
        (introduce-panic s msg nick st (ground (arith, pos, reached)) unseen)

-- SVSNICK to a nickname that differs from the old one in its capitals only: afterwards the map of
-- nicknames has no entry for the session's new nickname.
pub svs_change_nick-lost :
    ⦃env : Env⦄ (r : ℕ) (target nick : Text) (i : IrcServer)
    → nick_to_lower nick ≡ nick_to_lower target
    → (((svs_change_nick r (nick_to_lower target) nick i).heap r).nick ≡ nick)
      × (lookup (nick_to_lower nick) (svs_change_nick r (nick_to_lower target) nick i).nicks ≡ none)
unfolding svs_change_nick set_session update_irc_prefix
svs_change_nick-lost r target nick i same = (
  ground arith,
  lookup-delete (nick_to_lower target) (nick_to_lower nick) (insert (nick_to_lower nick) r i.nicks)
      ∙ ground (arith, text_beq_iff (nick_to_lower target) (nick_to_lower nick), same),
)
