-- ===== src/Send.antt =====
-- internal/ircserver/ircserver.go: messages to the clients, from `send` to `sendServices`. A call
-- within a call, such as sendServices(reply, sendChannel(c, reply, msg)), passes the action on.
use robustirc.Base.{
  Bool, List, Option, [], add_elem, false, if◌then◌else◌, is_some, nat_beq, nat_eq, none,
  option_case, some, suc, ℕ, ◌%◌, ◌++◌, ◌+◌, ◌^◌, ◌∷◌,
}
use robustirc.Base.Assoc.{insert, keys, lookup}
use robustirc.Irc.{Msg, Prefix}
use robustirc.Robust.{id_eq}
use robustirc.Run.{
  M, OutMsg, Replyctx, crash, deref, done, for_each, gets, modify, non_nil, ok, pure, ◌>>=◌, ◌>>◌,
}
use robustirc.Server.{Channel, Session}
use robustirc.Text.{Text, text_eq}
use robustirc.Text.Case.{chan_to_lower, nick_to_lower}

-- A *irc.Message.
pub record MsgPtr : Type 0 where
  pub addr : ℕ
  pub msg : Msg

-- &irc.Message{…}
unfoldable pub new_msg : Msg → M MsgPtr
new_msg msg st =
    let r = st.reply in
    ok (record { addr = r.next_msg; msg = msg })
      (record st { reply = record r { next_msg = suc r.next_msg } })

unfoldable pub new_robust_msg : Replyctx → MsgPtr → Replyctx
new_robust_msg r p =
    let replyid : ℕ = (r.replyid + 1) % 2 ^ 64 in
    record r {
      replyid = replyid;
      messages =
          r.messages
          ++ record {
            id = record { id = r.msgid; reply = replyid };
            body = p.msg;
            interesting_for = [];
          }
            ∷ [];
      lastmsg = some p.addr;
    }

abbrev pub is_last : Option ℕ → ℕ → Bool
is_last none addr = false
is_last (some last) addr = nat_beq last addr

-- Both branches of the code return the last element of reply.Messages.
unfoldable pub send : MsgPtr → M (Unit {0})
send p st =
    if is_last st.reply.lastmsg p.addr
    then ok tt st
    else ok tt (record st { reply = new_robust_msg st.reply p })

unfoldable pub mark_last : ℕ → List OutMsg → List OutMsg
mark_last session [] = []
mark_last session (m ∷ []) = record m { interesting_for = add_elem session m.interesting_for } ∷ []
mark_last session (m ∷ n ∷ ms) = m ∷ mark_last session (n ∷ ms)

-- robustmsg.InterestingFor[session] = true
unfoldable pub interested : ℕ → M (Unit {0})
interested session st =
    ok tt (record st { reply = record st.reply { messages = mark_last session st.reply.messages } })

-- i.channels[key], for a channel that the code holds a pointer to
unfoldable pub channel_at : Text → M Channel
channel_at key = do found ← gets (λ i. lookup key i.channels); non_nil found

-- i.nicks[nick], dereferenced
unfoldable pub session_of_nick : Text → M Session
session_of_nick nick = do found ← gets (λ i. lookup nick i.nicks); r ← non_nil found; deref r

-- for nick := range c.nicks { robustmsg.InterestingFor[i.nicks[nick].Id.Id] = true }
unfoldable pub interest_members : Channel → M (Unit {0})
interest_members c =
    for_each (keys c.nicks) (λ nick. do u ← session_of_nick nick; interested u.id.id)

unfoldable pub send_user : ℕ → M MsgPtr → M MsgPtr
send_user user message = do p ← message; send p; u ← deref user; interested u.id.id; pure p

unfoldable pub interest_channel : Text → M (Unit {0})
interest_channel channelname = do
  found ← gets (λ i. lookup channelname i.channels)
  option_case found done (λ c. interest_members c)

unfoldable pub send_common_channels : ℕ → M MsgPtr → M MsgPtr
send_common_channels user message = do
  p ← message
  send p
  u ← deref user
  for_each u.channels interest_channel
  pure p

-- The channel is given by its key.
unfoldable pub send_channel : Text → M MsgPtr → M MsgPtr
send_channel key message = do p ← message; send p; c ← channel_at key; interest_members c; pure p

-- for nick := range c.nicks, except for the session of `user`; pointers are compared
unfoldable pub interest_but : ℕ → Text → M (Unit {0})
interest_but user nick = do
  found ← gets (λ i. lookup nick i.nicks)
  option_case found crash (λ r. if nat_beq r user then done else do u ← deref r; interested u.id.id)

unfoldable pub send_channel_but_one : Text → ℕ → M MsgPtr → M MsgPtr
send_channel_but_one key user message = do
  p ← message
  send p
  c ← channel_at key
  for_each (keys c.nicks) (interest_but user)
  pure p

unfoldable pub send_services : M MsgPtr → M MsgPtr
send_services message = do
  p ← message
  send p
  ids ← gets (λ i. i.server_sessions)
  for_each ids interested
  pure p

-- &irc.Message{Prefix: i.ServerPrefix, …}
unfoldable pub server_msg : Text → List Text → M MsgPtr
server_msg command params = do
  prefix ← gets (λ i. i.server_prefix)
  new_msg (record { prefix = some prefix; command = command; params = params })

-- &irc.Message{…} with no prefix
unfoldable pub bare_msg : Text → List Text → M MsgPtr
bare_msg command params = new_msg (record { prefix = none; command = command; params = params })

-- &irc.Message{Prefix: &prefix, …}
unfoldable pub prefixed_msg : Prefix → Text → List Text → M MsgPtr
prefixed_msg prefix command params =
    new_msg (record { prefix = some prefix; command = command; params = params })

-- A reply to a user from the server, as a statement.
unfoldable pub reply_user : ℕ → Text → List Text → M (Unit {0})
reply_user user command params = do send_user user (server_msg command params); done

-- A reply to the services from the server, as a statement.
unfoldable pub reply_services : Text → List Text → M (Unit {0})
reply_services command params = do send_services (server_msg command params); done

-- i.channels[ChanToLower(name)]
unfoldable pub find_channel : Text → M (Option Channel)
find_channel name = gets (λ i. lookup (chan_to_lower name) i.channels)

-- i.nicks[NickToLower(name)]
unfoldable pub find_nick : Text → M (Option ℕ)
find_nick name = gets (λ i. lookup (nick_to_lower name) i.nicks)

-- c.nicks[NickToLower(nick)], whether the key is there
unfoldable pub on_channel : Channel → Text → Bool
on_channel c nick = is_some (lookup (nick_to_lower nick) c.nicks)

-- c.nicks[NickToLower(nick)][chanop], which dereferences the entry
unfoldable pub is_chanop : Channel → Text → M Bool
is_chanop c nick = do perms ← non_nil (lookup (nick_to_lower nick) c.nicks); pure perms.chanop

-- A write to fields of the channel with this key.
unfoldable pub update_channel : Text → (Channel → Channel) → M (Unit {0})
update_channel key f = modify (λ i.
    option_case (lookup key i.channels) i
      (λ c. record i { channels = insert key (f c) i.channels }))

-- reply.replyid
unfoldable pub replies : M ℕ
replies st = ok st.reply.replyid st
