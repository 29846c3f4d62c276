-- ===== src/Delivery/Sent.antt =====
-- The state after one message was sent, with the sessions that are interested in it.
use robustirc.Base.{
  List, [], add_elem, ap, false, nat_eq, refl, some, suc, ℕ, ◌%◌, ◌++◌, ◌+◌, ◌^◌, ◌∷◌, ◌≡◌,
}
use robustirc.Irc.{Msg, Prefix}
use robustirc.Robust.{id_eq}
use robustirc.Run.{M, OutMsg, St, ok, ◌>>=◌, ◌>>◌}
use robustirc.Send.{
  MsgPtr, interested, is_last, mark_last, new_msg, new_robust_msg, prefixed_msg, send,
}
use robustirc.Text.{Text, text_eq}

-- No message of the reply has the address that the next message gets.
abbrev pub IsFresh : St → Type 0
IsFresh st = is_last st.reply.lastmsg st.reply.next_msg ≡ false

abbrev pub sent_message : St → Msg → List ℕ → OutMsg
sent_message st msg ids = record {
  id = record { id = st.reply.msgid; reply = (st.reply.replyid + 1) % 2 ^ 64 };
  body = msg;
  interesting_for = ids;
}

abbrev pub sent : St → Msg → List ℕ → St
sent st msg ids = record {
  server = st.server;
  reply = record {
    msgid = st.reply.msgid;
    replyid = (st.reply.replyid + 1) % 2 ^ 64;
    messages = st.reply.messages ++ sent_message st msg ids ∷ [];
    lastmsg = some st.reply.next_msg;
    next_msg = suc st.reply.next_msg;
  };
}

mark_last-append :
    (x : ℕ) (ms : List OutMsg) (m : OutMsg)
    → mark_last x (ms ++ m ∷ [])
      ≡ ms ++ record m { interesting_for = add_elem x m.interesting_for } ∷ []
unfolding mark_last
mark_last-append x [] m = refl
mark_last-append x (a ∷ []) m = refl
mark_last-append x (a ∷ b ∷ ms) m = ap (λ l. a ∷ l) (mark_last-append x (b ∷ ms) m)

pub interested-sent :
    (x : ℕ) (st : St) (msg : Msg) (ids : List ℕ)
    → interested x (sent st msg ids) ≡ ok tt (sent st msg (add_elem x ids))
unfolding interested
interested-sent x st msg ids =
    ap
      (λ ms.
        ok tt
          (record (sent st msg ids) { reply = record (sent st msg ids).reply { messages = ms } }))
      (mark_last-append x st.reply.messages (sent_message st msg ids))

-- The message of `prefixed_msg`, sent, before anybody is interested in it.
pub send-sent :
    {B : Type 0} (prefix : Prefix) (command : Text) (params : List Text) (f : MsgPtr → M B)
    (st : St)
    → IsFresh st
    → (prefixed_msg prefix command params >>= λ p. send p >> f p) st
      ≡ f
          (record {
            addr = st.reply.next_msg;
            msg = record { prefix = some prefix; command = command; params = params };
          })
          (sent st (record { prefix = some prefix; command = command; params = params }) [])
unfolding prefixed_msg new_msg send new_robust_msg ◌>>=◌
send-sent prefix command params f st unused = rw unused refl
