-- ===== src/Run.antt =====
-- Handlers as actions on the server and the reply context. A nil dereference or an index out of
-- range is a panic, which statemachine.go turns into a message of death.
pub mod Keeps
pub mod Guarded
use robustirc.Base.{
  ℕ, zero, suc, ◌+◌, ◌≡◌, refl, Bool, true, false, List, [], ◌∷◌, Option, none, some, get_elem?,
}
use robustirc.Text.{Text}
use robustirc.Irc.{Prefix, Msg}
use robustirc.Robust.{RobustId}
use robustirc.Server.{Session, Channel, IrcServer, set_session}

-- An output message of a Replyctx. Its Data is kept as the message, before it is serialised;
-- `interesting_for` holds the keys of the map InterestingFor.
pub record OutMsg : Type 0 where
  pub id : RobustId
  pub body : Msg
  pub interesting_for : List ℕ

-- Replyctx; `lastmsg` is compared as a pointer, so messages get an address from `next_msg`.
pub record Replyctx : Type 0 where
  pub msgid : ℕ
  pub replyid : ℕ
  pub messages : List OutMsg
  pub lastmsg : Option ℕ
  pub next_msg : ℕ

pub record St : Type 0 where
  pub server : IrcServer
  pub reply : Replyctx

pub data Res (A : Type 0) : Type 0 where
  ok : A → St → Res A
  panic : Res A

abbrev pub M : Type 0 → Type 0
M A = St → Res A

abbrev pub continue : {A B : Type 0} → Res A → (A → M B) → Res B
continue (ok a st) f = f a st
continue panic f = panic

infixl 10 ◌>>=◌ ◌>>◌
unfoldable pub ◌>>=◌ : {A B : Type 0} → M A → (A → M B) → M B
◌>>=◌ m f st = continue (m st) f

-- The result of a statement is dropped.
abbrev pub ◌>>◌ : {A B : Type 0} → M A → M B → M B
m >> k = m >>= λ _. k

unfoldable pub pure : {A : Type 0} → A → M A
pure a st = ok a st

-- return, and continue in a loop
abbrev pub done : M (Unit {0})
done = pure tt

unfoldable pub crash : {A : Type 0} → M A
crash st = panic

unfoldable pub gets : {A : Type 0} → (IrcServer → A) → M A
gets f st = ok (f st.server) st

unfoldable pub modify : (IrcServer → IrcServer) → M (Unit {0})
modify f st = ok tt (record st { server = f st.server })

-- A dereference of a pointer that may be nil, such as the value of a missing key.
unfoldable pub non_nil : {A : Type 0} → Option A → M A
non_nil none = crash
non_nil (some a) = pure a

-- msg.Params[n]
unfoldable pub param : Msg → ℕ → M Text
param msg n = non_nil (get_elem? msg.params n)

-- msg.Prefix.Name
unfoldable pub prefix_of : Msg → M Prefix
prefix_of msg = non_nil msg.prefix

-- The session behind a pointer.
unfoldable pub deref : ℕ → M Session
deref r = gets (λ i. i.heap r)

-- A write to fields of the session behind a pointer.
unfoldable pub update_session : ℕ → (Session → Session) → M (Unit {0})
update_session r f = modify (λ i. record i { heap = set_session r (f (i.heap r)) i.heap })

-- for _, x := range xs
unfoldable pub for_each : {A : Type 0} → List A → (A → M (Unit {0})) → M (Unit {0})
for_each [] body = done
for_each (x ∷ xs) body = body x >> for_each xs body
