-- ===== src/Robust.antt =====
-- internal/robust/robust.go: ids and messages of the replicated log.
use robustirc.Base.{
  ℕ, ◌+◌, ◌*◌, ◌^◌, ◌%◌, ◌≡◌, ◌↔◌, Bool, true, ◌&&◌, List, arith, nat_beq, if◌then◌else◌, Eq,
}
use robustirc.Text.{Text}

-- robust.Id
pub record RobustId : Type 0 where
  pub id : ℕ
  pub reply : ℕ

unfoldable pub id_beq : RobustId → RobustId → Bool
id_beq a b = nat_beq a.id b.id && nat_beq a.reply b.reply

pub id_beq_iff : (a b : RobustId) → (id_beq a b ≡ true) ↔ (a ≡ b)
unfolding id_beq
id_beq_iff a b = ground arith

instance abbrev pub id_eq : Eq RobustId
id_eq = record { beq = id_beq; beq_iff = id_beq_iff }

-- IdFromRaftIndex; the offset is the program's variable MessageOffset, and uint64 wraps
unfoldable pub id_from_raft_index : ℕ → ℕ → ℕ
id_from_raft_index message_offset index = (message_offset + index) % 2 ^ 64

-- robust.Type
pub data MessageType : Type 0 where
  create_session delete_session irc_from_client irc_to_client ping : MessageType
  message_of_death config state any : MessageType

-- robust.Message, without InterestingFor, which only output messages carry
pub record Message : Type 0 where
  pub id : RobustId
  pub session : RobustId
  pub type : MessageType
  pub payload : Text
  pub unix_nano : ℕ
  pub servers : List Text
  pub current_master : Text
  pub client_message_id : ℕ
  pub revision : ℕ
  pub remote_addr : Text

-- Nanoseconds from the zero time.Time (year 1) to the Unix epoch. A time is the number of
-- nanoseconds since the zero time, so that `IsZero` is the test for 0.
abbrev pub unix_epoch : ℕ
unix_epoch = 62135596800 * 1_000_000_000

-- time.Unix(0, n)
abbrev pub unix : ℕ → ℕ
unix n = unix_epoch + n

-- Message.Timestamp
unfoldable pub timestamp : Message → ℕ
timestamp m = if nat_beq m.unix_nano 0 then unix m.id.id else unix m.unix_nano
