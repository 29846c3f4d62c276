-- ===== src/Snapshot/Fields.antt =====
-- internal/ircserver/serialize.go: the fields of sessions and channels that are encoded.
use robustirc.Base.{
  All, ◌&&◌, ◌||◌, leb, Bool-cases, List, [], add_elem, arith, if◌then◌else◌, inl, inr, ltb, refl,
  some, suc, sym, true, zero, ℕ, ◌++◌, ◌+◌, ◌<◌, ◌^◌, ◌≡◌, ◌≤◌, ◌∷◌, ◌∙◌, ap,
}
use robustirc.Base.Assoc.{Map, insert, keys}
use robustirc.Base.Distinct.{Apart, Apart-append, Apart-nil, Distinct, insert-append, keys-append}
use robustirc.Robust.{unix_epoch}
use robustirc.Server.{Modes, Perms, no_modes, no_perms, set_mode}
use robustirc.Snapshot.Copy.{AreChannelKeys, AreLetters, AreNickKeys, InRange}
use robustirc.Snapshot.Decode.{
  channel_set, from_unix_nano, read_members, read_modes, read_perms, timestamp_to_time,
}
use robustirc.Snapshot.Encode.{
  marshal_members, marshal_modes, marshal_perms, mode_letters, time_to_timestamp, unix_nano,
}
use robustirc.Text.{Text, text_eq}
use robustirc.Text.Case.{chan_to_lower, nick_to_lower}
use mathlib.Core.List.{append_assoc, append-nil}
use mathlib.Core.Path.{fun_ext}

from_unix_nano-unix_nano :
    (t : ℕ) → unix_epoch ≤ t + 2 ^ 63 → t < unix_epoch + 2 ^ 63 → from_unix_nano (unix_nano t) ≡ t
unfolding from_unix_nano unix_nano
from_unix_nano-unix_nano t low high = ground arith

-- A time that fits is read back.
pub timestamp_to_time-time_to_timestamp :
    (t : ℕ) → InRange t → timestamp_to_time (some (time_to_timestamp t)) ≡ t
unfolding timestamp_to_time time_to_timestamp
timestamp_to_time-time_to_timestamp t (inl e) = rw e
timestamp_to_time-time_to_timestamp t (inr (low, high)) =
    ground (arith, from_unix_nano-unix_nano t low high)

channel_set-append :
    (names seen : List Text)
    → All (λ name. chan_to_lower name ≡ name) names
    → Distinct names
    → Apart names seen
    → channel_set names seen ≡ seen ++ names
unfolding channel_set add_elem
channel_set-append [] seen low distinct new = sym (append-nil seen)
channel_set-append (n ∷ names) seen (low, lows) (once, distinct) (new, apart) =
    rw
      (
        low,
        new,
        channel_set-append names (seen ++ n ∷ []) lows distinct
            (Apart-append n names seen once apart),
      )
      (append_assoc seen (n ∷ []) names)

-- Distinct keys in lower case are collected as they are.
pub channel_set_lem : (names : List Text) → AreChannelKeys names → channel_set names [] ≡ names
channel_set_lem names (low, distinct) = channel_set-append names [] low distinct (Apart-nil names)

-- The modes that the letters set, one after the other.
abbrev set_letters : ℕ → ℕ → Modes → Modes → Modes
set_letters zero mode modes acc = acc
set_letters (suc count) mode modes acc =
    set_letters count (mode + 1) modes (if modes mode then set_mode mode true acc else acc)

read_modes-mode_letters :
    (count mode : ℕ) (modes acc : Modes)
    → mode + count ≤ b'z'
    → read_modes (mode_letters count mode modes) acc ≡ some (set_letters count mode modes acc)
unfolding read_modes mode_letters
read_modes-mode_letters zero mode modes acc fits = refl
read_modes-mode_letters (suc count) mode modes acc fits = elim (Bool-cases (modes mode)) [
  | inl on ↦
      rw on
        (ground (arith, read_modes-mode_letters count (mode + 1) modes (set_mode mode true acc)))
  | inr off ↦ rw off (read_modes-mode_letters count (mode + 1) modes acc (omega arith))
]

set_letters_lem :
    (count mode : ℕ) (modes acc : Modes) (c : ℕ)
    → set_letters count mode modes acc c
      ≡ (acc c || (modes c && leb mode c && ltb c (mode + count)))
unfolding set_mode
set_letters_lem zero mode modes acc c = ground arith
set_letters_lem (suc count) mode modes acc c = elim (Bool-cases (modes mode)) [
  | inl on ↦
      rw (on, set_letters_lem count (mode + 1) modes (set_mode mode true acc) c) (ground arith)
  | inr off ↦ rw (off, set_letters_lem count (mode + 1) modes acc c) (ground arith)
]

pub read_modes-marshal_modes :
    (modes : Modes) → AreLetters modes → read_modes (marshal_modes modes) no_modes ≡ some modes
unfolding marshal_modes
read_modes-marshal_modes modes letters =
    read_modes-mode_letters 57 b'A' modes no_modes (omega arith)
    ∙ ap some (fun_ext (λ c. set_letters_lem 57 b'A' modes no_modes c ∙ ground (arith, letters c)))

read_perms-marshal_perms : (p : Perms) → read_perms (marshal_perms p) no_perms ≡ some p
unfolding read_perms marshal_perms
read_perms-marshal_perms p = ground arith

read_members_step :
    (nick : Text) (modes : List Text) (rest : Map Text (List Text)) (nicks : Map Text Perms)
    {p : Perms}
    → read_perms modes no_perms ≡ some p
    → read_members ((nick, modes) ∷ rest) nicks
      ≡ read_members rest (insert (nick_to_lower nick) p nicks)
unfolding read_members
read_members_step nick modes rest nicks h = ground arith

read_members-append :
    (m nicks : Map Text Perms)
    → AreNickKeys (keys m)
    → Apart (keys m) (keys nicks)
    → read_members (marshal_members m) nicks ≡ some (nicks ++ m)
unfolding marshal_members
read_members-append [] nicks keys_of new = unfold read_members in ap some (sym (append-nil nicks))
read_members-append ((nick, p) ∷ m) nicks ((low, lows), (once, distinct)) (new, apart) =
    rw
      (
        read_members_step nick (marshal_perms p) (marshal_members m) nicks
            (read_perms-marshal_perms p),
        low,
        insert-append nick p nicks new,
        read_members-append m (nicks ++ (nick, p) ∷ []) (lows, distinct)
            (rw (keys-append nicks ((nick, p) ∷ []))
              (Apart-append nick (keys m) (keys nicks) once apart)),
      )
      (ap some (append_assoc nicks ((nick, p) ∷ []) m))

pub read_members-marshal_members :
    (m : Map Text Perms) → AreNickKeys (keys m) → read_members (marshal_members m) [] ≡ some m
read_members-marshal_members m keys_of = read_members-append m [] keys_of (Apart-nil (keys m))
