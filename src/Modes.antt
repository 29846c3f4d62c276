-- ===== src/Modes.antt =====
-- internal/ircserver/modes.go: mode changes in a MODE message.
pub mod RoundTrip
use robustirc.Base.{
  Bool, List, [], get_elem?, if◌then◌else◌, keep, ltb, nat_beq, nat_eq, not, or_default, suc, true,
  zero, ℕ, ◌++◌, ◌+◌, ◌-◌, ◌/◌, ◌==◌, ◌||◌, ◌∷◌,
}
use robustirc.Robust.{id_eq}
use robustirc.Server.{Modes}
use robustirc.Text.{Text, text_eq}

-- modeCmd. Its field Mode is a sign and a character, which are kept apart here.
pub record ModeCmd : Type 0 where
  pub adding : Bool
  pub rune : ℕ
  pub arg : Text

-- mode.Mode[1], the first byte of the character in UTF-8
unfoldable pub mode_char : ModeCmd → ℕ
mode_char m = if ltb m.rune 128 then m.rune else 192 + m.rune / 64

-- string(mode.Mode[1]) for each mode
unfoldable pub mode_letters : List ModeCmd → Text
mode_letters [] = []
mode_letters (m ∷ ms) = mode_char m ∷ mode_letters ms

-- the parameters that are not empty
unfoldable pub mode_args : List ModeCmd → List Text
mode_args [] = []
mode_args (m ∷ ms) = let rest = mode_args ms in if m.arg == [] then rest else m.arg ∷ rest

abbrev pub adds : List ModeCmd → List ModeCmd
adds = keep (λ m. m.adding)

abbrev pub removes : List ModeCmd → List ModeCmd
removes = keep (λ m. not m.adding)

-- a sign and the letters, or nothing
unfoldable pub signed : ℕ → List ModeCmd → Text
signed sign [] = []
signed sign (m ∷ ms) = sign ∷ mode_letters (m ∷ ms)

-- IRCParams
unfoldable pub irc_params : List ModeCmd → List Text
irc_params cmds =
    (signed b'+' (adds cmds) ++ signed b'-' (removes cmds))
    ∷ (mode_args (adds cmds) ++ mode_args (removes cmds))

-- Modes which require a parameter.
unfoldable pub takes_arg : ℕ → Bool
takes_arg char = nat_beq char b'o' || nat_beq char b'd' || nat_beq char b'b'

unfoldable pub is_sign : ℕ → Bool
is_sign char = nat_beq char b'+' || nat_beq char b'-'

-- The loop of normalizeModes, at the parameters, `adding`, `modearg` and the rest of the text.
unfoldable pub scan_modes : List Text → Bool → ℕ → Text → List ModeCmd
scan_modes params adding modearg [] = []
scan_modes params adding modearg (char ∷ rest) =
    let adding' = if is_sign char then nat_beq char b'+' else adding in
    let modearg' = if takes_arg char then modearg + 1 else modearg in
    let arg = if takes_arg char then or_default [] (get_elem? params modearg) else [] in
    let more = scan_modes params adding' modearg' rest in
    if is_sign char then more else record { adding = adding; rune = char; arg = arg } ∷ more

-- normalizeModes
unfoldable pub normalize_modes : List Text → List ModeCmd
normalize_modes [] = []
normalize_modes (target ∷ []) = []
normalize_modes (target ∷ modestr ∷ rest) = scan_modes (target ∷ modestr ∷ rest) true 2 modestr

-- The letters of the loop `for mode := 'A'; mode < 'z'; mode++`, from a letter and for a count.
unfoldable pub letters_from : Modes → ℕ → ℕ → Text
letters_from modes char zero = []
letters_from modes char (suc n) =
    let rest = letters_from modes (char + 1) n in if modes char then char ∷ rest else rest

unfoldable pub mode_string : Modes → Text
mode_string modes = b'+' ∷ letters_from modes b'A' (b'z' - b'A')
