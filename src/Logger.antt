-- ===== src/Logger.antt =====
-- Overc/logger.py: log lines with a colour and the name of the level.
use meta_overc.Base.{String, ◌<>◌, Bool, true, ◌&&◌, not, ◌==◌, if◌then◌else◌}
use Prim.Native.Char.{char}
use Prim.Native.String.{[], ◌∷◌}
use meta_overc.Exec.{Exec, print}

-- `DEBUG` to `CRITICAL`
pub data Level : Type 0 where
  debug info warning error critical : Level

unfoldable pub level_name : Level → String
level_name debug = "DEBUG"
level_name info = "INFO"
level_name warning = "WARNING"
level_name error = "ERROR"
level_name critical = "CRITICAL"

-- The code of the colour, in decimal: CYAN 36, BASECOLOR 29, YELLOW 33, RED 31
unfoldable pub color : Level → String
color debug = "36"
color info = "29"
color warning = "33"
color error = "31"
color critical = "31"

-- The escape character, `\033`
abbrev pub escape : String
escape = char 27 tt ∷ []

abbrev pub bold : String → String
bold c = escape <> ("[1;" <> (c <> "m"))

abbrev pub standard : String → String
standard c = escape <> ("[" <> (c <> "m"))

abbrev pub reset : String
reset = escape <> "[0m"

-- `colorize`, where the first argument is `self.colored`
unfoldable pub colorize : Bool → Level → String → String
unfolding level_name color
colorize colored level msg =
    if colored && not (msg == "")
    then bold (color level)
      <> (("[" <> (level_name level <> "]:"))
          <> (reset <> (" " <> (standard (color level) <> (msg <> reset)))))
    else msg

module _ {S : Type 0} where
  -- `log.debug`, `log.info`, … of the module's logger, whose colours nobody disables
  unfoldable pub log : Level → String → Exec S (Unit {0})
  unfolding colorize
  log level msg = print (colorize true level msg)
