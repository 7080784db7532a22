-- ===== src/Firmware/Commands/PreDispatch.antt =====
-- apps/bolty-esp32/src/commands.rs: the words that are handled before the command parser.
pub mod Apart
use bolty_rs.Prelude.{Option, none, some, [], ◌∷◌, if◌then◌else◌}
use bolty_rs.Prelude.Text.{Text, codes, eq_ignore_ascii_case, trim, is_ascii_whitespace}

pub data PreDispatchCommand : Type 0 where
  crashlog hw_test provision_cert : PreDispatchCommand
  provision_ota_key : Text → PreDispatchCommand
  force_on force_off force_status grove_on grove_off grove_status : PreDispatchCommand

-- `trimmed` up to its first blank, and from there on
unfoldable pub split_head : Text → Text × Option Text
split_head [] = ([], none)
split_head (ch ∷ trimmed) =
    let (head, tail) = split_head trimmed in
    if is_ascii_whitespace ch then ([], some (ch ∷ trimmed)) else (ch ∷ head, tail)

abbrev on_off :
    PreDispatchCommand
    → PreDispatchCommand
    → PreDispatchCommand
    → Option Text
    → Option PreDispatchCommand
on_off on off asked none = some asked
on_off on off asked (some arg) =
    if eq_ignore_ascii_case arg (codes "on")
    then some on
    else if eq_ignore_ascii_case arg (codes "off")
    then some off
    else none

-- the branches that need a second word, or take one
abbrev with_argument : Text → Option Text → Option PreDispatchCommand
with_argument head tail =
    if eq_ignore_ascii_case head (codes "force")
    then on_off force_on force_off force_status tail
    else if eq_ignore_ascii_case head (codes "grove")
    then on_off grove_on grove_off grove_status tail
    else none

unfoldable pub pre_dispatch : Text → Option Text → Option PreDispatchCommand
pre_dispatch head none =
    if eq_ignore_ascii_case head (codes "crashlog")
    then some crashlog
    else if eq_ignore_ascii_case head (codes "hwtest")
    then some hw_test
    else if eq_ignore_ascii_case head (codes "provision-cert")
    then some provision_cert
    else with_argument head none
pre_dispatch head (some key_hex) =
    if eq_ignore_ascii_case head (codes "provision-ota-key")
    then some (provision_ota_key key_hex)
    else with_argument head (some key_hex)

abbrev map_trim : Option Text → Option Text
map_trim none = none
map_trim (some s) = some (trim s)

unfoldable pub parse_pre_dispatch_command : Text → Option PreDispatchCommand
unfolding split_head pre_dispatch
parse_pre_dispatch_command line =
    let (head, tail) = split_head (trim line) in pre_dispatch head (map_trim tail)
