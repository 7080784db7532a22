-- ===== src/Cli/Tests.antt =====
-- The command line at a concrete log and with concrete readers.
use bolty_rs.Prelude.{◌≡◌, refl, some, none, List, [], ◌∷◌, ok}
use bolty_rs.Prelude.Text.{Text, codes}
use bolty_rs.Cli.Budget.{lines_from, parse_audit}
use bolty_rs.Cli.Reader.{select_reader}
use bolty_rs.Cli.Reader.Choice.{Chosen, select_reader_lem}

abbrev a_log : Text
a_log = codes "RX sw=91AE\nEVENT wipe: SUCCESS\r\nRX sw=91ae"

spent_test : (parse_audit a_log).since_last_wipe ≡ some 1
unfolding parse_audit bolty_rs.Cli.Budget.report_of bolty_rs.Cli.Budget.count_lines lines_from
    bolty_rs.Cli.Budget.count_line bolty_rs.Prelude.Text.contains
    bolty_rs.Prelude.Text.to_ascii_lowercase bolty_rs.Cli.Budget.strip_cr
spent_test = refl

abbrev a_bench : List Text
a_bench = codes "ACR1252 SAM 02" ∷ codes "Virtual PICC vpcd 00" ∷ codes "ACR1252 PICC 03" ∷ []

select_reader_test : select_reader a_bench none ≡ ok (codes "ACR1252 PICC 03")
unfolding select_reader bolty_rs.Cli.Reader.is_virtual bolty_rs.Prelude.Text.contains
    bolty_rs.Prelude.Text.strip_prefix bolty_rs.Prelude.Text.to_ascii_lowercase
select_reader_test = refl

select_reader_lem_example : Chosen a_bench none (select_reader a_bench none)
select_reader_lem_example = select_reader_lem a_bench none
